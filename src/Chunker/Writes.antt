-- ===== src/Chunker/Writes.antt =====
-- `write` keeps the invariant: what it takes is what it reports.
use http_serve.Base.{
  ℕ, ◌≡◌, refl, sym, ap, ◌∙◌, ◌≢◌, inl, Bool, false, Option, List, [], ◌∷◌, ◌++◌, append_assoc,
  arith, Bytes, length, take, length-take, ◌+◌, ◌<◌, ◌⊎◌, inr, true, none, length-append, ◌-◌,
  subst, ◌&&◌, leb, if◌then◌else◌,
}
use http_serve.Chunker.{
  fill_by, reader_fused, live, Writer, flush_state, counted, is_empty, SharedState, Shared, done,
  failed, fill, flush_helper, Called,
}
use http_serve.Chunker.System.{System, after_write}
use http_serve.Chunker.Invariant.{WriterInv, LiveInv, Inv, StateInv}
use http_serve.Chunker.Flushes.{flush-live}

abbrev pub filled : Writer → Bytes → Writer
filled w b = record w { buf = w.buf ++ b }

is_empty-append : (a b : Bytes) → 0 < length a + length b → is_empty (a ++ b) ≡ false
is_empty-append [] [] h = absurd (omega arith)
is_empty-append [] (c ∷ b) h = refl
is_empty-append (c ∷ a) b h = refl

ne-nil_of_is_empty : (b : Bytes) → is_empty b ≡ false → b ≢ []
ne-nil_of_is_empty [] h = cc
ne-nil_of_is_empty (c ∷ b) h = λ e. cc

module _ {E : Type 0} where
  -- The bytes go into the buffer and are counted as accepted.
  fill-LiveInv :
      (queue : List Bytes) (bytes : ℕ) (d : Bool) (waker : Option ℕ) (b : Bytes) (w : Writer)
      (s : System E)
      → s.dropped ≡ false
      → LiveInv queue bytes d waker (record s { writer = w })
      → LiveInv queue bytes d waker (record s { accepted = s.accepted ++ b; writer = filled w b })
  fill-LiveInv queue bytes d waker b w s held i = record {
    conserved = ap (λ x. x ++ b) i.conserved ∙ simp append_assoc;
    counted = i.counted;
    nonempty = i.nonempty;
    told = i.told;
    emptied = λ gone. cc;
    unbroken = i.unbroken;
    waits = i.waits;
  }

  with_shared-LiveInv :
      {queue : List Bytes} {bytes : ℕ} {d : Bool} {waker : Option ℕ} {s : System E}
      {shared : Shared E} {crashed : Bool}
      → LiveInv queue bytes d waker s
      → LiveInv queue bytes d waker (record s { shared = shared; crashed = crashed })
  with_shared-LiveInv i = record {
    conserved = i.conserved;
    counted = i.counted;
    nonempty = i.nonempty;
    told = i.told;
    emptied = i.emptied;
    unbroken = i.unbroken;
    waits = i.waits;
  }

  -- The buffer is full, and is flushed while the queue is live.
  write-live-full :
      (queue : List Bytes) (bytes : ℕ) (d : Bool) (waker : Option ℕ) (n : ℕ) (data_in buf : Bytes)
      (w : Writer) (s : System E)
      → s.dropped ≡ false
      → LiveInv queue bytes d waker (record s { writer = w })
      → WriterInv w
      → s.crashed ≡ false
      → w.buf ++ take n data_in ≡ buf
      → buf ≢ []
      → Inv (
          after_write s data_in (
            counted
              (flush_state
                (live queue bytes d)
                buf
                false
                (filled w (take n data_in))
                (record { state = live queue bytes d; waker = waker }))
              n))
  unfolding flush_state
  write-live-full queue bytes d waker n data_in [] w s held i wi c e ne = absurd (ne refl)
  write-live-full queue bytes d waker n data_in (b ∷ buf) w s held i wi c e ne =
      flush-live queue bytes d waker (b ∷ buf) s.dropped false (filled w (take n data_in))
        (record s { accepted = s.accepted ++ take n data_in })
        (fill-LiveInv queue bytes d waker (take n data_in) w s held i)
        (record { positive = wi.positive; reserved = wi.reserved }) c e (inl (λ x. ne (sym e ∙ x)))
        (sym held)

  -- The same when the queue is no longer live.
  pub write-dead-full :
      (st : SharedState E) (waker : Option ℕ) (n : ℕ) (data_in buf : Bytes) (w : Writer)
      (s : System E)
      → s.dropped ≡ false
      → WriterInv w
      → s.crashed ≡ false
      → StateInv st waker (record s { writer = w })
      → ((queue : List Bytes) (bytes : ℕ) (d : Bool) → st ≢ live queue bytes d)
      → Inv (
          after_write s data_in
            (counted (flush_state st buf false w (record { state = st; waker = waker })) n))
  unfolding flush_state
  write-dead-full (live queue bytes d) waker n data_in buf w s held wi c i dead =
      absurd (dead queue bytes d refl)
  write-dead-full (failed e) waker n data_in [] w s held wi c i dead = record {
    writer_ok = wi;
    state_ok = i;
    sound = ground arith;
  }
  write-dead-full (failed e) waker n data_in (b ∷ buf) w s held wi c i dead = record {
    writer_ok = wi;
    state_ok = i;
    sound = ground arith;
  }
  write-dead-full reader_fused waker n data_in buf w s held wi c (inr (_, gone), z) dead = cc
  write-dead-full reader_fused waker n data_in [] w s held wi c (inl a, z) dead = record {
    writer_ok = wi;
    state_ok = (inl a, z);
    sound = ground arith;
  }
  write-dead-full reader_fused waker n data_in (b ∷ buf) w s held wi c (inl a, z) dead = record {
    writer_ok = wi;
    state_ok = (inl a, z);
    sound = ground arith;
  }

  abbrev pub bare : SharedState E → Option ℕ → Shared E
  bare st waker = record { state = st; waker = waker }

  -- The premise on the shared state, with a buffer that is about to be flushed.
  abbrev pub Unflushed : SharedState E → Option ℕ → Writer → System E → Type 0
  Unflushed (live queue bytes d) waker w s = LiveInv queue bytes d waker (record s { writer = w })
  Unflushed (failed e) waker w s = (s.aborted ≡ true) × (s.asleep ≡ none)
  Unflushed reader_fused waker w s =
      ((s.aborted ≡ true) ⊎ ((s.accepted ≡ s.delivered) × (s.dropped ≡ true))) × (s.asleep ≡ none)

  write-full :
      (st : SharedState E) (waker : Option ℕ) (n : ℕ) (data_in : Bytes) (w : Writer) (s : System E)
      → s.dropped ≡ false
      → WriterInv w
      → s.crashed ≡ false
      → Unflushed st waker w s
      → w.buf ++ take n data_in ≢ []
      → Inv (
          after_write s data_in (
            counted
              (flush_state st
                (w.buf ++ take n data_in)
                false
                (filled w (take n data_in))
                (bare st waker))
              n))
  write-full (live queue bytes d) waker n data_in w s held wi c i ne =
      write-live-full queue bytes d waker n data_in _ w s held i wi c refl ne
  write-full (failed e) waker n data_in w s held wi c i ne =
      write-dead-full (failed e) waker n data_in _ (filled w (take n data_in)) s held
        (record { positive = wi.positive; reserved = wi.reserved }) c i (λ q b d x. cc)
  write-full reader_fused waker n data_in w s held wi c i ne =
      write-dead-full reader_fused waker n data_in _ (filled w (take n data_in)) s held
        (record { positive = wi.positive; reserved = wi.reserved }) c i (λ q b d x. cc)

  write-short :
      (st : SharedState E) (waker : Option ℕ) (data_in : Bytes) (w : Writer) (s : System E)
      → s.dropped ≡ false
      → WriterInv w
      → s.crashed ≡ false
      → Unflushed st waker w s
      → length w.buf + length data_in < w.capacity
      → Inv (
          after_write s data_in (record {
            writer = filled w (take (length data_in) data_in);
            shared = bare st waker;
            woken = none;
            result = done (length data_in);
          }))
  write-short (live queue bytes d) waker data_in w s held wi c i space = record {
    writer_ok = record { positive = wi.positive; reserved = wi.reserved };
    state_ok = (
      with_shared-LiveInv
          (fill-LiveInv queue bytes d waker (take (length data_in) data_in) w s held i),
      inl (
          omega (
            arith,
            length-append {0} w.buf (take (length data_in) data_in),
            length-take {0} (length data_in) data_in,
          )),
    );
    sound = ground arith;
  }
  write-short (failed e) waker data_in w s held wi c i space = record {
    writer_ok = record { positive = wi.positive; reserved = wi.reserved };
    state_ok = i;
    sound = ground arith;
  }
  write-short reader_fused waker data_in w s held wi c (inr (_, gone), z) space = cc
  write-short reader_fused waker data_in w s held wi c (inl a, z) space = record {
    writer_ok = record { positive = wi.positive; reserved = wi.reserved };
    state_ok = (inl a, z);
    sound = ground arith;
  }

  pub flushed-Unflushed :
      (st : SharedState E) (waker : Option ℕ) (w : Writer) (s : System E)
      → StateInv st waker (record s { writer = w })
      → Unflushed st waker w s
  flushed-Unflushed (live queue bytes d) waker w s i = i.0
  flushed-Unflushed (failed e) waker w s i = i
  flushed-Unflushed reader_fused waker w s i = i

  -- `write` once its buffer has room.
  pub fill-Inv :
      (st : SharedState E) (waker : Option ℕ) (data_in : Bytes) (w : Writer) (s : System E)
      → WriterInv w
      → length w.buf < w.capacity
      → s.dropped ≡ false
      → s.crashed ≡ false
      → Unflushed st waker w s
      → Inv (after_write s data_in (fill w (bare st waker) data_in))
  unfolding fill flush_helper
  fill-Inv st waker data_in w s wi space held c i = go (leb room (length data_in)) refl
    where
      room : ℕ
      room = w.capacity - length w.buf

      flushed : Bool → Called E ℕ
      flushed empty =
          let full = filled w (take room data_in) in
          counted
            (if empty && true
              then record { writer = full; shared = bare st waker; woken = none; result = done tt }
              else flush_state st full.buf false full (bare st waker))
            room

      go :
          (full : Bool)
          → leb room (length data_in) ≡ full
          → Inv (after_write s data_in (fill_by full room w (bare st waker) data_in))
      go true e =
          let some_bytes : is_empty (w.buf ++ take room data_in) ≡ false =
            is_empty-append w.buf (take room data_in) (ground (arith, length-take room data_in)) in
          subst (λ empty. Inv (after_write s data_in (flushed empty))) (sym some_bytes)
            (write-full st waker room data_in w s held wi c i (ne-nil_of_is_empty _ some_bytes))
      go false e = write-short st waker data_in w s held wi c i (ground arith)
