-- ===== src/Chunker/Flushes.antt =====
-- Flushing, dropping and writing keep the invariant.
use http_serve.Base.{
  ℕ, ◌≡◌, refl, sym, ap, ◌∙◌, subst, ◌≢◌, ◌⊎◌, inl, inr, Bool, false, Option, none, List, [], ◌∷◌,
  ◌++◌, append-nil, arith, Bytes, All-append, concat, concat-append, total_length-append, true, not,
  ◌&&◌, ◌||◌, if◌then◌else◌,
}
use http_serve.Chunker.{
  SharedState, live, failed, reader_fused, Shared, Writer, done, flush_state, flush_helper,
  is_empty,
}
use http_serve.Chunker.System.{System, after_call}
use http_serve.Chunker.Invariant.{HasRoom, WriterInv, Waits, LiveInv, StateInv, Inv, woken_up}

module _ {E : Type 0} where
  -- A flush under the lock while the queue is live. `dr` is whether the writer is dropped by it.
  pub flush-live :
      (queue : List Bytes) (bytes : ℕ) (d : Bool) (waker : Option ℕ) (buf : Bytes)
      (dr dropping : Bool) (w : Writer) (s : System E)
      → LiveInv queue bytes d waker (record s { writer = w })
      → WriterInv w
      → s.crashed ≡ false
      → w.buf ≡ buf
      → (w.buf ≢ []) ⊎ HasRoom w
      → dropping ≡ dr
      → Inv
          (record (after_call s (
            flush_state
              (live queue bytes d)
              buf
              dropping
              w
              (record { state = live queue bytes d; waker = waker }))) { dropped = dr })
  unfolding flush_state
  flush-live queue bytes d waker [] dr dropping w s i wi c e room same = record {
    writer_ok = wi;
    state_ok = (
      record {
        conserved = i.conserved;
        counted = i.counted;
        nonempty = i.nonempty;
        told = same;
        emptied = λ _. e;
        unbroken = i.unbroken;
        waits =
            subst (Waits queue dropping none) (sym (woken_up queue d waker s.asleep i.waits)) tt;
      },
      roomy room,
    );
    sound = ground arith;
  }
    where
      roomy : (w.buf ≢ []) ⊎ HasRoom w → HasRoom w
      roomy (inl ne) = absurd (ne e)
      roomy (inr h) = h
  flush-live queue bytes d waker (b ∷ buf) dr dropping w s i wi c e room same = record {
    writer_ok = record { positive = wi.positive; reserved = inl refl };
    state_ok = (
      record {
        conserved =
            i.conserved
            ∙ ap (λ x. s.delivered ++ x)
                (ap (λ x. concat queue ++ x) e
                  ∙ sym (
                      append-nil (concat (queue ++ (b ∷ buf) ∷ []))
                      ∙ concat-append queue (b ∷ buf)));
        counted = omega (arith, i.counted, total_length-append queue (b ∷ buf));
        nonempty = All-append _ queue ((b ∷ buf) ∷ []) i.nonempty ((λ x. cc), tt);
        told = same;
        emptied = λ _. refl;
        unbroken = i.unbroken;
        waits =
            subst (Waits (queue ++ (b ∷ buf) ∷ []) dropping none)
              (sym (woken_up queue d waker s.asleep i.waits)) tt;
      },
      inr (refl, refl),
    );
    sound = ground arith;
  }

  -- A flush when the queue is no longer live, by a writer that was not dropped before.
  flush-dead :
      (st : SharedState E) (waker : Option ℕ) (buf : Bytes) (dr dropping : Bool) (s : System E)
      → WriterInv s.writer
      → s.dropped ≡ false
      → s.crashed ≡ false
      → StateInv st waker s
      → ((queue : List Bytes) (bytes : ℕ) (d : Bool) → st ≢ live queue bytes d)
      → Inv
          (record (after_call s
            (flush_state st buf dropping s.writer (record { state = st; waker = waker }))) {
              dropped = dr;
            })
  unfolding flush_state
  flush-dead (live queue bytes d) waker buf dr dropping s w held c i dead =
      absurd (dead queue bytes d refl)
  flush-dead (failed e) waker [] dr dropping s w held c i dead = record {
    writer_ok = w;
    state_ok = i;
    sound = ground arith;
  }
  flush-dead (failed e) waker (b ∷ buf) dr dropping s w held c i dead = record {
    writer_ok = w;
    state_ok = i;
    sound = ground arith;
  }
  flush-dead reader_fused waker buf dr dropping s w held c (inr (_, gone), z) dead = cc
  flush-dead reader_fused waker [] dr dropping s w held c (inl a, z) dead = record {
    writer_ok = w;
    state_ok = (inl a, z);
    sound = ground arith;
  }
  flush-dead reader_fused waker (b ∷ buf) dr dropping s w held c (inl a, z) dead = record {
    writer_ok = w;
    state_ok = (inl a, z);
    sound = ground arith;
  }

  flush_state-Inv :
      (st : SharedState E) (waker : Option ℕ) (dr dropping : Bool) (s : System E)
      → WriterInv s.writer
      → s.dropped ≡ false
      → s.crashed ≡ false
      → StateInv st waker s
      → dropping ≡ dr
      → Inv
          (record (after_call s (
            flush_state st s.writer.buf dropping s.writer (record { state = st; waker = waker }))) {
              dropped = dr;
            })
  flush_state-Inv (live queue bytes d) waker dr dropping s w held c (i, room) same =
      flush-live queue bytes d waker s.writer.buf dr dropping s.writer s i w c refl (inr room) same
  flush_state-Inv (failed e) waker dr dropping s w held c i same =
      flush-dead (failed e) waker s.writer.buf dr dropping s w held c i (λ q b d x. cc)
  flush_state-Inv reader_fused waker dr dropping s w held c i same =
      flush-dead reader_fused waker s.writer.buf dr dropping s w held c i (λ q b d x. cc)

  -- The invariant does not depend on how the queue got there.
  with_shared-StateInv :
      (st : SharedState E) (waker : Option ℕ) (s : System E) (shared : Shared E) (crashed : Bool)
      → StateInv st waker s
      → StateInv st waker (record s { shared = shared; crashed = crashed })
  with_shared-StateInv (live queue bytes d) waker s shared crashed (i, room) = (
    record {
      conserved = i.conserved;
      counted = i.counted;
      nonempty = i.nonempty;
      told = i.told;
      emptied = i.emptied;
      unbroken = i.unbroken;
      waits = i.waits;
    },
    room,
  )
  with_shared-StateInv (failed e) waker s shared crashed i = i
  with_shared-StateInv reader_fused waker s shared crashed i = i

  -- A flush of a writer that was not dropped before, whatever the shared state is.
  pub flush_helper-Inv :
      (st : SharedState E) (waker : Option ℕ) (dr dropping : Bool) (s : System E)
      → WriterInv s.writer
      → s.dropped ≡ false
      → s.crashed ≡ false
      → StateInv st waker s
      → dropping ≡ dr
      → Inv
          (record (after_call s
            (flush_helper dropping s.writer (record { state = st; waker = waker }))) {
              dropped = dr;
            })
  unfolding flush_helper
  flush_helper-Inv st waker dr dropping s w held c i same =
      go (is_empty s.writer.buf && not dropping) refl
    where
      shared : Shared E
      shared = record { state = st; waker = waker }

      go :
          (b : Bool)
          → (is_empty s.writer.buf && not dropping) ≡ b
          → Inv
              (record (after_call s (
                if b
                then record { writer = s.writer; shared = shared; woken = none; result = done tt }
                else flush_state st s.writer.buf dropping s.writer shared)) { dropped = dr })
      go false e = flush_state-Inv st waker dr dropping s w held c i same
      go true e =
          let kept : s.dropped ≡ dr = ground arith in
          subst (λ x. Inv (record s { shared = shared; dropped = x; crashed = s.crashed || false }))
            kept
            (record {
              writer_ok = w;
              state_ok = with_shared-StateInv st waker s shared (s.crashed || false) i;
              sound = ground arith;
            })
