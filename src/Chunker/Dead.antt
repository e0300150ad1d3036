-- ===== src/Chunker/Dead.antt =====
-- `write` when the queue is no longer live: the bytes go nowhere, and the invariant is kept.
use http_serve.Base.{
  ℕ, ◌-◌, ◌≡◌, refl, ◌≢◌, inl, inr, Bool, true, false, ◌&&◌, ◌||◌, Option, none, List, ◌++◌, arith,
  leb, if◌then◌else◌, Bytes, length, take,
}
use http_serve.Chunker.{
  SharedState, live, failed, reader_fused, Writer, done, flush_state, flush_helper, fill, fill_by,
  is_empty, counted,
}
use http_serve.Chunker.System.{System, after_write}
use http_serve.Chunker.Invariant.{WriterInv, StateInv, Inv}
use http_serve.Chunker.Writes.{filled, bare, write-dead-full}

module _ {E : Type 0} where
  dead-Inv :
      (st : SharedState E) (waker : Option ℕ) (w : Writer) (accepted : Bytes) (s : System E)
      → s.dropped ≡ false
      → WriterInv w
      → s.crashed ≡ false
      → StateInv st waker s
      → ((queue : List Bytes) (bytes : ℕ) (d : Bool) → st ≢ live queue bytes d)
      → Inv (record s {
        writer = w;
        shared = bare st waker;
        accepted = accepted;
        crashed = s.crashed || false;
      })
  dead-Inv (live queue bytes d) waker w accepted s held wi c i dead =
      absurd (dead queue bytes d refl)
  dead-Inv (failed e) waker w accepted s held wi c i dead = record {
    writer_ok = wi;
    state_ok = i;
    sound = ground arith;
  }
  dead-Inv reader_fused waker w accepted s held wi c (inr (_, gone), z) dead = cc
  dead-Inv reader_fused waker w accepted s held wi c (inl a, z) dead = record {
    writer_ok = wi;
    state_ok = (inl a, z);
    sound = ground arith;
  }

  -- A full buffer is flushed, if it is not empty.
  flushed-dead :
      (st : SharedState E) (waker : Option ℕ) (buf data_in : Bytes) (n : ℕ) (w : Writer)
      (s : System E)
      → s.dropped ≡ false
      → WriterInv w
      → s.crashed ≡ false
      → StateInv st waker s
      → ((queue : List Bytes) (bytes : ℕ) (d : Bool) → st ≢ live queue bytes d)
      → (empty : Bool)
      → Inv (
          after_write s data_in (
            counted
              (if empty && true
                then record { writer = w; shared = bare st waker; woken = none; result = done tt }
                else flush_state st buf false w (bare st waker))
              n))
  flushed-dead st waker buf data_in n w s held wi c i dead true =
      dead-Inv st waker w (s.accepted ++ take n data_in) s held wi c i dead
  flushed-dead (live queue bytes d) waker buf data_in n w s held wi c i dead false =
      absurd (dead queue bytes d refl)
  flushed-dead (failed e) waker buf data_in n w s held wi c i dead false =
      write-dead-full (failed e) waker n data_in buf w s held wi c i dead
  flushed-dead reader_fused waker buf data_in n w s held wi c i dead false =
      write-dead-full reader_fused waker n data_in buf w s held wi c i dead

  pub fill-dead :
      (st : SharedState E) (waker : Option ℕ) (data_in : Bytes) (w : Writer) (s : System E)
      → s.dropped ≡ false
      → WriterInv w
      → s.crashed ≡ false
      → StateInv st waker s
      → ((queue : List Bytes) (bytes : ℕ) (d : Bool) → st ≢ live queue bytes d)
      → Inv (after_write s data_in (fill w (bare st waker) data_in))
  unfolding fill flush_helper
  fill-dead st waker data_in w s held wi c i dead = go (leb room (length data_in))
    where
      room : ℕ
      room = w.capacity - length w.buf

      go : (full : Bool) → Inv (after_write s data_in (fill_by full room w (bare st waker) data_in))
      go true =
          let w' = filled w (take room data_in) in
          flushed-dead st waker w'.buf data_in room w' s held
            (record { positive = wi.positive; reserved = wi.reserved }) c i dead (is_empty w'.buf)
      go false =
          dead-Inv st waker (filled w (take (length data_in) data_in))
            (s.accepted ++ take (length data_in) data_in) s held
            (record { positive = wi.positive; reserved = wi.reserved }) c i dead
