-- ===== src/Chunker/Calls.antt =====
-- Every call keeps the invariant, and so do any calls in any order.
use http_serve.Base.{
  ℕ, ◌≤◌, ◌<◌, ◌≡◌, ap, ◌≢◌, inl, inr, Bool, true, false, Option, List, arith, leb, ◌==◌, Bytes,
  length, refl, sym, [], ◌∷◌,
}
use http_serve.Chunker.{SharedState, live, failed, reader_fused, Writer, write, write_by, abort}
use http_serve.Chunker.System.{
  System, after_write, Event, writes, flushes, aborts, drops, polls, step, run, start, if_held,
}
use http_serve.Chunker.Invariant.{HasRoom, WriterInv, LiveInv, StateInv, Inv, poll-Inv, abort-Inv}
use http_serve.Chunker.Flushes.{flush_helper-Inv}
use http_serve.Chunker.Writes.{bare, fill-Inv}
use http_serve.Chunker.Dead.{fill-dead}

-- The invariant does not depend on the capacity.
with_capacity :
    {E : Type 0} {queue : List Bytes} {bytes : ℕ} {d : Bool} {waker : Option ℕ} {s : System E}
    {capacity : ℕ}
    → LiveInv queue bytes d waker s
    → LiveInv queue bytes d waker (record s { writer = record s.writer { capacity = capacity } })
with_capacity i = record {
  conserved = i.conserved;
  counted = i.counted;
  nonempty = i.nonempty;
  told = i.told;
  emptied = i.emptied;
  unbroken = i.unbroken;
  waits = i.waits;
}

if_held-Inv :
    {E : Type 0} (s next : System E) (b : Bool)
    → s.dropped ≡ b
    → Inv s
    → (s.dropped ≡ false → Inv next)
    → Inv (if_held b s next)
if_held-Inv s next true e inv h = inv
if_held-Inv s next false e inv h = h e

module _ (reserve : ℕ → ℕ) (enough : (n : ℕ) → n ≤ reserve n) where
  fresh : (w : Writer) → WriterInv w → HasRoom w → w.capacity ≡ 0 → length w.buf < reserve w.cap
  fresh w wi (inl h) e = absurd (omega arith)
  fresh w wi (inr (_, nothing)) e = omega (arith, enough w.cap, wi.positive, ap length nothing)

  -- `write` by a writer that was not dropped.
  write_by-live :
      {E : Type 0} (queue : List Bytes) (bytes : ℕ) (d : Bool) (waker : Option ℕ) (data_in : Bytes)
      (s : System E) (new big : Bool)
      → (s.writer.capacity == 0) ≡ new
      → leb s.writer.cap s.writer.capacity ≡ big
      → WriterInv s.writer
      → s.dropped ≡ false
      → s.crashed ≡ false
      → LiveInv queue bytes d waker s
      → HasRoom s.writer
      → Inv (
          after_write s data_in
            (write_by new big reserve s.writer (bare (live queue bytes d) waker) data_in))
  write_by-live queue bytes d waker data_in s true big e f wi held c i room =
      fill-Inv (live queue bytes d) waker data_in
        (record s.writer { capacity = reserve s.writer.cap }) s
        (record { positive = wi.positive; reserved = inr (enough s.writer.cap) })
        (fresh s.writer wi room (ground arith)) held c (with_capacity i)
  write_by-live queue bytes d waker data_in s false true e f wi held c i room =
      fill-Inv (live queue bytes d) waker data_in s.writer s wi (ground arith) held c i
  write_by-live queue bytes d waker data_in s false false e f wi held c i room =
      absurd (ground (arith, wi.reserved))

  write_by-dead :
      {E : Type 0} (st : SharedState E) (waker : Option ℕ) (data_in : Bytes) (s : System E)
      (new big : Bool)
      → (s.writer.capacity == 0) ≡ new
      → leb s.writer.cap s.writer.capacity ≡ big
      → WriterInv s.writer
      → s.dropped ≡ false
      → s.crashed ≡ false
      → StateInv st waker s
      → ((queue : List Bytes) (bytes : ℕ) (d : Bool) → st ≢ live queue bytes d)
      → Inv (after_write s data_in (write_by new big reserve s.writer (bare st waker) data_in))
  write_by-dead st waker data_in s true big e f wi held c i dead =
      fill-dead st waker data_in (record s.writer { capacity = reserve s.writer.cap }) s held
        (record { positive = wi.positive; reserved = inr (enough s.writer.cap) }) c i dead
  write_by-dead st waker data_in s false true e f wi held c i dead =
      fill-dead st waker data_in s.writer s held wi c i dead
  write_by-dead st waker data_in s false false e f wi held c i dead =
      absurd (ground (arith, wi.reserved))

  write-Inv :
      {E : Type 0} (st : SharedState E) (waker : Option ℕ) (data_in : Bytes) (s : System E)
      → WriterInv s.writer
      → s.dropped ≡ false
      → s.crashed ≡ false
      → StateInv st waker s
      → Inv (after_write s data_in (write reserve s.writer (bare st waker) data_in))
  unfolding write
  write-Inv (live queue bytes d) waker data_in s wi held c (i, room) =
      write_by-live queue bytes d waker data_in s _ _ refl refl wi held c i room
  write-Inv (failed e) waker data_in s wi held c i =
      write_by-dead (failed e) waker data_in s _ _ refl refl wi held c i (λ q b d x. cc)
  write-Inv reader_fused waker data_in s wi held c i =
      write_by-dead reader_fused waker data_in s _ _ refl refl wi held c i (λ q b d x. cc)

  -- One call, by the writer or by the reader, keeps the invariant.
  pub step-Inv : {E : Type 0} (s : System E) (e : Event E) → Inv s → Inv (step reserve s e)
  unfolding step abort
  step-Inv s (writes b) inv = if_held-Inv s _ s.dropped refl inv (λ held.
      write-Inv s.shared.state s.shared.waker b s inv.writer_ok held inv.sound inv.state_ok)
  step-Inv s flushes inv = if_held-Inv s _ s.dropped refl inv (λ held.
      flush_helper-Inv s.shared.state s.shared.waker s.dropped false s inv.writer_ok held inv.sound
        inv.state_ok (sym held))
  step-Inv s (aborts e) inv =
      if_held-Inv s _ s.dropped refl inv
        (λ held. abort-Inv s.shared.state s.shared.waker e s inv.writer_ok inv.sound inv.state_ok)
  step-Inv s drops inv = if_held-Inv s _ s.dropped refl inv (λ held.
      flush_helper-Inv s.shared.state s.shared.waker true true s inv.writer_ok held inv.sound
        inv.state_ok refl)
  step-Inv s (polls cx) inv =
      poll-Inv s.shared.state s.shared.waker cx s inv.writer_ok inv.sound inv.state_ok

  pub run-Inv : {E : Type 0} (es : List (Event E)) (s : System E) → Inv s → Inv (run reserve s es)
  unfolding run
  run-Inv [] s inv = inv
  run-Inv (e ∷ es) s inv = run-Inv es (step reserve s e) (step-Inv s e inv)

pub start-Inv : {E : Type 0} (cap : ℕ) → 0 < cap → Inv (start {E = E} cap)
unfolding start
start-Inv cap positive = record {
  writer_ok = record { positive = positive; reserved = inl refl };
  state_ok = (
    record {
      conserved = refl;
      counted = refl;
      nonempty = tt;
      told = refl;
      emptied = λ e. refl;
      unbroken = refl;
      waits = tt;
    },
    inr (refl, refl),
  );
  sound = refl;
}
