-- ===== src/Gzip/Raw.antt =====
-- A writer without compression does what the chunk writer does.
use http_serve.Base.{
  ℕ, ◌-◌, ◌≤◌, ◌<◌, ◌≡◌, refl, sym, ap, ◌∙◌, Bool, true, false, not, ◌&&◌, ◌||◌, if◌then◌else◌,
  none, List, [], ◌∷◌, ◌++◌, Bytes, All, length, take, leb, ◌==◌,
}
use http_serve.Chunker.{
  SharedState, live, failed, reader_fused, Shared, Writer, Done, done, broken_pipe, panicked,
  Called, with_chunk_size, is_empty, flush_state, flush_helper, fill_by, fill, write_by, write,
  counted, with_count, flush, drop_writer,
}
use http_serve.Chunker.System.{
  after_write, after_call, if_held, System, Event, step, run, start, has_panicked,
}
use http_serve.Chunker.Invariant.{Inv}
use http_serve.Chunker.Calls.{step-Inv, start-Inv}
use http_serve.Gzip.{Encoder, Inner, raw, drop_inner, settle, write_body, flush_body, to_list}
use http_serve.Gzip.Aborted.{Operation, writes, flushes, aborts, operate, operate_all, state_after}

abbrev pub NoPipe : {A : Type 0} → Done A → Type 0
NoPipe broken_pipe = ⊥
NoPipe _ = Unit

module _ {E : Type 0} where
  abbrev pub IsLive : SharedState E → Type 0
  IsLive (live queue bytes dropped) = Unit
  IsLive _ = ⊥

  -- The call did not fail, unless by a panic, and the queue stays.
  abbrev pub Succeeds : {A : Type 0} → Called E A → Type 0
  Succeeds c = NoPipe c.result × IsLive c.shared.state

  flush_state-Succeeds :
      (st : SharedState E) (buf : Bytes) (d : Bool) (w : Writer) (shared : Shared E)
      → IsLive st
      → Succeeds (flush_state st buf d w shared)
  unfolding flush_state
  flush_state-Succeeds (live queue bytes dropped) [] d w shared h = (tt, tt)
  flush_state-Succeeds (live queue bytes dropped) (c ∷ buf) d w shared h = (tt, tt)
  flush_state-Succeeds (failed e) buf d w shared h = absurd h
  flush_state-Succeeds reader_fused buf d w shared h = absurd h

  pub flush_helper-Succeeds :
      (d : Bool) (w : Writer) (shared : Shared E)
      → IsLive shared.state
      → Succeeds (flush_helper d w shared)
  unfolding flush_helper
  flush_helper-Succeeds d w shared h = go (is_empty w.buf && not d)
    where
      go :
          (b : Bool)
          → Succeeds (
              if b
              then record { writer = w; shared = shared; woken = none; result = done tt }
              else flush_state shared.state w.buf d w shared)
      go true = (tt, h)
      go false = flush_state-Succeeds shared.state w.buf d w shared h

  counted-Succeeds : (c : Called E (Unit {0})) (n : ℕ) → Succeeds c → Succeeds (counted c n)
  counted-Succeeds c n (fine, h) = (go c.result fine, h)
    where
      go : (r : Done (Unit {0})) → NoPipe r → NoPipe (with_count r n)
      go (done u) h = tt
      go broken_pipe h = h
      go panicked h = tt

  fill-Succeeds :
      (w : Writer) (shared : Shared E) (b : Bytes)
      → IsLive shared.state
      → Succeeds (fill w shared b)
  unfolding fill fill_by
  fill-Succeeds w shared b h = go (leb (w.capacity - length w.buf) (length b))
    where
      go : (full : Bool) → Succeeds (fill_by full (w.capacity - length w.buf) w shared b)
      go true =
          let next = record w { buf = w.buf ++ take (w.capacity - length w.buf) b } in
          counted-Succeeds (flush_helper false next shared) (w.capacity - length w.buf)
            (flush_helper-Succeeds false next shared h)
      go false = (tt, h)

  pub write-Succeeds :
      (reserve : ℕ → ℕ) (w : Writer) (shared : Shared E) (b : Bytes)
      → IsLive shared.state
      → Succeeds (write reserve w shared b)
  unfolding write
  write-Succeeds reserve w shared b h = go (w.capacity == 0) (leb w.cap w.capacity)
    where
      go : (new enough : Bool) → Succeeds (write_by new enough reserve w shared b)
      go true enough = fill-Succeeds (record w { capacity = reserve w.cap }) shared b h
      go false true = fill-Succeeds w shared b h
      go false false = (tt, h)

module _ {E G : Type 0} (encoder : Encoder E G) (reserve : ℕ → ℕ)
    (enough : (n : ℕ) → n ≤ reserve n) where
  -- Calls but `abort`, as the chunk writer has them.
  abbrev pub IsPlain : Operation E → Type 0
  IsPlain (writes b) = Unit
  IsPlain flushes = Unit
  IsPlain (aborts e) = ⊥

  abbrev pub event_of : Operation E → Event E
  event_of (writes b) = http_serve.Chunker.System.writes b
  event_of flushes = http_serve.Chunker.System.flushes
  event_of (aborts e) = http_serve.Chunker.System.aborts e

  -- these calls, and then the drop of the writer
  abbrev pub events_of : List (Operation E) → List (Event E)
  events_of [] = http_serve.Chunker.System.drops ∷ []
  events_of (o ∷ os) = event_of o ∷ events_of os

  abbrev raw_of : System E → Inner G × Shared E
  raw_of s = (raw s.writer, s.shared)

  settle-fine :
      {A : Type 0} (w : Writer) (shared : Shared E) (woken : List ℕ) (r : Done A)
      → NoPipe r
      → has_panicked r ≡ false
      → state_after encoder (settle encoder r (raw w) shared woken) ≡ (raw w, shared)
  settle-fine w shared woken (done a) fine sound = refl
  settle-fine w shared woken broken_pipe fine sound = absurd fine
  settle-fine w shared woken panicked fine sound = cc

  no_panic :
      (d a b : Bool) (s next : System E)
      → d ≡ false
      → next.crashed ≡ (a || b)
      → (if_held d s next).crashed ≡ false
      → b ≡ false
  no_panic true a b s next held same sound = cc
  no_panic false true b s next held same sound = cc
  no_panic false false b s next held same sound = sym same ∙ sound

  -- the state that the call leaves
  abbrev Follows : System E → Operation E → System E → Type 0
  Follows s o t =
      (operate encoder reserve o (raw_of s) ≡ raw_of t)
      × (t.dropped ≡ false)
      × IsLive t.shared.state

  held-Follows :
      (d : Bool) (s next : System E) (o : Operation E)
      → d ≡ false
      → Follows s o next
      → Follows s o (if_held d s next)
  held-Follows true s next o held f = cc
  held-Follows false s next o held f = f

  operate-step :
      (s : System E) (o : Operation E)
      → IsPlain o
      → Inv s
      → s.dropped ≡ false
      → IsLive s.shared.state
      → Follows s o (step reserve s (event_of o))
  unfolding step write_body flush_body
  operate-step s (aborts e) plain inv held h = absurd plain
  operate-step s (writes b) plain inv held h =
      let c = write reserve s.writer s.shared b in
      let (fine, alive) = write-Succeeds reserve s.writer s.shared b h in
      let sound =
        no_panic s.dropped s.crashed (has_panicked c.result) s (after_write s b c) held refl
          (step-Inv reserve enough s (event_of (writes b)) inv).sound in
      held-Follows s.dropped s (after_write s b c) (writes b) held
        (settle-fine c.writer c.shared (to_list c.woken) c.result fine sound, held, alive)
  operate-step s flushes plain inv held h =
      let c = flush s.writer s.shared in
      let (fine, alive) = flush_helper-Succeeds false s.writer s.shared h in
      let sound =
        no_panic s.dropped s.crashed (has_panicked c.result) s (after_call s c) held refl
          (step-Inv reserve enough s (event_of flushes) inv).sound in
      held-Follows s.dropped s (after_call s c) flushes held
        (settle-fine c.writer c.shared (to_list c.woken) c.result fine sound, held, alive)

  operate_all-run :
      (os : List (Operation E)) (s : System E)
      → All IsPlain os
      → Inv s
      → s.dropped ≡ false
      → IsLive s.shared.state
      → (drop_inner encoder
          (operate_all encoder reserve os (raw_of s)).0
          (operate_all encoder reserve os (raw_of s)).1).0
        ≡ (run reserve s (events_of os)).shared
  unfolding operate_all run step
  operate_all-run [] s plain inv held h = ended s.dropped held
    where
      ended :
          (d : Bool)
          → d ≡ false
          → (drop_inner encoder (raw s.writer) s.shared).0
            ≡ (if_held d s
                (record (after_call s (drop_writer s.writer s.shared)) { dropped = true })).shared
      ended true e = cc
      ended false e = unfold drop_inner in refl
  operate_all-run (o ∷ os) s plain inv held h =
      let next = step reserve s (event_of o) in
      let (same, held', h') = operate-step s o plain.0 inv held h in
      ap
        (λ b.
          (drop_inner encoder (operate_all encoder reserve os b).0
            (operate_all encoder reserve os b).1).0)
        same
      ∙ operate_all-run os next plain.1 (step-Inv reserve enough s (event_of o) inv) held' h'

  -- With a chunk writer of any size but 0: after any writes and flushes of a writer without
  -- compression, and its drop, the queue is the one that the chunk writer leaves behind after the same
  -- calls.
  pub operate_all-run_start :
      (cap : ℕ) (os : List (Operation E))
      → 0 < cap
      → All IsPlain os
      → (drop_inner encoder
          (operate_all encoder reserve os
            (raw (with_chunk_size {E = E} cap).0, (with_chunk_size cap).1)).0
          (operate_all encoder reserve os
            (raw (with_chunk_size {E = E} cap).0, (with_chunk_size cap).1)).1).0
        ≡ (run reserve (start cap) (events_of os)).shared
  unfolding start
  operate_all-run_start cap os positive plain =
      operate_all-run os (start cap) plain (start-Inv cap positive) refl
        (unfold with_chunk_size in tt)
