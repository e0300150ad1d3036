-- ===== src/Gzip/Progress.antt =====
-- A writer without compression takes a byte at least of each text, as long as its queue is live.
use http_serve.Base.{
  ℕ, ◌-◌, ◌≤◌, ◌<◌, ◌≡◌, refl, ap, subst, inl, inr, Bool, true, false, ◌&&◌, Option, none, [], ◌∷◌,
  ◌++◌, arith, leb, ◌==◌, if◌then◌else◌, Bytes, length, take,
}
use http_serve.Chunker.{
  with_chunk_size, SharedState, live, failed, reader_fused, Shared, Writer, Done, done, broken_pipe,
  panicked, Called, is_empty, flush_state, flush_helper, fill_by, fill, write_by, write, counted,
  flush,
}
use http_serve.Chunker.System.{flushes, after_call, System, writes, after_write, step, start}
use http_serve.Chunker.Invariant.{HasRoom, StateInv, Inv}
use http_serve.Chunker.Calls.{step-Inv, start-Inv}
use http_serve.Gzip.{Effect, to_list}
use http_serve.Gzip.Raw.{flush_helper-Succeeds, IsLive, write-Succeeds}

abbrev Progresses : Bytes → Done ℕ → Type 0
Progresses b r = (n : ℕ) × (r ≡ done n) × (0 < length b → 0 < n)

-- A new vector, or one with room behind its bytes.
room_by :
    (w : Writer) (new : Bool)
    → (w.capacity == 0) ≡ new
    → HasRoom w
    → (new ≡ false → length w.buf < w.capacity) × (new ≡ true → length w.buf ≡ 0)
room_by w new e (inl lt) = ((λ x. lt), λ x. absurd (ground arith))
room_by w new e (inr (none_yet, empty)) = ((λ x. absurd (ground arith)), λ x. ap length empty)

module _ {E : Type 0} where
  flush_state-done :
      (st : SharedState E) (buf : Bytes) (d : Bool) (w : Writer) (shared : Shared E)
      → IsLive st
      → (flush_state st buf d w shared).result ≡ done tt
  unfolding flush_state
  flush_state-done (live queue bytes dropped) [] d w shared h = refl
  flush_state-done (live queue bytes dropped) (c ∷ buf) d w shared h = refl
  flush_state-done (failed e) buf d w shared h = absurd h
  flush_state-done reader_fused buf d w shared h = absurd h

  flush-done :
      (w : Writer) (shared : Shared E) → IsLive shared.state → (flush w shared).result ≡ done tt
  unfolding flush_helper
  flush-done w shared h = go (is_empty w.buf && true)
    where
      go :
          (b : Bool)
          → (if b
              then record { writer = w; shared = shared; woken = none; result = done tt }
              else flush_state shared.state w.buf false w shared).result
            ≡ done tt
      go true = refl
      go false = flush_state-done shared.state w.buf false w shared h

  fill-Progresses :
      (w : Writer) (shared : Shared E) (b : Bytes)
      → IsLive shared.state
      → length w.buf < w.capacity
      → Progresses b (fill w shared b).result
  unfolding fill fill_by
  fill-Progresses w shared b h space = go (leb room (length b))
    where
      room : ℕ
      room = w.capacity - length w.buf

      go : (full : Bool) → Progresses b (fill_by full room w shared b).result
      go true =
          let next = record w { buf = w.buf ++ take room b } in
          (room, rw (flush-done next shared h) refl, (λ some_bytes. omega arith))
      go false = (length b, refl, (λ some_bytes. some_bytes))

  HasRoom-live :
      (st : SharedState E) (waker : Option ℕ) (s : System E)
      → IsLive st
      → StateInv st waker s
      → HasRoom s.writer
  HasRoom-live (live queue bytes d) waker s h (i, room) = room
  HasRoom-live (failed e) waker s h i = absurd h
  HasRoom-live reader_fused waker s h i = absurd h

  -- A writer that is at hand, of a body that was not aborted and is still read.
  pub record Open (s : System E) : Type 0 where
    pub inv : Inv s
    pub held : s.dropped ≡ false
    pub alive : IsLive s.shared.state
    pub whole : s.aborted ≡ false

  start-Open : (cap : ℕ) → 0 < cap → Open (start cap)
  unfolding start
  start-Open cap positive = record {
    inv = start-Inv cap positive;
    held = refl;
    alive = unfold http_serve.Chunker.with_chunk_size in tt;
    whole = refl;
  }

-- A call took the first bytes of a text, one at least unless the text is empty. `Taken` says of a writer, its queue and some
-- bytes that the writer was given these bytes, and that nobody polled or aborted the queue.
pub record Took {E A : Type 0} (Taken : A → Shared E → Bytes → Type 0) (plain b : Bytes)
    (o : A × Effect E ℕ) : Type 0 where
  pub count : ℕ
  pub positive : 0 < length b → 0 < count
  pub result_eq : o.1.result ≡ done count
  pub still : Taken o.0 o.1.shared (plain ++ take count b)

-- A call that takes no text, such as a flush.
pub record Kept {E A : Type 0} (Taken : A → Shared E → Bytes → Type 0) (plain : Bytes)
    (o : A × Effect E (Unit {0})) : Type 0 where
  pub result_eq : o.1.result ≡ done tt
  pub still : Taken o.0 o.1.shared plain

-- For a chunk writer: the bytes that were accepted.
pub record RawTaken {E : Type 0} (w : Writer) (shared : Shared E) (plain : Bytes) : Type 0 where
  pub system : System E
  pub open_ok : Open system
  pub writer_eq : w ≡ system.writer
  pub shared_eq : shared ≡ system.shared
  pub accepted_eq : system.accepted ≡ plain
  pub unread : system.delivered ≡ []

pub start-RawTaken :
    {E : Type 0} (cap : ℕ)
    → 0 < cap
    → RawTaken {E = E} (with_chunk_size {E = E} cap).0 (with_chunk_size cap).1 []
unfolding start
start-RawTaken cap positive = record {
  system = start cap;
  open_ok = start-Open cap positive;
  writer_eq = refl;
  shared_eq = refl;
  accepted_eq = refl;
  unread = refl;
}

abbrev pub as_effect : {E A : Type 0} → Called E A → Writer × Effect E A
as_effect c = (c.writer, record { shared = c.shared; woken = to_list c.woken; result = c.result })

module _ (reserve : ℕ → ℕ) (enough : (n : ℕ) → n ≤ reserve n) where
  write-Progresses :
      {E : Type 0} (s : System E) (b : Bytes)
      → Open s
      → Progresses b (write reserve s.writer s.shared b).result
  unfolding write
  write-Progresses s b o =
      go (s.writer.capacity == 0) (leb s.writer.cap s.writer.capacity) refl refl
    where
      go :
          (new big : Bool)
          → (s.writer.capacity == 0) ≡ new
          → leb s.writer.cap s.writer.capacity ≡ big
          → Progresses b (write_by new big reserve s.writer s.shared b).result
      go true big e f =
          let (_, empty) =
            room_by s.writer true e
              (HasRoom-live s.shared.state s.shared.waker s o.alive o.inv.state_ok) in
          fill-Progresses (record s.writer { capacity = reserve s.writer.cap }) s.shared b o.alive
            (omega (arith, empty refl, enough s.writer.cap, o.inv.writer_ok.positive))
      go false true e f =
          let (space, _) =
            room_by s.writer false e
              (HasRoom-live s.shared.state s.shared.waker s o.alive o.inv.state_ok) in
          fill-Progresses s.writer s.shared b o.alive (space refl)
      go false false e f = absurd (ground (arith, o.inv.writer_ok.reserved))

  pub write-Took :
      {E : Type 0} (w : Writer) (shared : Shared E) (plain b : Bytes)
      → RawTaken w shared plain
      → Took RawTaken plain b (as_effect (write reserve w shared b))
  write-Took {E = E} w shared plain b t =
      rw (t.writer_eq, t.shared_eq) (go t.system t.open_ok t.accepted_eq t.unread)
    where
      go :
          (s : System E)
          → Open s
          → s.accepted ≡ plain
          → s.delivered ≡ []
          → Took RawTaken plain b (as_effect (write reserve s.writer s.shared b))
      go s o same unread =
          let c = write reserve s.writer s.shared b in
          let (n, result, positive) = write-Progresses s b o in
          let (_, alive) = write-Succeeds reserve s.writer s.shared b o.alive in
          let next : step reserve s (writes b) ≡ after_write s b c =
            unfold step in rw o.held refl in
          record {
            count = n;
            positive = positive;
            result_eq = result;
            still = record {
              system = after_write s b c;
              open_ok = record {
                inv = subst Inv next (step-Inv reserve enough s (writes b) o.inv);
                held = o.held;
                alive = alive;
                whole = o.whole;
              };
              writer_eq = refl;
              shared_eq = refl;
              accepted_eq = rw (result, same) refl;
              unread = unread;
            };
          }

  pub flush-Kept :
      {E : Type 0} (w : Writer) (shared : Shared E) (plain : Bytes)
      → RawTaken w shared plain
      → Kept RawTaken plain (as_effect (flush w shared))
  flush-Kept {E = E} w shared plain t =
      rw (t.writer_eq, t.shared_eq) (go t.system t.open_ok t.accepted_eq t.unread)
    where
      go :
          (s : System E)
          → Open s
          → s.accepted ≡ plain
          → s.delivered ≡ []
          → Kept RawTaken plain (as_effect (flush s.writer s.shared))
      go s o same unread =
          let c = flush s.writer s.shared in
          let (_, alive) = flush_helper-Succeeds false s.writer s.shared o.alive in
          let next : step reserve s flushes ≡ after_call s c = unfold step in rw o.held refl in
          record {
            result_eq = flush-done s.writer s.shared o.alive;
            still = record {
              system = after_call s c;
              open_ok = record {
                inv = subst Inv next (step-Inv reserve enough s flushes o.inv);
                held = o.held;
                alive = alive;
                whole = o.whole;
              };
              writer_eq = refl;
              shared_eq = refl;
              accepted_eq = same;
              unread = unread;
            };
          }
