-- ===== src/Chunker.antt =====
-- src/chunker.rs: the writer and the reader of a streamed body, and the queue that they share. Each
-- operation holds the lock while it reads and writes the shared state, so it is one function on it.
pub mod System
pub mod Invariant
pub mod Flushes
pub mod Writes
pub mod Dead
pub mod Calls
pub mod Delivery
pub mod Finishes
pub mod Closed
use http_serve.Base.{
  ℕ, ◌-◌, Bool, true, false, not, ◌&&◌, ◌||◌, Option, none, some, List, [], ◌∷◌, ◌++◌, leb, ◌==◌,
  if◌then◌else◌, Bytes, ok, err, length, take, ◌+◌,
}
use http_serve.Body.{ready, pending, Polled}

-- `SharedState::Ok` is `live`, with `ready`, `ready_bytes` and `writer_dropped`. The bytes counted
-- are those of vectors in memory, so the count does not wrap.
pub data SharedState (E : Type 0) : Type 0 where
  live : List Bytes → ℕ → Bool → SharedState E
  failed : E → SharedState E
  reader_fused : SharedState E

-- A `Waker` is the number of the task that it wakes.
pub record Shared (E : Type 0) : Type 0 where
  pub state : SharedState E
  pub waker : Option ℕ

-- `capacity` is the capacity of the vector `buf`.
pub record Writer : Type 0 where
  pub buf : Bytes
  pub capacity : ℕ
  pub cap : ℕ

-- `http_body::SizeHint`
pub record SizeHint : Type 0 where
  pub lower : ℕ
  pub upper : Option ℕ

-- The outcome of a call on the writer: `io::Result`, or a failed assertion.
pub data Done {ℓ} (A : Type ℓ) : Type ℓ where
  done : A → Done A
  broken_pipe : Done A
  panicked : Done A

-- The states that a call leaves behind, the task that it wakes and its result.
pub record Called (E A : Type 0) : Type 0 where
  pub writer : Writer
  pub shared : Shared E
  pub woken : Option ℕ
  pub result : Done A

abbrev pub is_empty : Bytes → Bool
is_empty [] = true
is_empty (c ∷ s) = false

-- The waker that a poll by task `cx` leaves.
abbrev pub register : Option ℕ → ℕ → Option ℕ
register none cx = some cx
register (some w) cx = if w == cx then some w else some cx

abbrev pub is_nil : List Bytes → Bool
is_nil [] = true
is_nil (c ∷ q) = false

-- `self.flush()?; Ok(bytes)`
abbrev pub with_count : Done (Unit {0}) → ℕ → Done ℕ
with_count (done _) bytes = done bytes
with_count broken_pipe bytes = broken_pipe
with_count panicked bytes = panicked

module _ {E : Type 0} where
  -- `with_chunk_size`, behind its assertion that `cap` is positive
  unfoldable pub with_chunk_size : ℕ → Writer × Shared E
  with_chunk_size cap = (
    record { buf = []; capacity = 0; cap = cap },
    record { state = live [] 0 false; waker = none },
  )

  -- `size_hint` and `is_end_stream` of the reader
  unfoldable pub size_hint : SharedState E → SizeHint
  size_hint (live queue bytes dropped) = record {
    lower = bytes;
    upper = if dropped then some bytes else none;
  }
  size_hint (failed e) = record { lower = 0; upper = none }
  size_hint reader_fused = record { lower = 0; upper = none }

  unfoldable pub is_end_stream : SharedState E → Bool
  is_end_stream (live queue bytes dropped) = bytes == 0 && dropped
  is_end_stream (failed e) = false
  is_end_stream reader_fused = true

  -- `Reader::poll_next`; the state is `ReaderFused` unless it is put back.
  unfoldable pub poll_state : SharedState E → Option ℕ → ℕ → Polled Bytes E × Shared E
  poll_state (live (c ∷ queue) bytes dropped) waker cx = (
    ready (some (ok c)),
    record {
      state =
          if not (is_nil queue) || not dropped
          then live queue (bytes - length c) dropped
          else reader_fused;
      waker = waker;
    },
  )
  poll_state (live [] bytes dropped) waker cx =
      if not dropped
      then (pending, record { state = live [] bytes dropped; waker = register waker cx })
      else (ready none, record { state = reader_fused; waker = waker })
  poll_state (failed e) waker cx =
      (ready (some (err e)), record { state = reader_fused; waker = waker })
  poll_state reader_fused waker cx = (ready none, record { state = reader_fused; waker = waker })

  abbrev pub poll_next : Shared E → ℕ → Polled Bytes E × Shared E
  poll_next shared cx = poll_state shared.state shared.waker cx

  unfoldable pub abort_state : SharedState E → Option ℕ → E → Shared E × Option ℕ
  abort_state (live queue bytes dropped) waker error =
      (record { state = failed error; waker = none }, waker)
  abort_state (failed e) waker error = (record { state = failed e; waker = waker }, none)
  abort_state reader_fused waker error = (record { state = reader_fused; waker = waker }, none)

  -- `Writer::abort`
  unfoldable pub abort : Writer → Shared E → E → Called E (Unit {0})
  unfolding abort_state
  abort w shared error =
      let (after, woken) = abort_state shared.state shared.waker error in
      record { writer = w; shared = after; woken = woken; result = done tt }

  -- the part of `flush_helper` under the lock, on the bytes in `buf`
  unfoldable pub flush_state :
      SharedState E → Bytes → Bool → Writer → Shared E → Called E (Unit {0})
  flush_state (live queue bytes dropped) [] dropping w shared = record {
    writer = w;
    shared = record { state = live queue bytes dropping; waker = none };
    woken = shared.waker;
    result = done tt;
  }
  flush_state (live queue bytes dropped) (c ∷ buf) dropping w shared = record {
    writer = record w { buf = []; capacity = 0 };
    shared = record {
      state = live (queue ++ (c ∷ buf) ∷ []) (bytes + length (c ∷ buf)) dropping;
      waker = none;
    };
    woken = shared.waker;
    result = done tt;
  }
  flush_state state [] dropping w shared = record {
    writer = w;
    shared = shared;
    woken = none;
    result = done tt;
  }
  flush_state state (c ∷ buf) dropping w shared = record {
    writer = w;
    shared = shared;
    woken = none;
    result = broken_pipe;
  }

  unfoldable pub flush_helper : Bool → Writer → Shared E → Called E (Unit {0})
  unfolding flush_state
  flush_helper dropping w shared =
      if is_empty w.buf && not dropping
      then record { writer = w; shared = shared; woken = none; result = done tt }
      else flush_state shared.state w.buf dropping w shared

  -- `Write::flush` and `Drop::drop`
  abbrev pub flush : Writer → Shared E → Called E (Unit {0})
  flush = flush_helper false

  abbrev pub drop_writer : Writer → Shared E → Called E (Unit {0})
  drop_writer = flush_helper true

  abbrev pub counted : Called E (Unit {0}) → ℕ → Called E ℕ
  counted c bytes = record {
    writer = c.writer;
    shared = c.shared;
    woken = c.woken;
    result = with_count c.result bytes;
  }

  -- `write` once `buf` has its capacity, of which `remaining` is left
  unfoldable pub fill_by : Bool → ℕ → Writer → Shared E → Bytes → Called E ℕ
  unfolding flush_helper
  fill_by full remaining w shared data_in =
      let bytes = if full then remaining else length data_in in
      let filled = record w { buf = w.buf ++ take bytes data_in } in
      if full
      then counted (flush filled shared) bytes
      else record { writer = filled; shared = shared; woken = none; result = done bytes }

  unfoldable pub fill : Writer → Shared E → Bytes → Called E ℕ
  unfolding fill_by
  fill w shared data_in =
      let remaining = w.capacity - length w.buf in
      fill_by (leb remaining (length data_in)) remaining w shared data_in

  -- `write`: whether `buf` has no capacity yet, and else whether it has enough
  abbrev pub write_by : Bool → Bool → (ℕ → ℕ) → Writer → Shared E → Bytes → Called E ℕ
  write_by true enough reserve w shared data_in =
      fill (record w { capacity = reserve w.cap }) shared data_in
  write_by false true reserve w shared data_in = fill w shared data_in
  write_by false false reserve w shared data_in = record {
    writer = w;
    shared = shared;
    woken = none;
    result = panicked;
  }

  -- `Write::write`. The capacity after `reserve_exact(n)` is `reserve n`.
  unfoldable pub write : (ℕ → ℕ) → Writer → Shared E → Bytes → Called E ℕ
  unfolding fill
  write reserve w shared data_in =
      write_by (w.capacity == 0) (leb w.cap w.capacity) reserve w shared data_in
