-- ===== src/Chunker/System.antt =====
-- A writer and a reader that share a queue, and the order in which their calls take the lock.
use http_serve.Base.{
  ℕ, Bool, true, false, ◌||◌, Option, none, some, List, [], ◌∷◌, ◌++◌, ◌==◌, if◌then◌else◌, Bytes,
  ok, take,
}
use http_serve.Body.{ready, pending, Polled}
use http_serve.Chunker.{
  Shared, Writer, Done, done, broken_pipe, panicked, Called, with_chunk_size, poll_state, abort,
  flush, drop_writer, write,
}

-- The program's own state, and what was seen of it from outside: the bytes that `write` reported as
-- written and those that the reader got, whether the writer was dropped or aborted, the task that
-- was told to wait and was not woken since, and whether an assertion failed.
pub record System (E : Type 0) : Type 0 where
  pub writer : Writer
  pub shared : Shared E
  pub accepted : Bytes
  pub delivered : Bytes
  pub dropped : Bool
  pub aborted : Bool
  pub asleep : Option ℕ
  pub crashed : Bool

pub data Event (E : Type 0) : Type 0 where
  writes : Bytes → Event E
  flushes : Event E
  aborts : E → Event E
  drops : Event E
  polls : ℕ → Event E

-- What is left of the waiting task when a waker is called.
abbrev pub wake : Option ℕ → Option ℕ → Option ℕ
wake none asleep = asleep
wake (some w) none = none
wake (some w) (some t) = if w == t then none else some t

abbrev pub count : Done ℕ → ℕ
count (done n) = n
count broken_pipe = 0
count panicked = 0

abbrev pub has_panicked {ℓ} : {A : Type ℓ} → Done A → Bool
has_panicked panicked = true
has_panicked _ = false

module _ {E : Type 0} where
  abbrev pub after_call : {A : Type 0} → System E → Called E A → System E
  after_call s c = record s {
    writer = c.writer;
    shared = c.shared;
    asleep = wake c.woken s.asleep;
    crashed = s.crashed || has_panicked c.result;
  }

  abbrev pub after_write : System E → Bytes → Called E ℕ → System E
  after_write s data_in c = record (after_call s c) {
    accepted = s.accepted ++ take (count c.result) data_in;
  }

  abbrev pub after_poll : System E → ℕ → Polled Bytes E × Shared E → System E
  after_poll s cx (pending, shared) = record s { shared = shared; asleep = some cx }
  after_poll s cx (ready (some (ok c)), shared) = record s {
    shared = shared;
    asleep = none;
    delivered = s.delivered ++ c;
  }
  after_poll s cx (ready _, shared) = record s { shared = shared; asleep = none }

  -- A call on the writer, which nobody has once it is dropped.
  abbrev pub if_held : Bool → System E → System E → System E
  if_held true s next = s
  if_held false s next = next

  unfoldable pub step : (ℕ → ℕ) → System E → Event E → System E
  step reserve s (writes b) =
      if_held s.dropped s (after_write s b (write reserve s.writer s.shared b))
  step reserve s flushes = if_held s.dropped s (after_call s (flush s.writer s.shared))
  step reserve s (aborts e) =
      if_held s.dropped s (record (after_call s (abort s.writer s.shared e)) { aborted = true })
  step reserve s drops =
      if_held s.dropped s (record (after_call s (drop_writer s.writer s.shared)) { dropped = true })
  step reserve s (polls cx) = after_poll s cx (poll_state s.shared.state s.shared.waker cx)

  unfoldable pub start : ℕ → System E
  unfolding with_chunk_size
  start cap = record {
    writer = (with_chunk_size {E = E} cap).0;
    shared = (with_chunk_size cap).1;
    accepted = [];
    delivered = [];
    dropped = false;
    aborted = false;
    asleep = none;
    crashed = false;
  }

  unfoldable pub run : (ℕ → ℕ) → System E → List (Event E) → System E
  unfolding step
  run reserve s [] = s
  run reserve s (e ∷ es) = run reserve (step reserve s e) es
