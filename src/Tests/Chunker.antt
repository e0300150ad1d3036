-- ===== src/Tests/Chunker.antt =====
-- src/chunker.rs
use http_serve.Base.{
  ℕ, ◌≡◌, ◌↔◌, ◌++◌, refl, none, some, [], ◌∷◌, arith, codes, Bytes, List, false, true,
}
use http_serve.Body.{ready, pending}
use http_serve.Chunker.{poll_state, is_end_stream, write}
use http_serve.Chunker.System.{System, Event, writes, drops, polls, run, start}
use http_serve.Chunker.Finishes.{polls_on, Finished, run_finishes}
use http_serve.Chunker.Delivery.{run_delivers, run_wakes, is_end_stream_iff}

-- A vector that reserves exactly what it was asked for.
abbrev exact : ℕ → ℕ
exact n = n

-- Two writes in chunks of two bytes, and a reader that has to wait once and gets one chunk.
abbrev events : List (Event ℕ)
events = polls 7 ∷ writes (codes "hel") ∷ writes (codes "lo") ∷ polls 7 ∷ []

abbrev seen : List (Event ℕ) → System ℕ
seen es = run exact (start 2) es

test_run :
    ((seen events).accepted ≡ codes "helo")
    × ((seen events).delivered ≡ codes "he")
    × ((seen (polls 7 ∷ [])).asleep ≡ some 7)
    × ((seen (polls 7 ∷ writes (codes "hel") ∷ [])).asleep ≡ none)
    × ((seen (writes (codes "a") ∷ drops ∷ polls 0 ∷ polls 0 ∷ [])).delivered ≡ codes "a")
unfolding run start poll_state write
test_run = (refl, refl, refl, refl, refl)

run_delivers_example :
    ((rest : Bytes) × ((seen events).accepted ≡ (seen events).delivered ++ rest))
    × ((poll_state (seen events).shared.state (seen events).shared.waker 7).0 ≡ ready none
        → ((seen events).accepted ≡ (seen events).delivered) × ((seen events).dropped ≡ true))
unfolding run start poll_state write
run_delivers_example = run_delivers exact (λ n. omega arith) 2 events 7 (omega arith) refl

run_wakes_example :
    ((seen (polls 7 ∷ [])).asleep ≡ some 7
      → ((poll_state (seen (polls 7 ∷ [])).shared.state (seen (polls 7 ∷ [])).shared.waker 8).0
          ≡ pending)
        × ((seen (polls 7 ∷ [])).shared.waker ≡ some 7))
    × ((seen (polls 7 ∷ [])).crashed ≡ false)
run_wakes_example = run_wakes exact (λ n. omega arith) 2 (polls 7 ∷ []) 8 7 (omega arith)

is_end_stream_iff_example : (is_end_stream (seen (drops ∷ [])).shared.state ≡ true) ↔ (
    (poll_state (seen (drops ∷ [])).shared.state (seen (drops ∷ [])).shared.waker 3).0 ≡ ready none)
is_end_stream_iff_example =
    is_end_stream_iff exact (λ n. omega arith) 2 (drops ∷ []) 3 (omega arith)

-- The same writes, and the writer is dropped.
abbrev dropped_events : List (Event ℕ)
dropped_events = polls 7 ∷ writes (codes "hel") ∷ writes (codes "lo") ∷ drops ∷ []

run_finishes_example :
    Finished exact
      (λ n. omega arith)
      7
      (seen dropped_events)
      (run exact (seen dropped_events) (polls_on 5 7))
unfolding run start poll_state write
run_finishes_example =
    run_finishes exact (λ n. omega arith) 7 2 dropped_events 5 (omega arith) refl refl (omega arith)
