-- ===== src/Body/Exact.antt =====
-- A stream of announced length ends well only if it has given that many bytes.
use http_serve.Base.{
  ℕ, zero, suc, ◌+◌, ◌≤◌, ◌≡◌, Bool, true, false, none, some, List, [], ◌∷◌, arith, ok, err, ◌||◌,
  ap,
}
use http_serve.Body.{ready, pending, Polled, StreamApi, ExactLenStream, on_poll, poll_exact}

module _ {D E S : Type 0} (api : StreamApi D E S) where
  open api use {poll_stream, data_len}

  -- The bytes that a poll gave, and whether it gave an error.
  abbrev pub given : Polled D E → ℕ
  given (ready (some (ok d))) = data_len d
  given _ = 0

  abbrev pub is_error : Polled D E → Bool
  is_error (ready (some (err e))) = true
  is_error _ = false

  -- What one poll does to the count of the bytes that are still to come.
  abbrev pub Counts : ℕ → Polled D E × ExactLenStream S → Type 0
  Counts before (p, after) =
      (given p + after.remaining ≤ before)
      × (is_error p ≡ false → given p + after.remaining ≡ before)
      × (p ≡ ready none → after.remaining ≡ 0)

  on_poll-Counts : (p : Polled D E) (s : ExactLenStream S) → Counts s.remaining (on_poll api p s)
  on_poll-Counts pending s = (omega arith, (λ e. omega arith), (λ e. cc))
  on_poll-Counts (ready none) s = ground arith
  on_poll-Counts (ready (some (err e))) s = (omega arith, (λ h. cc), (λ h. cc))
  on_poll-Counts (ready (some (ok d))) s = ground arith

  pub poll_exact-Counts : (s : ExactLenStream S) → Counts s.remaining (poll_exact api s)
  unfolding poll_exact
  poll_exact-Counts s =
      on_poll-Counts (poll_stream s.stream).0 (record s { stream = (poll_stream s.stream).1 })

  -- `n` polls in a row, and what each gave.
  unfoldable pub polls : ℕ → ExactLenStream S → List (Polled D E) × ExactLenStream S
  unfolding poll_exact
  polls zero s = ([], s)
  polls (suc n) s =
      let (p, next) = poll_exact api s in let (ps, last) = polls n next in (p ∷ ps, last)

  abbrev pub total : List (Polled D E) → ℕ
  total [] = 0
  total (p ∷ ps) = given p + total ps

  abbrev pub any_error : List (Polled D E) → Bool
  any_error [] = false
  any_error (p ∷ ps) = is_error p || any_error ps

  -- However its inner stream behaves, a body of announced length gives no more bytes than that in
  -- any number of polls, and without an error it has given exactly what `remaining` went down by.
  pub polls-Counts :
      (n : ℕ) (s : ExactLenStream S)
      → (total (polls n s).0 + (polls n s).1.remaining ≤ s.remaining)
        × (any_error (polls n s).0 ≡ false
            → total (polls n s).0 + (polls n s).1.remaining ≡ s.remaining)
  unfolding polls
  polls-Counts zero s = (omega arith, (λ e. omega arith))
  polls-Counts (suc n) s =
      let next = (poll_exact api s).1 in
      let one = poll_exact-Counts s in
      let rest = polls-Counts n next in (omega arith, (λ e. ground (arith, one.1, rest.1)))

  -- A body of announced length that ends without an error has given every announced byte.
  pub polls_complete :
      (n : ℕ) (s : ExactLenStream S)
      → any_error (polls n s).0 ≡ false
      → (poll_exact api (polls n s).1).0 ≡ ready none
      → total (polls n s).0 ≡ s.remaining
  polls_complete n s clean ended =
      let last = (polls n s).1 in
      let (_, exact) = polls-Counts n s in
      let (_, kept, at_end) = poll_exact-Counts last in
      omega (arith, exact clean, at_end ended, kept (ap is_error ended), ap given ended)
