-- ===== src/Tests/Body.antt =====
-- src/body.rs
use http_serve.Stream.{exact_len, poll_frame, size_hint}
use http_serve.Stream.Hint.{Keeps, poll_frame-Keeps}
use http_serve.Base.{
  ℕ, ◌≡◌, ◌-◌, zero, suc, refl, none, some, [], ◌∷◌, codes, Bytes, List, ok, err, length, suc, ◌-◌,
}
use http_serve.Body.{
  Polled, ready, pending, StreamApi, ExactLenStream, poll_exact, display_too_short,
  display_too_long,
}

-- A stream that gives what a list says, and then ends. An error is the number of bytes that it is
-- about.
abbrev pub Script : Type 0
Script = List (Polled Bytes ℕ)

abbrev pub next_polled : Script → Polled Bytes ℕ × Script
next_polled [] = (ready none, [])
next_polled (p ∷ ps) = (p, ps)

-- Each range's stream gives its bytes, all zero, in chunks of one.
abbrev pub zeros : ℕ → Script
zeros zero = []
zeros (suc n) = ready (some (ok (0 ∷ []))) ∷ zeros n

abbrev pub script_api : StreamApi Bytes ℕ Script
script_api = record {
  poll_stream = next_polled;
  data_len = length;
  from_vec = λ v. v;
  too_short = λ n. n;
  too_long = λ n. n;
  get_range = λ r. zeros (r.end - r.start);
}

abbrev five : ExactLenStream Script
five = record {
  stream = ready (some (ok (codes "abc"))) ∷ pending ∷ ready (some (ok (codes "de"))) ∷ [];
  remaining = 5;
}

-- a stream that gives a byte too few, and one that gives one too many
test_poll_exact :
    ((poll_exact script_api (record { stream = []; remaining = 1 })).0 ≡ ready (some (err 1)))
    × ((poll_exact script_api (record { stream = zeros 1; remaining = 0 })).0
        ≡ ready (some (err 1)))
unfolding poll_exact
test_poll_exact = (refl, refl)

poll_frame-Keeps_example : Keeps script_api (λ v. refl) 5 (poll_frame script_api (exact_len five) 0)
unfolding size_hint
poll_frame-Keeps_example = poll_frame-Keeps script_api (λ v. refl) (exact_len five) 0 tt

test_display_too_short : display_too_short 12 ≡ codes "stream ended with 12 bytes still expected"
unfolding display_too_short
test_display_too_short = refl

test_display_too_long :
    display_too_long 1 ≡ codes "stream returned (at least) 1 bytes more than expected"
unfolding display_too_long
test_display_too_long = refl
