-- ===== src/Tests/Multipart.antt =====
-- src/serving.rs, `MultipartStream`
use http_serve.Base.{◌≡◌, ◌≢◌, ◌+◌, refl, none, some, [], ◌∷◌, arith, codes, Bytes, List, err, ℕ}
use http_serve.Range.{ByteRange}
use http_serve.Body.{ready}
use http_serve.Multipart.{MultipartStream, returns, panics, new, poll_next}
use http_serve.Multipart.Served.{Served, start, chunk, Served-exact, poll_next-after_error}
use http_serve.Tests.Body.{Script, script_api}

abbrev two_ranges : List ByteRange
two_ranges = record { start = 3; end = 4 } ∷ record { start = 7; end = 8 } ∷ []

abbrev two_headers : List Bytes
two_headers = codes "h" ∷ codes "i" ∷ []

abbrev first : MultipartStream Script
first = new two_headers two_ranges 13

abbrev last : MultipartStream Script
last = record {
  cur = none;
  state = 5;
  part_headers = [] ∷ [] ∷ [];
  ranges = two_ranges;
  remaining = 0;
}

first-Served : Served script_api first 13 last
unfolding poll_next new
first-Served = chunk _ (chunk _ (chunk _ (chunk _ (chunk _ start refl) refl) refl) refl) refl

Served-exact_example :
    (13 + last.remaining ≡ 13)
    × (poll_next script_api last ≢ panics)
    × ((m' : MultipartStream Script)
        → poll_next script_api last ≡ returns (ready none) m'
        → ◌≡◌ {A = ℕ} 13 13)
unfolding new
Served-exact_example =
    Served-exact script_api (λ v. refl) two_headers two_ranges 13 refl
      ((omega arith, omega arith), ((omega arith, omega arith), tt)) refl (omega arith) first-Served

-- the second part, whose stream ends a byte too early
abbrev cut : MultipartStream Script
cut = record last { cur = some (record { stream = []; remaining = 1 }); state = 3; remaining = 9 }

poll_next-after_error_example :
    (m' : MultipartStream Script) × (poll_next script_api cut ≡ returns (ready (some (err 1))) m')
    × (poll_next script_api m' ≡ panics)
poll_next-after_error_example =
    poll_next-after_error script_api cut (record { stream = []; remaining = 1 }) [] [] refl refl
      (omega arith) refl refl
