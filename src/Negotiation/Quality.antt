-- ===== src/Negotiation/Quality.antt =====
-- The range of a quality value.
use http_serve.Base.{
  ◌*◌, ◌%◌, ◌^◌, drop, ℕ, ◌+◌, ◌≤◌, ◌≡◌, refl, Option, none, some, [], ◌∷◌, arith, Bytes, u16_max,
  ◌*◌,
}
use http_serve.Std.Num.{read_digits, from_str, u16_from_str}
use http_serve.Negotiation.{scaled, thousandths, parse_qvalue}

-- Digits read behind a number add at most a nine each.
read_one-le : (c n v : ℕ) → read_digits u16_max (c ∷ []) n ≡ some v → v ≤ n * 10 + 9
unfolding read_digits
read_one-le c n v e = ground arith

read_two-le : (c d n v : ℕ) → read_digits u16_max (c ∷ d ∷ []) n ≡ some v → v ≤ n * 100 + 99
unfolding read_digits
read_two-le c d n v e = ground arith

read_three-le :
    (c d x n v : ℕ) → read_digits u16_max (c ∷ d ∷ x ∷ []) n ≡ some v → v ≤ n * 1000 + 999
unfolding read_digits
read_three-le c d x n v e = ground arith

one-le : (a v : ℕ) → u16_from_str (a ∷ []) ≡ some v → v ≤ 9
unfolding from_str
one-le a v e = ground (arith, read_one-le a 0 v)

two-le : (a b v : ℕ) → u16_from_str (a ∷ b ∷ []) ≡ some v → v ≤ 99
unfolding from_str
two-le a b v e = ground (arith, read_one-le b 0 v, read_two-le a b 0 v)

three-le : (a b c v : ℕ) → u16_from_str (a ∷ b ∷ c ∷ []) ≡ some v → v ≤ 999
unfolding from_str
three-le a b c v e = ground (arith, read_two-le b c 0 v, read_three-le a b c 0 v)

%-le : (n : ℕ) → n % 2 ^ 16 ≤ n
%-le n = omega arith

scaled-le :
    (o : Option ℕ) (m factor r q : ℕ)
    → ((v : ℕ) → o ≡ some v → v ≤ m)
    → ((v : ℕ) → v ≤ m → v * factor ≤ r)
    → scaled o factor ≡ some q
    → q ≤ r
scaled-le none m factor r q h fits e = cc
scaled-le (some v) m factor r q h fits e =
    let same : v * factor % 2 ^ 16 ≡ q = cc in
    let small = fits v (h v refl) in omega (arith, %-le (v * factor))

thousandths-le : (s : Bytes) (q : ℕ) → thousandths s ≡ some q → q ≤ 1000
thousandths-le [] q e = cc
thousandths-le (a ∷ []) q e =
    scaled-le (u16_from_str (a ∷ [])) 9 100 1000 q (one-le a) (λ v le. omega arith) e
thousandths-le (a ∷ b ∷ []) q e =
    scaled-le (u16_from_str (a ∷ b ∷ [])) 99 10 1000 q (two-le a b) (λ v le. omega arith) e
thousandths-le (a ∷ b ∷ c ∷ []) q e =
    scaled-le (u16_from_str (a ∷ b ∷ c ∷ [])) 999 1 1000 q (three-le a b c) (λ v le. omega arith) e
thousandths-le (a ∷ b ∷ c ∷ d ∷ s) q e = cc

-- Whatever the text is, a quality value that `parse_qvalue` accepts lies between 0 and 1000, so the
-- product of the digits and their factor does not overflow a `u16`.
pub parse_qvalue-le : (s : Bytes) (q : ℕ) → parse_qvalue s ≡ some q → q ≤ 1000
unfolding parse_qvalue
parse_qvalue-le s q e = ground (arith, thousandths-le (drop 2 s) q)
