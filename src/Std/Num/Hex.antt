-- ===== src/Std/Num/Hex.antt =====
-- Numbers in hexadecimal are told apart by their text.
use native.Mathlib.Nat.{pow-suc}
use http_serve.Base.{
  ℕ, zero, suc, ◌+◌, ◌-◌, ◌*◌, ◌/◌, ◌%◌, ◌^◌, ◌<◌, [], ◌∷◌, ◌++◌, ◌≡◌, refl, arith, Bytes, ltb, leb,
  Bool, true, false, ◌&&◌, ◌||◌, if◌then◌else◌, append_assoc, Bool-cases, inl, inr, ap, subst, sym,
  ◌∙◌,
}
use http_serve.Std.Num.{digit, digits, fmt_hex}

abbrev pub is_hex : ℕ → Bool
is_hex c = (leb b'0' c && leb c b'9') || (leb b'a' c && leb c b'f')

abbrev hex_value : ℕ → ℕ
hex_value c = if leb c b'9' then c - b'0' else c - 87

-- The number that a text starts with, behind the digits read so far, and the rest of the text.
read_hex : Bytes → ℕ → ℕ × Bytes
read_hex [] n = (n, [])
read_hex (c ∷ s) n = if is_hex c then read_hex s (n * 16 + hex_value c) else (n, c ∷ s)

read_hex-digit :
    (n : ℕ) (rest : Bytes) → read_hex (digit (n % 16) ∷ rest) (n / 16) ≡ read_hex rest n
unfolding read_hex
read_hex-digit n rest =
    let hex : is_hex (digit (n % 16)) ≡ true = ground arith in
    let value : n / 16 * 16 + hex_value (digit (n % 16)) ≡ n = ground arith in rw (hex, value) refl

read_hex-one : (n : ℕ) (rest : Bytes) → n < 16 → read_hex (digit n ∷ rest) 0 ≡ read_hex rest n
read_hex-one n rest small =
    let low : n % 16 ≡ n = omega arith in
    let high : n / 16 ≡ 0 = omega arith in
    subst (λ q. read_hex (digit n ∷ rest) q ≡ read_hex rest n) high
      (subst (λ r. read_hex (digit r ∷ rest) (n / 16) ≡ read_hex rest n) low
        (read_hex-digit n rest))

read_hex-digits :
    (fuel n : ℕ) (rest : Bytes)
    → n < 16 ^ suc fuel
    → read_hex (digits 16 (suc fuel) n ++ rest) 0 ≡ read_hex rest n
read_hex-digits zero n rest small =
    let one : ltb n 16 ≡ true = ground arith in unfold digits in rw one (read_hex-one n rest small)
read_hex-digits (suc f) n rest small = elim (Bool-cases (ltb n 16)) [
  | inl one ↦ unfold digits in rw one (read_hex-one n rest (ground arith))
  | inr more ↦
      let front = digits 16 (suc f) (n / 16) in
      let split : digits 16 (suc (suc f)) n ++ rest ≡ front ++ digit (n % 16) ∷ rest =
        unfold digits in rw (more, append_assoc) in
      rw split (
        read_hex-digits f (n / 16) (digit (n % 16) ∷ rest) (omega (arith, pow-suc 16 (suc f)))
        ∙ read_hex-digit n rest)
]

read_hex-fmt_hex :
    (n c : ℕ) (rest : Bytes)
    → n < 16 ^ 16
    → is_hex c ≡ false
    → read_hex (fmt_hex n ++ c ∷ rest) 0 ≡ (n, c ∷ rest)
unfolding fmt_hex read_hex
read_hex-fmt_hex n c rest small ends =
    read_hex-digits 15 n (c ∷ rest) small
    ∙ ap (λ b. if b then read_hex rest (n * 16 + hex_value c) else (n, c ∷ rest)) ends

-- Two texts that start with a number each, and go on with another byte.
pub fmt_hex-injective :
    (n m c d : ℕ) (s t : Bytes)
    → n < 16 ^ 16
    → m < 16 ^ 16
    → is_hex c ≡ false
    → is_hex d ≡ false
    → fmt_hex n ++ c ∷ s ≡ fmt_hex m ++ d ∷ t
    → (n ≡ m) × (s ≡ t)
fmt_hex-injective n m c d s t small small' ends ends' same =
    let read : ◌≡◌ {A = ℕ × Bytes} (n, c ∷ s) (m, d ∷ t) =
      sym (read_hex-fmt_hex n c s small ends)
      ∙ ap (λ x. read_hex x 0) same
      ∙ read_hex-fmt_hex m d t small' ends' in
    let rest : c ∷ s ≡ d ∷ t = ap (λ p. p.1) read in (ap (λ p. p.0) read, cc)
