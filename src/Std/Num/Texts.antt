-- ===== src/Std/Num/Texts.antt =====
-- Numbers are printed as visible ASCII, in no more places than their type needs.
use native.Mathlib.Nat.{pow-suc}
use http_serve.Base.{
  ℕ, zero, suc, ◌/◌, ◌%◌, ◌^◌, ◌≤◌, ◌<◌, [], ◌∷◌, ◌++◌, ◌≡◌, refl, arith, Bytes, Bool, true, ◌&&◌,
  leb, ltb, Bool-cases, inl, inr, length, length-append,
}
use http_serve.Std.Num.{digit, digits, fmt_decimal, fmt_hex}
use http_serve.Std.Num.Laws.{length-digits}

-- Visible ASCII, and spaces.
abbrev pub is_text : Bytes → Bool
is_text [] = true
is_text (c ∷ s) = (leb 32 c && leb c 126) && is_text s

abbrev pub IsText : Bytes → Type 0
IsText s = is_text s ≡ true

pub append-IsText : (a b : Bytes) → IsText a → IsText b → IsText (a ++ b)
append-IsText [] b ha hb = hb
append-IsText (c ∷ a) b ha hb = ground (arith, append-IsText a b)

digits-decimal-IsText : (fuel n : ℕ) → IsText (digits 10 fuel n)
unfolding digits
digits-decimal-IsText zero n = refl
digits-decimal-IsText (suc f) n = elim (Bool-cases (ltb n 10)) [
  | inl small ↦ rw small (ground arith)
  | inr large ↦ rw large (
      append-IsText (digits 10 f (n / 10)) (digit (n % 10) ∷ []) (digits-decimal-IsText f (n / 10))
        (ground arith))
]

digits-hex-IsText : (fuel n : ℕ) → IsText (digits 16 fuel n)
unfolding digits
digits-hex-IsText zero n = refl
digits-hex-IsText (suc f) n = elim (Bool-cases (ltb n 16)) [
  | inl small ↦ rw small (ground arith)
  | inr large ↦ rw large (
      append-IsText (digits 16 f (n / 16)) (digit (n % 16) ∷ []) (digits-hex-IsText f (n / 16))
        (ground arith))
]

pub fmt_decimal-IsText : (n : ℕ) → IsText (fmt_decimal n)
unfolding fmt_decimal
fmt_decimal-IsText n = digits-decimal-IsText 20 n

pub fmt_hex-IsText : (n : ℕ) → IsText (fmt_hex n)
unfolding fmt_hex
fmt_hex-IsText n = digits-hex-IsText 16 n

pub length-fmt_decimal : (n : ℕ) → length (fmt_decimal n) ≤ 20
unfolding fmt_decimal
length-fmt_decimal n = length-digits 10 20 n

pub length-fmt_hex : (n : ℕ) → length (fmt_hex n) ≤ 16
unfolding fmt_hex
length-fmt_hex n = length-digits 16 16 n

length-digits-hex : (k fuel n : ℕ) → n < 16 ^ suc k → length (digits 16 fuel n) ≤ suc k
unfolding digits
length-digits-hex k zero n small = omega arith
length-digits-hex zero (suc f) n small =
    let one : ltb n 16 ≡ true = ground arith in rw one (omega arith)
length-digits-hex (suc k) (suc f) n small = elim (Bool-cases (ltb n 16)) [
  | inl one ↦ rw one (omega arith)
  | inr more ↦
      let rest = length-digits-hex k f (n / 16) (omega (arith, pow-suc 16 (suc k))) in
      rw (more, length-append (digits 16 f (n / 16)) (digit (n % 16) ∷ [])) (omega arith)
]

-- A `u32` needs eight places.
pub length-fmt_hex-word : (n : ℕ) → n < 2 ^ 32 → length (fmt_hex n) ≤ 8
unfolding fmt_hex
length-fmt_hex-word n small = length-digits-hex 7 16 n (omega arith)
