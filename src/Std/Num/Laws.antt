-- ===== src/Std/Num/Laws.antt =====
-- What is printed is read back, and is made of digits.
use native.Mathlib.Nat.{pow-suc}
use http_serve.Base.{
  ℕ, zero, suc, ◌/◌, ◌%◌, ◌^◌, ◌≤◌, ◌<◌, [], ◌∷◌, ◌++◌, some, ◌≡◌, ◌≢◌, refl, arith, Bytes, ltb,
  All, All-append, append_assoc, length, length-append, Bool-cases, inl, inr, append-nil, ◌∙◌,
}
use http_serve.Std.Num.{read_digits, from_str, digit, digits, fmt_decimal}

abbrev pub IsDigit : ℕ → Type 0
IsDigit c = (b'0' ≤ c) × (c ≤ b'9')

pub digits-IsDigit : (fuel n : ℕ) → All IsDigit (digits 10 fuel n)
unfolding digits
digits-IsDigit zero n = tt
digits-IsDigit (suc f) n = elim (Bool-cases (ltb n 10)) [
  | inl small ↦ rw small (ground arith, tt)
  | inr large ↦ rw large (
      All-append IsDigit (digits 10 f (n / 10)) (digit (n % 10) ∷ []) (digits-IsDigit f (n / 10))
        (ground arith, tt))
]

concat-ne-nil : (xs : Bytes) (d : ℕ) → xs ++ d ∷ [] ≢ []
concat-ne-nil [] d = λ e. cc
concat-ne-nil (x ∷ xs) d = λ e. cc

digits-ne-nil : (fuel n : ℕ) → digits 10 (suc fuel) n ≢ []
unfolding digits
digits-ne-nil f n = elim (Bool-cases (ltb n 10)) [
  | inl small ↦ rw small (λ e. cc)
  | inr large ↦ rw large (concat-ne-nil (digits 10 f (n / 10)) (digit (n % 10)))
]

pub length-digits : (base fuel n : ℕ) → length (digits base fuel n) ≤ fuel
unfolding digits
length-digits base zero n = omega arith
length-digits base (suc f) n = elim (Bool-cases (ltb n base)) [
  | inl small ↦ rw small (omega arith)
  | inr large ↦
      rw (large, length-append (digits base f (n / base)) (digit (n % base) ∷ []))
        (omega (arith, length-digits base f (n / base)))
]

-- The last digit, behind the digits before it.
read_digits-digit :
    (max n : ℕ) (rest : Bytes)
    → n ≤ max
    → read_digits max (digit (n % 10) ∷ rest) (n / 10) ≡ read_digits max rest n
unfolding read_digits
read_digits-digit max n rest fits = ground arith

read_digits-digits :
    (max fuel n : ℕ) (rest : Bytes)
    → n ≤ max
    → n < 10 ^ suc fuel
    → read_digits max (digits 10 (suc fuel) n ++ rest) 0 ≡ read_digits max rest n
read_digits-digits max zero n rest fits small = unfold digits read_digits in ground arith
read_digits-digits max (suc f) n rest fits small = elim (Bool-cases (ltb n 10)) [
  | inl one ↦ unfold digits in rw one (unfold read_digits in ground arith)
  | inr more ↦
      let front = digits 10 (suc f) (n / 10) in
      let split : digits 10 (suc (suc f)) n ++ rest ≡ front ++ digit (n % 10) ∷ rest =
        unfold digits in rw (more, append_assoc) in
      rw split (
        read_digits-digits max f (n / 10) (digit (n % 10) ∷ rest) (omega arith)
          (omega (arith, pow-suc 10 (suc f)))
        ∙ read_digits-digit max n rest fits)
]

-- A text that starts with a digit is read digit by digit.
pub from_str-read_digits :
    (max : ℕ) (s : Bytes) → All IsDigit s → s ≢ [] → from_str max s ≡ read_digits max s 0
unfolding from_str
from_str-read_digits max [] h ne = absurd (ne refl)
from_str-read_digits max (c ∷ []) h ne = ground arith
from_str-read_digits max (c ∷ d ∷ s) h ne = ground arith

pub fmt_decimal-IsDigit : (n : ℕ) → All IsDigit (fmt_decimal n)
unfolding fmt_decimal
fmt_decimal-IsDigit n = digits-IsDigit 20 n

pub fmt_decimal-ne-nil : (n : ℕ) → fmt_decimal n ≢ []
unfolding fmt_decimal
fmt_decimal-ne-nil n = digits-ne-nil 19 n

-- Every number of up to 20 digits that fits the type is read back from its print.
pub from_str-fmt_decimal :
    (max n : ℕ) → n ≤ max → n < 10 ^ 20 → from_str max (fmt_decimal n) ≡ some n
from_str-fmt_decimal max n fits small =
    from_str-read_digits max (fmt_decimal n) (fmt_decimal-IsDigit n) (fmt_decimal-ne-nil n)
    ∙ printed
  where
    printed : read_digits max (fmt_decimal n) 0 ≡ some n
    printed =
        unfold fmt_decimal in
        rw (← append-nil (digits 10 20 n))
          (read_digits-digits max 19 n [] fits small ∙ unfold read_digits in refl)
