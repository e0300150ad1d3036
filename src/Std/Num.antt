-- ===== src/Std/Num.antt =====
-- Numbers as text: `from_str` and the formats `{}` and `{:x}`.
pub mod Laws
pub mod Hex
pub mod Texts
use http_serve.Base.{
  ℕ, zero, suc, ◌+◌, ◌-◌, ◌*◌, ◌/◌, ◌%◌, ◌||◌, [], ◌∷◌, ◌++◌, Option, none, some, ◌≡◌, refl, Bytes,
  ltb, ◌==◌, if◌then◌else◌, u64_max, u16_max, codes,
}

-- The digits of a `from_str`, behind the number read so far: an overflow of the type is an error.
unfoldable pub read_digits : ℕ → Bytes → ℕ → Option ℕ
read_digits max [] n = some n
read_digits max (c ∷ s) n =
    if ltb c b'0' || ltb b'9' c
    then none
    else if ltb max (n * 10 + (c - b'0'))
    then none
    else read_digits max s (n * 10 + (c - b'0'))

-- an optional `+`, then at least one digit
unfoldable pub from_str : ℕ → Bytes → Option ℕ
unfolding read_digits
from_str max [] = none
from_str max (c ∷ []) = if c == b'+' then none else read_digits max (c ∷ []) 0
from_str max (c ∷ d ∷ s) =
    if c == b'+' then read_digits max (d ∷ s) 0 else read_digits max (c ∷ d ∷ s) 0

abbrev pub u64_from_str : Bytes → Option ℕ
u64_from_str = from_str u64_max

abbrev pub u16_from_str : Bytes → Option ℕ
u16_from_str = from_str u16_max

abbrev pub digit : ℕ → ℕ
digit d = if ltb d 10 then b'0' + d else b'a' + (d - 10)

-- The digits of `n`, the most significant first. The fuel bounds their number.
unfoldable pub digits : ℕ → ℕ → ℕ → Bytes
digits base zero n = []
digits base (suc fuel) n =
    let front = digits base fuel (n / base) in
    if ltb n base then digit n ∷ [] else front ++ digit (n % base) ∷ []

-- `{}`: a `u64` has at most 20 digits.
unfoldable pub fmt_decimal : ℕ → Bytes
unfolding digits
fmt_decimal = digits 10 20

-- `{:x}`: a `u64` has at most 16 digits.
unfoldable pub fmt_hex : ℕ → Bytes
unfolding digits
fmt_hex = digits 16 16

fmt_decimal-u64_max : fmt_decimal u64_max ≡ codes "18446744073709551615"
unfolding fmt_decimal
fmt_decimal-u64_max = refl
