-- ===== src/Negotiation/Grammar.antt =====
-- src/lib.rs: the parts of an Accept-Encoding header, as RFC 7231, sections 5.3.1 and 5.3.4, writes
-- them.
use http_serve.Base.{
  ℕ, ◌≡◌, [], ◌∷◌, ◌++◌, Bytes, codes, All, zero, suc, ◌+◌, ◌-◌, ◌*◌, ◌/◌, ◌≤◌, ◌<◌, ◌≢◌, ◌⊎◌,
  length,
}
use http_serve.Std.Num.Laws.{IsDigit}

-- A qvalue: `0` or `1`, alone or with a point and up to three digits, which are zeros behind `1`.
pub data Qvalue : Type 0 where
  zero_alone : Qvalue
  zero_point : Bytes → Qvalue
  one_alone : Qvalue
  one_point : ℕ → Qvalue

abbrev pub zeros : ℕ → Bytes
zeros zero = []
zeros (suc n) = b'0' ∷ zeros n

abbrev pub print_qvalue : Qvalue → Bytes
print_qvalue zero_alone = codes "0"
print_qvalue (zero_point ds) = codes "0." ++ ds
print_qvalue one_alone = codes "1"
print_qvalue (one_point n) = codes "1." ++ zeros n

abbrev pub IsQvalue : Qvalue → Type 0
IsQvalue zero_alone = Unit
IsQvalue (zero_point ds) = All IsDigit ds × (length ds ≤ 3)
IsQvalue one_alone = Unit
IsQvalue (one_point n) = n ≤ 3

-- what the digits behind the point come to, the first of them so many thousandths each
abbrev pub weigh : ℕ → Bytes → ℕ
weigh unit [] = 0
weigh unit (c ∷ ds) = (c - b'0') * unit + weigh (unit / 10) ds

-- the value in thousandths
abbrev pub value_of : Qvalue → ℕ
value_of zero_alone = 0
value_of (zero_point ds) = weigh 100 ds
value_of one_alone = 1000
value_of (one_point n) = 1000

-- What stands behind a coding: nothing, or `;`, blanks, `q=`, a qvalue and blanks.
pub data Weight : Type 0 where
  unweighted : Weight
  weighted : Bytes → Qvalue → Bytes → Weight

-- A part of the header: blanks, a coding, blanks and a weight.
pub record Coded : Type 0 where
  pub before : Bytes
  pub coding : Bytes
  pub after : Bytes
  pub weight : Weight

abbrev pub print_weight : Weight → Bytes
print_weight unweighted = []
print_weight (weighted between q behind) =
    b';' ∷ between ++ ((codes "q=" ++ print_qvalue q) ++ behind)

abbrev pub text : Coded → Bytes
text i = (i.before ++ (i.coding ++ i.after)) ++ print_weight i.weight

-- A coding without a weight has the greatest quality.
abbrev pub quality_of : Weight → ℕ
quality_of unweighted = 1000
quality_of (weighted between q behind) = value_of q

abbrev pub quality : Coded → ℕ
quality i = quality_of i.weight

-- a space or a tab
abbrev pub IsBlank : ℕ → Type 0
IsBlank c = (c ≡ 32) ⊎ (c ≡ 9)

-- a visible character other than the two that separate
abbrev pub IsCodingChar : ℕ → Type 0
IsCodingChar c = (32 < c) × (c ≢ b',') × (c ≢ b';')

abbrev pub IsWeight : Weight → Type 0
IsWeight unweighted = Unit
IsWeight (weighted between q behind) = All IsBlank between × IsQvalue q × All IsBlank behind

abbrev pub IsCoded : Coded → Type 0
IsCoded i =
    All IsBlank i.before
    × All IsCodingChar i.coding
    × All IsBlank i.after
    × (i.coding ≢ [])
    × IsWeight i.weight
