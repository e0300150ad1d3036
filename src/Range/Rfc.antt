-- ===== src/Range/Rfc.antt =====
-- Range sets written by the grammar of RFC 7233, section 2.1, and what that section says of them.
use http_serve.Base.{
  ℕ, ◌+◌, ◌-◌, ◌≤◌, ◌<◌, min, ◌≡◌, true, ◌||◌, Option, none, some, List, [], ◌∷◌, ◌++◌, map, arith,
  ltb, ◌==◌, if◌then◌else◌, Bytes, codes, All, u64_max,
}
use http_serve.Std.Num.{fmt_decimal, u64_from_str}
use http_serve.Std.Num.Laws.{IsDigit, fmt_decimal-IsDigit, from_str-fmt_decimal}
use http_serve.Std.Str.Laws.{Lacks, join}
use http_serve.Range.{ByteRange, is_ows}

-- `suffix n` is `-n`, `open_ended a` is `a-`, `closed a b` is `a-b`.
pub data RangeSpec : Type 0 where
  suffix : ℕ → RangeSpec
  open_ended : ℕ → RangeSpec
  closed : ℕ → ℕ → RangeSpec

abbrev pub print : RangeSpec → Bytes
print (suffix n) = b'-' ∷ fmt_decimal n
print (open_ended a) = fmt_decimal a ++ b'-' ∷ []
print (closed a b) = fmt_decimal a ++ b'-' ∷ fmt_decimal b

-- An element of the list, with the white space in front of it.
pub record Item : Type 0 where
  pub ows : Bytes
  pub spec : RangeSpec

abbrev pub print_item : Item → Bytes
print_item i = i.ows ++ print i.spec

abbrev pub IsOws : Bytes → Type 0
IsOws = All (λ c. is_ows c ≡ true)

-- `bytes=`, then the elements with commas between
abbrev pub print_set : Item → List Item → Bytes
print_set i is = codes "bytes=" ++ join b',' (print_item i) (map print_item is)

-- The bytes that RFC 7233 means. A suffix that is longer than the entity is the whole entity.
abbrev pub satisfies : RangeSpec → ℕ → Option ByteRange
satisfies (suffix n) len =
    if n == 0 || len == 0 then none else some (record { start = len - n; end = len })
satisfies (open_ended a) len = if ltb a len then some (record { start = a; end = len }) else none
satisfies (closed a b) len =
    if ltb a len then some (record { start = a; end = min (b + 1) len }) else none

abbrev pub prepend : Option ByteRange → List ByteRange → List ByteRange
prepend none rs = rs
prepend (some r) rs = r ∷ rs

abbrev pub all_satisfying : List Item → ℕ → List ByteRange
all_satisfying [] len = []
all_satisfying (i ∷ is) len = prepend (satisfies i.spec len) (all_satisfying is len)

-- The numbers are `u64`s, the positions are in order, the last one is not the largest `u64`, and a
-- suffix is neither empty nor the whole entity or more.
abbrev pub IsPlain : ℕ → RangeSpec → Type 0
IsPlain len (suffix n) = (0 < n) × (n < len) × (n ≤ u64_max)
IsPlain len (open_ended a) = a ≤ u64_max
IsPlain len (closed a b) = (a ≤ b) × (b < u64_max)

abbrev pub IsPlainItem : ℕ → Item → Type 0
IsPlainItem len i = IsOws i.ows × IsPlain len i.spec

-- How a printed element is read, whatever its numbers are.
pub read_back : (n : ℕ) → n ≤ u64_max → u64_from_str (fmt_decimal n) ≡ some n
read_back n h = from_str-fmt_decimal u64_max n h (omega arith)

IsDigit-Lacks : (b : ℕ) (s : Bytes) → (b < b'0') → All IsDigit s → Lacks b s
IsDigit-Lacks b [] lt h = tt
IsDigit-Lacks b (c ∷ s) lt h = ((λ e. omega arith), IsDigit-Lacks b s lt h.1)

pub decimal-Lacks : (b n : ℕ) → b < b'0' → Lacks b (fmt_decimal n)
decimal-Lacks b n lt = IsDigit-Lacks b (fmt_decimal n) lt (fmt_decimal-IsDigit n)
