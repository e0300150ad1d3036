-- ===== src/Range.antt =====
-- src/range.rs: the `Range:` header, parsed and resolved against the length of the entity.
pub mod Bounds
pub mod Rfc
pub mod Printed
pub mod Agreement
pub mod Divergence
use http_serve.Base.{
  ℕ, ◌+◌, ◌-◌, Bool, ◌||◌, List, [], ◌∷◌, ◌++◌, Option, none, some, Bytes, codes, leb, ◌==◌,
  if◌then◌else◌, take, drop, min, wrapping_add, zero, suc,
}
use http_serve.Std.Str.{strip_prefix, position, split, trim_start_matches}
use http_serve.Std.Num.{u64_from_str}

-- `Range<u64>`: `start` inclusive, `end` exclusive.
pub record ByteRange : Type 0 where
  pub start : ℕ
  pub end : ℕ

pub data ResolvedRanges : Type 0 where
  absent : ResolvedRanges
  not_satisfiable : ResolvedRanges
  satisfiable : List ByteRange → ResolvedRanges

-- How a round of the loop ends: it returns from `parse`, goes on, or pushes a range.
pub data Outcome : Type 0 where
  unparseable : Outcome
  skip : Outcome
  push : ByteRange → Outcome

abbrev pub is_ows : ℕ → Bool
is_ows c = c == b' ' || c == b'\t'

-- `suffix-byte-range-spec`: the number behind the hyphen, if it could be read
unfoldable pub resolve_suffix : Option ℕ → ℕ → Outcome
resolve_suffix none len = unparseable
resolve_suffix (some last) len =
    if leb len last then skip else push (record { start = len - last; end = len })

-- `cmp::min(l + 1, len)`; the `+ 1` is a `u64`'s.
unfoldable pub resolve_end : Option ℕ → ℕ → Option ℕ
resolve_end none len = none
resolve_end (some l) len = some (min (wrapping_add l 1) len)

-- The exclusive end of a `byte-range-spec`, from the text behind its hyphen.
unfoldable pub parse_end : Bytes → ℕ → Option ℕ
unfolding resolve_end
parse_end [] len = some len
parse_end (c ∷ s) len = resolve_end (u64_from_str (c ∷ s)) len

-- `byte-range-spec`: its two positions, if they could be read
unfoldable pub resolve_first : Option ℕ → Option ℕ → Outcome
resolve_first none _ = unparseable
resolve_first (some first) none = unparseable
resolve_first (some first) (some end) =
    if leb end first then skip else push (record { start = first; end = end })

-- The text `r` has its first hyphen at the given place.
unfoldable pub parse_at : Option ℕ → Bytes → ℕ → Outcome
unfolding resolve_suffix parse_end resolve_first
parse_at none r len = unparseable
parse_at (some zero) r len = resolve_suffix (u64_from_str (drop 1 r)) len
parse_at (some (suc h)) r len =
    resolve_first (u64_from_str (take (suc h) r)) (parse_end (drop (suc h + 1) r) len)

-- the body of the loop
unfoldable pub parse_spec : Bytes → ℕ → Outcome
unfolding parse_at
parse_spec piece len = let r = trim_start_matches is_ows piece in parse_at (position b'-' r) r len

-- What becomes of the ranges pushed so far; `k` is the rest of the loop.
abbrev pub proceed : Outcome → List ByteRange → (List ByteRange → ResolvedRanges) → ResolvedRanges
proceed unparseable ranges k = absent
proceed skip ranges k = k ranges
proceed (push r) ranges k = k (ranges ++ r ∷ [])

-- `if !ranges.is_empty() { Satisfiable } else { NotSatisfiable }`
unfoldable pub resolved : List ByteRange → ResolvedRanges
resolved [] = not_satisfiable
resolved (r ∷ rs) = satisfiable (r ∷ rs)

-- `for r in bytes.split(',')`, with the ranges pushed so far
unfoldable pub parse_pieces : List Bytes → List ByteRange → ℕ → ResolvedRanges
unfolding parse_spec resolved
parse_pieces [] ranges len = resolved ranges
parse_pieces (piece ∷ pieces) ranges len =
    proceed (parse_spec piece len) ranges (λ rs. parse_pieces pieces rs len)

-- the byte-range-set behind `bytes=`
unfoldable pub parse_set : Option Bytes → ℕ → ResolvedRanges
unfolding parse_pieces split
parse_set none len = absent
parse_set (some bytes) len = parse_pieces (split b',' bytes) [] len

-- the header as a `str`
unfoldable pub parse_text : Option Bytes → ℕ → ResolvedRanges
unfolding parse_set strip_prefix
parse_text none len = absent
parse_text (some range) len = parse_set (strip_prefix (codes "bytes=") range) len

-- `to_str` is `HeaderValue::to_str`.
unfoldable pub parse : (Bytes → Option Bytes) → Option Bytes → ℕ → ResolvedRanges
unfolding parse_text
parse to_str none len = absent
parse to_str (some value) len = parse_text (to_str value) len
