-- ===== src/Range/Bounds.antt =====
-- The ranges that `parse` returns lie in the entity.
use http_serve.Base.{
  ℕ, ◌≢◌, arith, ◌≤◌, ◌≡◌, ◌<◌, some, [], ◌⊎◌, ◌∷◌, All, List, Option, drop, suc, codes, zero, ◌+◌,
  none, ◌++◌, All-append, refl,
}
use http_serve.Std.Str.{strip_prefix, split}
use http_serve.Range.{
  ByteRange, ResolvedRanges, absent, not_satisfiable, satisfiable, Outcome, unparseable, skip, push,
  parse_spec, parse_end, parse_pieces, resolved, parse, Bytes, ℕ, strip_prefix, split, parse_at,
  proceed, resolve_first, parse_text, parse_set, resolve_suffix,
}

-- A range of the entity. Only the suffix of length zero gives an empty one, at the end.
pub record InBounds (len : ℕ) (r : ByteRange) : Type 0 where
  pub below : r.end ≤ len
  pub nonempty : (r.start < r.end) ⊎ ((r.start ≡ len) × (r.end ≡ len))

abbrev OutcomeInBounds : ℕ → Outcome → Type 0
OutcomeInBounds len unparseable = Unit
OutcomeInBounds len skip = Unit
OutcomeInBounds len (push r) = InBounds len r

abbrev pub RangesInBounds : ℕ → ResolvedRanges → Type 0
RangesInBounds len absent = Unit
RangesInBounds len not_satisfiable = Unit
RangesInBounds len (satisfiable rs) = (rs ≢ []) × All (InBounds len) rs

resolve_suffix-InBounds : (o : Option ℕ) (len : ℕ) → OutcomeInBounds len (resolve_suffix o len)
unfolding resolve_suffix
resolve_suffix-InBounds none len = tt
resolve_suffix-InBounds (some zero) len = ground arith
resolve_suffix-InBounds (some (suc n)) len = ground arith

parse_end-le : (after : Bytes) (len : ℕ) {e : ℕ} → parse_end after len ≡ some e → e ≤ len
unfolding parse_end
parse_end-le [] len h = ground arith
parse_end-le (c ∷ s) len h = ground arith

resolve_first-InBounds :
    (a e : Option ℕ) (len : ℕ)
    → ((m : ℕ) → e ≡ some m → m ≤ len)
    → OutcomeInBounds len (resolve_first a e)
unfolding resolve_first
resolve_first-InBounds none e len h = tt
resolve_first-InBounds (some a) none len h = tt
resolve_first-InBounds (some a) (some m) len h = ground (arith, h m refl)

parse_at-InBounds : (o : Option ℕ) (r : Bytes) (len : ℕ) → OutcomeInBounds len (parse_at o r len)
unfolding parse_at
parse_at-InBounds none r len = tt
parse_at-InBounds (some zero) r len = resolve_suffix-InBounds _ len
parse_at-InBounds (some (suc h)) r len =
    resolve_first-InBounds _ _ len (λ m e. parse_end-le (drop (suc h + 1) r) len e)

parse_spec-InBounds : (piece : Bytes) (len : ℕ) → OutcomeInBounds len (parse_spec piece len)
unfolding parse_spec
parse_spec-InBounds piece len = parse_at-InBounds _ _ len

proceed-RangesInBounds :
    (len : ℕ) (o : Outcome) (ranges : List ByteRange) (k : List ByteRange → ResolvedRanges)
    → OutcomeInBounds len o
    → All (InBounds len) ranges
    → ((rs : List ByteRange) → All (InBounds len) rs → RangesInBounds len (k rs))
    → RangesInBounds len (proceed o ranges k)
proceed-RangesInBounds len unparseable ranges k i h keep = tt
proceed-RangesInBounds len skip ranges k i h keep = keep ranges h
proceed-RangesInBounds len (push r) ranges k i h keep =
    keep (ranges ++ r ∷ []) (All-append (InBounds len) ranges (r ∷ []) h (i, tt))

resolved-RangesInBounds :
    (len : ℕ) (rs : List ByteRange) → All (InBounds len) rs → RangesInBounds len (resolved rs)
unfolding resolved
resolved-RangesInBounds len [] h = tt
resolved-RangesInBounds len (r ∷ rs) h = ((λ e. cc), h)

parse_pieces-RangesInBounds :
    (pieces : List Bytes) (ranges : List ByteRange) (len : ℕ)
    → All (InBounds len) ranges
    → RangesInBounds len (parse_pieces pieces ranges len)
unfolding parse_pieces
parse_pieces-RangesInBounds [] ranges len h = resolved-RangesInBounds len ranges h
parse_pieces-RangesInBounds (p ∷ ps) ranges len h =
    proceed-RangesInBounds len (parse_spec p len) ranges _ (parse_spec-InBounds p len) h
      (λ rs. parse_pieces-RangesInBounds ps rs len)

parse_set-RangesInBounds : (o : Option Bytes) (len : ℕ) → RangesInBounds len (parse_set o len)
unfolding parse_set
parse_set-RangesInBounds none len = tt
parse_set-RangesInBounds (some b) len = parse_pieces-RangesInBounds (split b',' b) [] len tt

parse_text-RangesInBounds : (o : Option Bytes) (len : ℕ) → RangesInBounds len (parse_text o len)
unfolding parse_text
parse_text-RangesInBounds none len = tt
parse_text-RangesInBounds (some s) len =
    parse_set-RangesInBounds (strip_prefix (codes "bytes=") s) len

-- Whatever the header says, `Satisfiable` holds at least one range, and every one lies within the
-- entity and is not empty, save the empty range at the end of the entity.
pub parse-RangesInBounds :
    (to_str : Bytes → Option Bytes) (range : Option Bytes) (len : ℕ)
    → RangesInBounds len (parse to_str range len)
unfolding parse
parse-RangesInBounds to_str none len = tt
parse-RangesInBounds to_str (some value) len = parse_text-RangesInBounds (to_str value) len
