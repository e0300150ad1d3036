-- ===== src/Range/Agreement.antt =====
-- Where `parse` does what RFC 7233 says.
use http_serve.Base.{
  ℕ, ◌≡◌, ap, ◌∙◌, Option, none, some, List, [], ◌∷◌, ◌++◌, map, append-nil, append_assoc, arith,
  Bytes, All,
}
use http_serve.Std.Num.{fmt_decimal}
use http_serve.Range.{
  ByteRange, ResolvedRanges, Outcome, skip, push, resolve_suffix, resolve_end, resolve_first,
  parse_end, parse_spec, proceed, resolved, parse_pieces, parse,
}
use http_serve.Range.Rfc.{
  RangeSpec, suffix, open_ended, closed, print, Item, print_item, IsOws, print_set, satisfies,
  all_satisfying, prepend, IsPlain, IsPlainItem,
}
use http_serve.Range.Printed.{
  parse_spec-suffix, parse_spec-first, parse_end-fmt_decimal, parse-print_set,
}

abbrev outcome_of : Option ByteRange → Outcome
outcome_of none = skip
outcome_of (some r) = push r

parse_spec-satisfies :
    (ows : Bytes) (spec : RangeSpec) (len : ℕ)
    → IsOws ows
    → IsPlain len spec
    → parse_spec (ows ++ print spec) len ≡ outcome_of (satisfies spec len)
parse_spec-satisfies ows (suffix n) len h plain =
    parse_spec-suffix ows n len h plain.2 ∙ unfold resolve_suffix in ground arith
parse_spec-satisfies ows (open_ended a) len h plain =
    parse_spec-first ows [] a len h plain ∙ unfold resolve_first parse_end in ground arith
parse_spec-satisfies ows (closed a b) len h plain =
    parse_spec-first ows (fmt_decimal b) a len h (omega arith)
    ∙ ap (resolve_first (some a)) (parse_end-fmt_decimal b len (omega arith))
    ∙ unfold resolve_first resolve_end in ground arith

proceed-prepend :
    (o : Option ByteRange) (ranges rest : List ByteRange) (k : List ByteRange → ResolvedRanges)
    → ((rs : List ByteRange) → k rs ≡ resolved (rs ++ rest))
    → proceed (outcome_of o) ranges k ≡ resolved (ranges ++ prepend o rest)
proceed-prepend none ranges rest k h = h ranges
proceed-prepend (some r) ranges rest k h = h (ranges ++ r ∷ []) ∙ ap resolved (rw append_assoc)

parse_pieces-satisfies :
    (is : List Item) (ranges : List ByteRange) (len : ℕ)
    → All (IsPlainItem len) is
    → parse_pieces (map print_item is) ranges len ≡ resolved (ranges ++ all_satisfying is len)
unfolding parse_pieces
parse_pieces-satisfies [] ranges len h = rw append-nil
parse_pieces-satisfies (i ∷ is) ranges len h =
    ap (λ o. proceed o ranges (λ rs. parse_pieces (map print_item is) rs len))
      (parse_spec-satisfies i.ows i.spec len h.0.0 h.0.1)
    ∙ proceed-prepend (satisfies i.spec len) ranges (all_satisfying is len) _
        (λ rs. parse_pieces-satisfies is rs len h.1)

All-ows : (is : List Item) (len : ℕ) → All (IsPlainItem len) is → All (λ i. IsOws i.ows) is
All-ows [] len h = tt
All-ows (i ∷ is) len h = (h.0.0, All-ows is len h.1)

-- The header `bytes=` with a non-empty list of byte-range specs, with just a comma between two and
-- blanks and tabs only in front of a spec, their numbers without leading zeros, is resolved as
-- RFC 7233 says, in order: the satisfiable ranges, and `NotSatisfiable` if there is none. Each
-- position is a `u64`, a last position is not before the first one and is not the largest `u64`, and
-- a suffix is shorter than the entity and not empty.
pub parse-satisfies :
    (to_str : Bytes → Option Bytes) (value : Bytes) (i : Item) (is : List Item) (len : ℕ)
    → to_str value ≡ some (print_set i is)
    → All (IsPlainItem len) (i ∷ is)
    → parse to_str (some value) len ≡ resolved (all_satisfying (i ∷ is) len)
parse-satisfies to_str value i is len text h =
    parse-print_set to_str value i is len text (All-ows (i ∷ is) len h)
    ∙ parse_pieces-satisfies (i ∷ is) [] len h
