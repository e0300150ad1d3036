-- ===== src/Range/Printed.antt =====
-- How `parse` reads a printed element, whatever its numbers are, and a printed set.
use http_serve.Base.{
  ℕ, ◌≤◌, ◌≡◌, refl, ◌≢◌, Option, some, List, [], ◌∷◌, ◌++◌, map, arith, Bytes, codes, All,
  All-append, length, take-length-append, u64_max, drop-append_suc, ap, ◌∙◌,
}
use http_serve.Std.Num.{fmt_decimal, u64_from_str}
use http_serve.Std.Num.Laws.{IsDigit, fmt_decimal-IsDigit, fmt_decimal-ne-nil}
use http_serve.Std.Str.{position, trim_start_matches}
use http_serve.Std.Str.Laws.{
  Lacks, join, split-join, position-append, trim_start_matches-append, strip_prefix-append,
}
use http_serve.Range.{
  is_ows, resolve_suffix, resolve_end, resolve_first, parse_end, parse_at, parse_spec, parse_pieces,
  parse_set, parse_text, parse,
}
use http_serve.Range.Rfc.{
  RangeSpec, suffix, open_ended, closed, print, Item, print_item, IsOws, print_set, decimal-Lacks,
  read_back,
}

-- White space ends where a digit stands.
trim-digits :
    (s rest : Bytes) → All IsDigit s → s ≢ [] → trim_start_matches is_ows (s ++ rest) ≡ s ++ rest
unfolding trim_start_matches
trim-digits [] rest h ne = absurd (ne refl)
trim-digits (c ∷ s) rest h ne = ground arith

parse_at-append :
    (s rest : Bytes) (len : ℕ)
    → s ≢ []
    → parse_at (some (length s)) (s ++ b'-' ∷ rest) len
      ≡ resolve_first (u64_from_str s) (parse_end rest len)
unfolding parse_at
parse_at-append [] rest len ne = absurd (ne refl)
parse_at-append (c ∷ s) rest len ne =
    rw (take-length-append (c ∷ s) (b'-' ∷ rest), drop-append_suc (c ∷ s) b'-' rest)

pub parse_spec-suffix :
    (ows : Bytes) (n len : ℕ)
    → IsOws ows
    → n ≤ u64_max
    → parse_spec (ows ++ print (suffix n)) len ≡ resolve_suffix (some n) len
unfolding parse_spec
parse_spec-suffix ows n len h fits =
    rw (trim_start_matches-append is_ows ows (print (suffix n)) h)
      (unfold trim_start_matches position parse_at in rw (read_back n fits))

-- The text behind the hyphen is left to `parse_end`.
pub parse_spec-first :
    (ows rest : Bytes) (a len : ℕ)
    → IsOws ows
    → a ≤ u64_max
    → parse_spec (ows ++ (fmt_decimal a ++ b'-' ∷ rest)) len
      ≡ resolve_first (some a) (parse_end rest len)
unfolding parse_spec
parse_spec-first ows rest a len h fits =
    let digits = fmt_decimal-IsDigit a in
    let ne = fmt_decimal-ne-nil a in
    rw (
      trim_start_matches-append is_ows ows (fmt_decimal a ++ b'-' ∷ rest) h,
      trim-digits (fmt_decimal a) (b'-' ∷ rest) digits ne,
      position-append b'-' (fmt_decimal a) rest (decimal-Lacks b'-' a (omega arith)),
      parse_at-append (fmt_decimal a) rest len ne,
      read_back a fits,
    )

parse_end-nonempty :
    (s : Bytes) (len : ℕ) → s ≢ [] → parse_end s len ≡ resolve_end (u64_from_str s) len
unfolding parse_end
parse_end-nonempty [] len ne = absurd (ne refl)
parse_end-nonempty (c ∷ s) len ne = refl

pub parse_end-fmt_decimal :
    (b len : ℕ) → b ≤ u64_max → parse_end (fmt_decimal b) len ≡ resolve_end (some b) len
parse_end-fmt_decimal b len fits =
    rw (parse_end-nonempty (fmt_decimal b) len (fmt_decimal-ne-nil b), read_back b fits)

-- A printed element holds no comma, so the set splits at its commas.
IsOws-Lacks : (s : Bytes) → IsOws s → Lacks b',' s
IsOws-Lacks [] h = tt
IsOws-Lacks (c ∷ s) h = (ground arith, IsOws-Lacks s h.1)

print-Lacks : (spec : RangeSpec) → Lacks b',' (print spec)
print-Lacks (suffix n) = (omega arith, decimal-Lacks b',' n (omega arith))
print-Lacks (open_ended a) =
    All-append _ (fmt_decimal a) (b'-' ∷ []) (decimal-Lacks b',' a (omega arith)) (omega arith)
print-Lacks (closed a b) =
    All-append _ (fmt_decimal a) (b'-' ∷ fmt_decimal b) (decimal-Lacks b',' a (omega arith))
      (omega arith, decimal-Lacks b',' b (omega arith))

print_item-Lacks : (i : Item) → IsOws i.ows → Lacks b',' (print_item i)
print_item-Lacks i h = All-append _ i.ows (print i.spec) (IsOws-Lacks i.ows h) (print-Lacks i.spec)

print_items-Lacks :
    (is : List Item) → All (λ i. IsOws i.ows) is → All (Lacks b',') (map print_item is)
print_items-Lacks [] h = tt
print_items-Lacks (i ∷ is) h = (print_item-Lacks i h.0, print_items-Lacks is h.1)

-- `parse` goes through the elements of a printed set.
pub parse-print_set :
    (to_str : Bytes → Option Bytes) (value : Bytes) (i : Item) (is : List Item) (len : ℕ)
    → to_str value ≡ some (print_set i is)
    → All (λ j. IsOws j.ows) (i ∷ is)
    → parse to_str (some value) len ≡ parse_pieces (map print_item (i ∷ is)) [] len
unfolding parse parse_text parse_set
parse-print_set to_str value i is len text h =
    ap (λ o. parse_text o len) text
    ∙ ap (λ o. parse_set o len)
        (strip_prefix-append (codes "bytes=") (join b',' (print_item i) (map print_item is)))
    ∙ ap (λ ps. parse_pieces ps [] len)
        (split-join b',' (print_item i) (map print_item is) (print_item-Lacks i h.0)
          (print_items-Lacks is h.1))
