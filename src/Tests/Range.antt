-- ===== src/Tests/Range.antt =====
-- src/range.rs
use http_serve.Base.{ℕ, ◌≡◌, refl, none, some, [], ◌∷◌, arith, codes, u64_max}
use Prim.Native.String.{String}
use http_serve.Tests.Http.{ascii_to_str}
use http_serve.Std.Num.{fmt_decimal, from_str}
use http_serve.Std.Str.{position, trim_start_matches}
use http_serve.Range.{
  ByteRange, ResolvedRanges, absent, not_satisfiable, satisfiable, resolved, parse,
}
use http_serve.Range.Rfc.{RangeSpec, suffix, closed, Item, all_satisfying, satisfies}
use http_serve.Range.Bounds.{RangesInBounds, parse-RangesInBounds}
use http_serve.Range.Agreement.{parse-satisfies}
use http_serve.Range.Divergence.{parse-long_suffix, parse-empty_suffix, parse-last_max}

abbrev bytes : ℕ → ℕ → ByteRange
bytes a b = record { start = a; end = b }

abbrev run : String → ℕ → ResolvedRanges
run s len = parse ascii_to_str (some (codes s)) len

test_resolve_ranges_rfc :
    (run "bytes=0-499" 10000 ≡ satisfiable (bytes 0 500 ∷ []))
    × (run "bytes=-500" 10000 ≡ satisfiable (bytes 9500 10000 ∷ []))
    × (run "bytes=9500-" 10000 ≡ satisfiable (bytes 9500 10000 ∷ []))
    × (run "bytes=0-0,-1" 10000 ≡ satisfiable (bytes 0 1 ∷ bytes 9999 10000 ∷ []))
    × (run "bytes=500-700, 601-999" 10000 ≡ satisfiable (bytes 500 701 ∷ bytes 601 1000 ∷ []))
unfolding parse ascii_to_str position trim_start_matches from_str
test_resolve_ranges_rfc = (refl, refl, refl, refl, refl)

test_resolve_ranges_satisfiability :
    (run "bytes=10000-" 10000 ≡ not_satisfiable)
    × (run "bytes=0-499,10000-" 10000 ≡ satisfiable (bytes 0 500 ∷ []))
    × (run "bytes=-1" 0 ≡ not_satisfiable)
    × (run "bytes=0-" 0 ≡ not_satisfiable)
    × (run "bytes=0-10000" 500 ≡ satisfiable (bytes 0 500 ∷ []))
unfolding parse ascii_to_str position trim_start_matches from_str
test_resolve_ranges_satisfiability = (refl, refl, refl, refl, refl)

test_absent_or_invalid :
    (parse ascii_to_str none 10000 ≡ absent)
    × (parse ascii_to_str (some (0xff ∷ [])) 10000 ≡ absent)
    × (run "bytes=0-1 ,3-4" 10000 ≡ absent)
    × (run "bytes=+1-+2" 10000 ≡ satisfiable (bytes 1 3 ∷ []))
unfolding parse ascii_to_str position trim_start_matches from_str
test_absent_or_invalid = (refl, refl, refl, refl)

abbrev item : String → RangeSpec → Item
item ows spec = record { ows = codes ows; spec = spec }

parse-RangesInBounds_example : RangesInBounds 10 (run "bytes=2-4,20-,-3" 10)
parse-RangesInBounds_example =
    parse-RangesInBounds ascii_to_str (some (codes "bytes=2-4,20-,-3")) 10

parse-satisfies_example :
    run "bytes=0-0, -1" 10000
    ≡ resolved (all_satisfying (item "" (closed 0 0) ∷ item " " (suffix 1) ∷ []) 10000)
unfolding ascii_to_str fmt_decimal
parse-satisfies_example =
    parse-satisfies ascii_to_str (codes "bytes=0-0, -1") (item "" (closed 0 0))
      (item " " (suffix 1) ∷ []) 10000 refl ((tt, omega arith), (((refl, tt), omega arith), tt))

parse-long_suffix_example :
    (run "bytes=-500" 10 ≡ not_satisfiable) × (satisfies (suffix 500) 10 ≡ some (bytes 0 10))
unfolding ascii_to_str fmt_decimal
parse-long_suffix_example =
    parse-long_suffix ascii_to_str (codes "bytes=-500") [] 10 tt 500 refl (omega arith)
      (omega arith) (omega arith)

parse-empty_suffix_example :
    (run "bytes=-0" 10 ≡ satisfiable (bytes 10 10 ∷ [])) × (satisfies (suffix 0) 10 ≡ none)
unfolding ascii_to_str fmt_decimal
parse-empty_suffix_example =
    parse-empty_suffix ascii_to_str (codes "bytes=-0") [] 10 tt refl (omega arith)

parse-last_max_example :
    (run "bytes=3-18446744073709551615" 10 ≡ not_satisfiable)
    × (satisfies (closed 3 u64_max) 10 ≡ some (bytes 3 10))
unfolding ascii_to_str fmt_decimal
parse-last_max_example =
    parse-last_max ascii_to_str (codes "bytes=3-18446744073709551615") [] 10 tt 3 refl (omega arith)
      (omega arith)
