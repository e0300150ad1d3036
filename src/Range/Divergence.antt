-- ===== src/Range/Divergence.antt =====
-- Where `parse` does not do what RFC 7233 says.
use http_serve.Base.{
  ℕ, ◌≤◌, ◌<◌, ◌≡◌, refl, ap, ◌∙◌, Option, none, some, [], ◌∷◌, ◌++◌, arith, Bytes, u64_max,
}
use http_serve.Std.Num.{fmt_decimal}
use http_serve.Range.{
  not_satisfiable, satisfiable, Outcome, skip, push, resolve_suffix, resolve_end, resolve_first,
  parse_spec, proceed, resolved, parse_pieces, parse,
}
use http_serve.Range.Rfc.{RangeSpec, suffix, closed, print, IsOws, print_set, satisfies}
use http_serve.Range.Printed.{
  parse_spec-suffix, parse_spec-first, parse_end-fmt_decimal, parse-print_set,
}

module _ (to_str : Bytes → Option Bytes) (value ows : Bytes) (len : ℕ) (blank : IsOws ows) where
  -- A header with one element ends as that element says.
  parse-print_one :
      (spec : RangeSpec) (o : Outcome)
      → to_str value ≡ some (print_set (record { ows = ows; spec = spec }) [])
      → parse_spec (ows ++ print spec) len ≡ o
      → parse to_str (some value) len ≡ proceed o [] resolved
  parse-print_one spec o text e =
      parse-print_set to_str value (record { ows = ows; spec = spec }) [] len text (blank, tt)
      ∙ unfold parse_pieces in ap (λ p. proceed p [] resolved) e

  -- A suffix as long as the entity or longer is refused; RFC 7233 means the whole entity by it.
  pub parse-long_suffix :
      (n : ℕ)
      → to_str value ≡ some (print_set (record { ows = ows; spec = suffix n }) [])
      → 0 < len
      → len ≤ n
      → n ≤ u64_max
      → (parse to_str (some value) len ≡ not_satisfiable)
        × (satisfies (suffix n) len ≡ some (record { start = 0; end = len }))
  parse-long_suffix n text some_bytes long fits = (
    parse-print_one (suffix n) skip text
          (parse_spec-suffix ows n len blank fits ∙ unfold resolve_suffix in ground arith)
        ∙ unfold resolved in refl,
    ground arith,
  )

  -- The suffix of length zero is answered by an empty range at the end of the entity; RFC 7233
  -- calls it unsatisfiable.
  pub parse-empty_suffix :
      to_str value ≡ some (print_set (record { ows = ows; spec = suffix 0 }) [])
      → 0 < len
      → (parse to_str (some value) len ≡ satisfiable (record { start = len; end = len } ∷ []))
        × (satisfies (suffix 0) len ≡ none)
  parse-empty_suffix text some_bytes = (
    parse-print_one (suffix 0) (push (record { start = len; end = len })) text
          (parse_spec-suffix ows 0 len blank (omega arith) ∙ unfold resolve_suffix in ground arith)
        ∙ unfold resolved in refl,
    refl,
  )

  -- With the largest `u64` for its last position, a range that starts within the entity is refused:
  -- the `+ 1` wraps to zero. RFC 7233 means the bytes up to the end of the entity.
  pub parse-last_max :
      (a : ℕ)
      → to_str value ≡ some (print_set (record { ows = ows; spec = closed a u64_max }) [])
      → a < len
      → len ≤ u64_max
      → (parse to_str (some value) len ≡ not_satisfiable)
        × (satisfies (closed a u64_max) len ≡ some (record { start = a; end = len }))
  parse-last_max a text inside fits = (
    parse-print_one (closed a u64_max) skip text (
          parse_spec-first ows (fmt_decimal u64_max) a len blank (omega arith)
          ∙ ap (resolve_first (some a)) (parse_end-fmt_decimal u64_max len (omega arith))
          ∙ unfold resolve_first resolve_end in ground arith)
        ∙ unfold resolved in refl,
    ground arith,
  )
