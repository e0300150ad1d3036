-- ===== src/Negotiation/Accepts.antt =====
-- What an Accept-Encoding header comes to.
use http_serve.Base.{
  subst, ℕ, ◌≡◌, refl, sym, ap, ◌∙◌, true, false, ◌&&◌, Option, none, some, List, [], ◌∷◌, arith,
  Bytes, codes, bytes_eq, bytes_eq_iff, map, All, if◌then◌else◌, ltb, leb,
}
use http_serve.Std.Str.Laws.{Lacks, join, split-join}
use http_serve.Http.{HttpCrates, RequestHeaders, accept_encoding}
use http_serve.Negotiation.Grammar.{Coded, text, quality, IsCoded}
use http_serve.Negotiation.Parts.{text-Lacks, parse_part-text}
use http_serve.Negotiation.{
  Qualities, no_qualities, record_quality, or_else, unwrap_or_number, prefers_gzip, on_part,
  each_part, gzip_text, gzip_header, should_gzip,
}

abbrev here : Bytes → Coded → Option ℕ
here name i = if bytes_eq i.coding name then some (quality i) else none

-- The quality that is last given to a coding.
abbrev pub last_quality : Bytes → List Coded → Option ℕ
last_quality name [] = none
last_quality name (i ∷ is) = or_else (last_quality name is) (here name i)

-- The qualities of gzip and of no coding: their own, else that of `*`, else 0 and 1.
abbrev pub gzip_quality : List Coded → ℕ
gzip_quality is =
    unwrap_or_number (or_else (last_quality (codes "gzip") is) (last_quality (codes "*") is)) 0

abbrev pub identity_quality : List Coded → ℕ
identity_quality is =
    unwrap_or_number (or_else (last_quality (codes "identity") is) (last_quality (codes "*") is)) 1

or_else_assoc : (a b c : Option ℕ) → or_else a (or_else b c) ≡ or_else (or_else a b) c
or_else_assoc none b c = refl
or_else_assoc (some x) b c = refl

or_else-none : (a : Option ℕ) → or_else a none ≡ a
or_else-none none = refl
or_else-none (some x) = refl

-- What one part adds.
abbrev added : List Coded → Qualities → Qualities
added is q = record {
  gzip_q = or_else (last_quality (codes "gzip") is) q.gzip_q;
  identity_q = or_else (last_quality (codes "identity") is) q.identity_q;
  star_q = or_else (last_quality (codes "*") is) q.star_q;
}

apart : (c a b : Bytes) → bytes_eq a b ≡ false → bytes_eq c a ≡ true → bytes_eq c b ≡ false
apart c a b h e = subst (λ x. bytes_eq x b ≡ false) (sym ((bytes_eq_iff c a).0 e)) h

record_quality-added :
    (i : Coded) (q : Qualities) → record_quality i.coding (quality i) q ≡ added (i ∷ []) q
unfolding record_quality
record_quality-added i q =
    let c = i.coding in
    ground (
      arith,
      apart c (codes "gzip") (codes "identity") (unfold bytes_eq in refl),
      apart c (codes "gzip") (codes "*") (unfold bytes_eq in refl),
      apart c (codes "identity") (codes "*") (unfold bytes_eq in refl),
    )

each_part-added :
    (is : List Coded) (q : Qualities)
    → All IsCoded is
    → each_part (map text is) q ≡ prefers_gzip (added is q)
unfolding each_part
each_part-added [] q h = refl
each_part-added (i ∷ is) q h =
    let rest = map text is in
    ap (λ p. on_part p q (each_part rest)) (parse_part-text i h.0)
    ∙ ap (each_part rest) (record_quality-added i q)
    ∙ each_part-added is (added (i ∷ []) q) h.1
    ∙ ap prefers_gzip {x = added is (added (i ∷ []) q)} {y = added (i ∷ is) q} (
        rw
          (
            or_else_assoc (last_quality (codes "gzip") is) (here (codes "gzip") i) q.gzip_q,
            or_else_assoc (last_quality (codes "identity") is) (here (codes "identity") i)
                q.identity_q,
            or_else_assoc (last_quality (codes "*") is) (here (codes "*") i) q.star_q,
          )
          refl)

All-Lacks : (is : List Coded) → All IsCoded is → All (Lacks b',') (map text is)
All-Lacks [] h = tt
All-Lacks (i ∷ is) h = (text-Lacks i h.0, All-Lacks is h.1)

-- An Accept-Encoding header of codings, each with a weight or none, as RFC 7231 writes them (with
-- `q` in lower case, and blanks around a part but not around its `=`): gzip is used exactly if its
-- quality is positive and not below that of no coding at all. The quality of a coding is the value of
-- its last weight, 1 if that is missing; that of gzip or of `identity` where it is not listed is that
-- of `*`, else 0 and 0.001. Codings are told apart byte by byte, `GZIP` from `gzip` too.
pub should_gzip-join :
    (crates : HttpCrates) (headers : RequestHeaders) (value : Bytes) (i : Coded) (is : List Coded)
    → headers accept_encoding ≡ some value
    → crates.to_str value ≡ some (join b',' (text i) (map text is))
    → All IsCoded (i ∷ is)
    → should_gzip crates headers
      ≡ (ltb 0 (gzip_quality (i ∷ is)) && leb (identity_quality (i ∷ is)) (gzip_quality (i ∷ is)))
unfolding should_gzip
should_gzip-join crates headers value i is sent same h =
    ap (gzip_header crates) sent
    ∙ ap gzip_text same
    ∙ ap (λ parts. each_part parts no_qualities)
        (split-join b',' (text i) (map text is) (text-Lacks i h.0) (All-Lacks is h.1))
    ∙ each_part-added (i ∷ is) no_qualities h
    ∙ rw
        (
          or_else-none (last_quality (codes "gzip") (i ∷ is)),
          or_else-none (last_quality (codes "identity") (i ∷ is)),
          or_else-none (last_quality (codes "*") (i ∷ is)),
        )
        refl
