-- ===== src/Prepare/Length.antt =====
-- The length that is announced for a multipart body is that of its parts.
use http_serve.Base.{
  ℕ, ◌+◌, ◌≤◌, ◌≡◌, refl, sym, ◌∙◌, Option, none, some, List, [], ◌∷◌, ◌++◌, append_assoc,
  append-nil, arith, Bytes, ok, bind-eq-ok, length, All, u64_max, checked_add, wrapping_sub,
  wrapping_sub_lem, ◌>>=◌, ap,
}
use http_serve.Http.{HttpCrates, HeaderMap, Builder}
use http_serve.Range.{ByteRange}
use http_serve.Multipart.{part_trailer}
use http_serve.Multipart.Invariant.{parts_len, IsRange}
use http_serve.Prepare.{
  ok_or_overflow, checked_add_to, part_headers_of, part_header, add_parts, add_trailer,
  multipart_builder, prepare_multipart,
}

abbrev pub headers_for : Bytes → ℕ → List ByteRange → List Bytes
headers_for each len [] = []
headers_for each len (r ∷ rs) = part_header each len r ∷ headers_for each len rs

pub length-headers_for :
    (each : Bytes) (len : ℕ) (rs : List ByteRange) → length (headers_for each len rs) ≡ length rs
length-headers_for each len [] = refl
length-headers_for each len (r ∷ rs) = omega (arith, length-headers_for each len rs)

ok_or_overflow-eq : (o : Option ℕ) (l : ℕ) → ok_or_overflow o ≡ ok l → o ≡ some l
ok_or_overflow-eq none l e = cc
ok_or_overflow-eq (some a) l e = cc

checked_add-eq : (a b l : ℕ) → checked_add a b ≡ some l → (l ≡ a + b) × (l ≤ u64_max)
checked_add-eq a b l e = ground arith

checked_add_to-eq :
    (o : Option ℕ) (b l : ℕ)
    → checked_add_to o b ≡ some l
    → (a : ℕ) × (o ≡ some a) × (l ≡ a + b) × (l ≤ u64_max)
checked_add_to-eq none b l e = cc
checked_add_to-eq (some a) b l e =
    let (sum, small) = checked_add-eq a b l e in (a, refl, sum, small)

-- What the loop comes to when nothing overflows.
add_parts-ok :
    (each : Bytes) (len : ℕ) (rs : List ByteRange) (before total : ℕ) (acc hs : List Bytes)
    → All IsRange rs
    → before ≤ u64_max
    → add_parts each len rs before acc ≡ ok (total, hs)
    → (hs ≡ acc ++ headers_for each len rs)
      × (total ≡ before + parts_len (headers_for each len rs) rs)
      × (total ≤ u64_max)
unfolding add_parts
add_parts-ok each len [] before total acc hs valid fits e =
    let same : (total ≡ before) × (hs ≡ acc) = (cc, cc) in
    (same.1 ∙ sym (append-nil acc), omega arith, omega arith)
add_parts-ok each len (r ∷ rs) before total acc hs valid fits e =
    let buf = part_header each len r in
    let (l, got, next) =
      bind-eq-ok
        (ok_or_overflow
          (checked_add_to (checked_add before (length buf)) (wrapping_sub r.end r.start)))
        (λ l. add_parts each len rs l (acc ++ buf ∷ [])) e in
    let (a, first, sum, small) =
      checked_add_to-eq (checked_add before (length buf)) (wrapping_sub r.end r.start) l
        (ok_or_overflow-eq _ l got) in
    let (sum', _) = checked_add-eq before (length buf) a first in
    let width = wrapping_sub_lem r.end r.start valid.0.0 valid.0.1 in
    let (same, rest, bound) =
      add_parts-ok each len rs l total (acc ++ buf ∷ []) hs valid.1 small next in
    (same ∙ append_assoc acc (buf ∷ []) (headers_for each len rs), omega arith, bound)

-- When the length fits, there is a header for each range, and the length that is announced is that
-- of the headers, the ranges and the trailer.
pub prepare_multipart-length :
    (crates : HttpCrates) (res res' : Builder) (ranges : List ByteRange) (len total : ℕ)
    (include_entity_headers : Option HeaderMap) (hs : List Bytes)
    → All IsRange ranges
    → prepare_multipart crates res ranges len include_entity_headers ≡ ok (res', (hs, total))
    → (hs ≡ headers_for (part_headers_of crates include_entity_headers) len ranges)
      × (total ≡ parts_len hs ranges + length part_trailer)
      × (total ≤ u64_max)
      × (res' ≡ multipart_builder res total)
unfolding prepare_multipart
prepare_multipart-length crates res res' ranges len total h hs valid e =
    let each = part_headers_of crates h in
    let (parts, made, e') =
      bind-eq-ok (add_parts each len ranges 0 [])
        (λ parts. add_trailer parts.0 >>= λ l. ok (multipart_builder res l, (parts.1, l))) e in
    let (l, added, e'') =
      bind-eq-ok (add_trailer parts.0) (λ l. ok (multipart_builder res l, (parts.1, l))) e' in
    let (same, sum, _) =
      add_parts-ok each len ranges 0 parts.0 [] parts.1 valid (omega arith) made in
    let (sum', small) =
      checked_add-eq parts.0 (length part_trailer) l (ok_or_overflow-eq _ l added) in
    let eqs : (res' ≡ multipart_builder res l) × (hs ≡ parts.1) × (total ≡ l) = (cc, cc, cc) in
    let made_of = eqs.1 ∙ same in
    let owed = ap (λ x. parts_len x ranges) made_of in
    (
      made_of,
      omega (arith, sum, sum', eqs.2, owed),
      omega (arith, eqs.2),
      eqs.0 ∙ ap (multipart_builder res) (sym eqs.2),
    )
