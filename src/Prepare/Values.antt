-- ===== src/Prepare/Values.antt =====
-- The values of headers that are made without a check, and those of a multipart response.
use http_serve.Base.{
  ℕ, ◌+◌, ◌≤◌, ◌≡◌, refl, Option, [], ◌∷◌, ◌++◌, arith, codes, Bytes, All, All-append, length,
  length-append, wrapping_sub, ◌*◌, subst, List, ok, ◌>>=◌, bind-eq-ok,
}
use http_serve.Std.Num.{fmt_decimal}
use http_serve.Std.Num.Texts.{IsText, append-IsText, fmt_decimal-IsText, length-fmt_decimal}
use http_serve.Range.{ByteRange}
use http_serve.Http.{
  HttpCrates, HeaderName, HeaderMap, Builder, with_header, content_length, content_range,
  content_type,
}
use http_serve.Prepare.{
  fmt_content_range, prepare_multipart, multipart_builder, add_parts, part_headers_of, add_trailer,
}

-- The bytes that the code reserves for a value: `MAX_DECIMAL_U64_BYTES`, and for `bytes {}-{}/{}` three
-- times that and the other bytes.
abbrev pub Capacity : HeaderName → Bytes → Type 0
Capacity content_length v = length v ≤ 20
Capacity content_range v = length v ≤ 20 * 3 + length (codes "bytes -/")
Capacity _ v = Unit

abbrev pub IsValue : HeaderName × Bytes → Type 0
IsValue (k, v) = IsText v × Capacity k v

abbrev pub AreValues : HeaderMap → Type 0
AreValues = All IsValue

pub with_header-AreValues :
    (b : Builder) (k : HeaderName) (v : Bytes)
    → AreValues b.headers
    → IsText v
    → Capacity k v
    → AreValues (with_header b k v).headers
with_header-AreValues b k v h text fits =
    All-append IsValue b.headers ((k, v) ∷ []) h ((text, fits), tt)

pub fmt_content_range-Fits :
    (r : ByteRange) (len : ℕ)
    → IsText (fmt_content_range r len) × (length (fmt_content_range r len) ≤ 62)
unfolding fmt_content_range
fmt_content_range-Fits r len =
    let last = fmt_decimal (wrapping_sub r.end 1) in
    let end = codes "/" ++ fmt_decimal len in
    (
      append-IsText (fmt_decimal r.start) (codes "-" ++ (last ++ end)) (fmt_decimal-IsText r.start)
          (append-IsText last end (fmt_decimal-IsText (wrapping_sub r.end 1))
            (fmt_decimal-IsText len)),
      omega (
        arith,
        length-append (fmt_decimal r.start) (codes "-" ++ (last ++ end)),
        length-append last end,
        length-fmt_decimal r.start,
        length-fmt_decimal (wrapping_sub r.end 1),
        length-fmt_decimal len,
      ),
    )

multipart_builder-AreValues :
    (res : Builder) (n : ℕ) → AreValues res.headers → AreValues (multipart_builder res n).headers
multipart_builder-AreValues res n h =
    with_header-AreValues (with_header res content_length (fmt_decimal n)) content_type
      (codes "multipart/byteranges; boundary=B")
      (with_header-AreValues res content_length (fmt_decimal n) h (fmt_decimal-IsText n)
        (length-fmt_decimal n))
      refl tt

pub prepare_multipart-AreValues :
    (crates : HttpCrates) (len : ℕ) (res res' : Builder) (ranges : List ByteRange)
    (h : Option HeaderMap) (hs : List Bytes) (total : ℕ)
    → AreValues res.headers
    → prepare_multipart crates res ranges len h ≡ ok (res', (hs, total))
    → AreValues res'.headers
unfolding prepare_multipart
prepare_multipart-AreValues crates len res res' ranges h hs total hv e =
    let (parts, _, e') =
      bind-eq-ok (add_parts (part_headers_of crates h) len ranges 0 [])
        (λ parts. add_trailer parts.0 >>= λ l. ok (multipart_builder res l, (parts.1, l))) e in
    let (l, _, e'') =
      bind-eq-ok (add_trailer parts.0) (λ l. ok (multipart_builder res l, (parts.1, l))) e' in
    let built : multipart_builder res l ≡ res' = cc in
    subst (λ b. AreValues b.headers) built (multipart_builder-AreValues res l hv)
