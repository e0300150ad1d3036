-- ===== src/Prepare.antt =====
-- src/serving.rs: the part headers and the length of a multipart/byteranges body.
pub mod Length
pub mod Values
use http_serve.Base.{
  ℕ, ◌-◌, ◌+◌, Bool, Option, none, some, List, [], ◌∷◌, ◌++◌, if◌then◌else◌, ltb, Bytes, codes,
  Result, ok, err, ◌>>=◌, length, wrapping_sub, checked_add, ◌/◌,
}
use http_serve.Std.Num.{fmt_decimal}
use http_serve.Http.{
  HttpCrates, HeaderMap, Builder, with_header, with_status, content_length, content_type,
  partial_content,
}
use http_serve.Range.{ByteRange}
use http_serve.Multipart.{part_trailer}

pub data MultipartLenOverflowError : Type 0 where
  multipart_len_overflow_error : MultipartLenOverflowError

abbrev pub ok_or_overflow : Option ℕ → Result ℕ MultipartLenOverflowError
ok_or_overflow none = err multipart_len_overflow_error
ok_or_overflow (some l) = ok l

abbrev pub checked_add_to : Option ℕ → ℕ → Option ℕ
checked_add_to none b = none
checked_add_to (some a) b = checked_add a b

-- The entity's headers, as each part repeats them.
unfoldable pub each_part_headers : HttpCrates → HeaderMap → Bytes
each_part_headers crates [] = []
each_part_headers crates ((k, v) ∷ h) =
    crates.as_str k ++ (codes ": " ++ (v ++ (codes "\r\n" ++ each_part_headers crates h)))

abbrev pub part_headers_of : HttpCrates → Option HeaderMap → Bytes
part_headers_of crates none = []
part_headers_of crates (some h) = each_part_headers crates h

-- `{}-{}/{}` of the first and the last position and the length
unfoldable pub fmt_content_range : ByteRange → ℕ → Bytes
fmt_content_range r len =
    fmt_decimal r.start
    ++ (codes "-" ++ (fmt_decimal (wrapping_sub r.end 1) ++ (codes "/" ++ fmt_decimal len)))

unfoldable pub part_header : Bytes → ℕ → ByteRange → Bytes
part_header each len r =
    codes "\r\n--B\r\nContent-Range: bytes "
    ++ (fmt_content_range r len ++ (codes "\r\n" ++ (each ++ codes "\r\n")))

-- The loop over the ranges, from a `body_len` and the part headers so far.
unfoldable pub add_parts :
    Bytes → ℕ → List ByteRange → ℕ → List Bytes → Result (ℕ × List Bytes) MultipartLenOverflowError
add_parts each len [] body_len part_headers = ok (body_len, part_headers)
add_parts each len (r ∷ rs) body_len part_headers =
    let buf = part_header each len r in
    ok_or_overflow (checked_add_to (checked_add body_len (length buf)) (wrapping_sub r.end r.start))
    >>= λ l. add_parts each len rs l (part_headers ++ buf ∷ [])

abbrev pub add_trailer : ℕ → Result ℕ MultipartLenOverflowError
add_trailer body_len = ok_or_overflow (checked_add body_len (length part_trailer))

abbrev pub multipart_builder : Builder → ℕ → Builder
multipart_builder res body_len =
    with_status
      (with_header (with_header res content_length (fmt_decimal body_len)) content_type
        (codes "multipart/byteranges; boundary=B"))
      partial_content

unfoldable pub prepare_multipart :
    HttpCrates
    → Builder
    → List ByteRange
    → ℕ
    → Option HeaderMap
    → Result (Builder × (List Bytes × ℕ)) MultipartLenOverflowError
unfolding add_parts
prepare_multipart crates res ranges len include_entity_headers =
    add_parts (part_headers_of crates include_entity_headers) len ranges 0 [] >>= λ parts.
    add_trailer parts.0 >>= λ body_len. ok (multipart_builder res body_len, (parts.1, body_len))
