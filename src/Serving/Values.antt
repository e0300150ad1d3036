-- ===== src/Serving/Values.antt =====
-- The values of the response's headers that are made without a check.
use http_serve.Base.{
  ℕ, ◌≡◌, refl, min, Option, none, some, [], ◌∷◌, ◌++◌, arith, codes, Bytes, wrapping_sub, Bool,
  true, false, List, if◌then◌else◌, Result, ok, err,
}
use http_serve.Std.Num.{fmt_decimal}
use http_serve.Std.Num.Texts.{IsText, fmt_decimal-IsText, length-fmt_decimal}
use http_serve.Http.{
  Method, get, head, other, RequestHeaders, SystemTime, HttpCrates, HeaderName, HeaderMap, Builder,
  with_header, content_length, content_range, content_type, if_range, range, etag, date,
  last_modified, accept_ranges, allow,
}
use http_serve.Range.{ByteRange, ResolvedRanges, absent, not_satisfiable, satisfiable, parse}
use http_serve.Body.{StreamApi}
use http_serve.Prepare.{fmt_content_range, prepare_multipart, MultipartLenOverflowError}
use http_serve.Serving.{
  Entity, ServeInner, respond, entity_builder, tag_header, date_headers, on_ranges, serve,
  range_builder, several_ranges, one_range, on_conditions, entity_headers, serve_inner, prepared,
  if_range_range, each_part, is_below, parse_modified_hdrs, estimate,
}
use http_serve.Prepare.Values.{
  AreValues, with_header-AreValues, fmt_content_range-Fits, prepare_multipart-AreValues,
}

-- What the code relies on: the entity tag is a header value of this kind, `fmt_http_date` prints such
-- values, and `add_headers` adds only such headers.
pub record MakesValues (crates : HttpCrates) (ent : Entity) : Type 0 where
  pub tag_text : (e : Bytes) → ent.tag ≡ some e → IsText e
  pub date_text : (d : SystemTime) → IsText (crates.fmt_http_date d)
  pub added : (h : HeaderMap) → AreValues h → AreValues (ent.add_headers h)

module _ {D E S : Type 0} (api : StreamApi D E S) (crates : HttpCrates) (ent : Entity)
    (makes : MakesValues crates ent) where
  abbrev Valued : ServeInner D E S → Type 0
  Valued x = AreValues (respond x).parts.headers

  entity_builder-AreValues : (now : SystemTime) → AreValues (entity_builder crates now ent).headers
  entity_builder-AreValues now = tagged ent.tag makes.tag_text _ (dated ent.modified)
    where
      bytes : Builder
      bytes = record {
        status = http_serve.Http.status_ok;
        headers = (accept_ranges, codes "bytes") ∷ [];
      }

      dated : (m : Option SystemTime) → AreValues (date_headers crates now m bytes).headers
      dated none = ((refl, tt), tt)
      dated (some m) =
          ((refl, tt), ((makes.date_text now, tt), ((makes.date_text (min m now), tt), tt)))

      tagged :
          (t : Option Bytes)
          → ((e : Bytes) → t ≡ some e → IsText e)
          → (b : Builder) → AreValues b.headers
          → AreValues (tag_header t b).headers
      tagged none text b h = h
      tagged (some e) text b h = with_header-AreValues b etag e h (text e refl) tt

  one_range-Valued :
      (m : Method) (res : Builder) (r : ByteRange) (include : Bool)
      → AreValues res.headers
      → Valued (one_range api crates ent m res r include)
  unfolding one_range
  one_range-Valued m res r include h = entity_headers-AreValues include _ (
      with_header-AreValues res content_length (fmt_decimal n) h (fmt_decimal-IsText n)
        (length-fmt_decimal n))
    where
      n : ℕ
      n = wrapping_sub r.end r.start

      entity_headers-AreValues :
          (b : Bool) (hs : HeaderMap) → AreValues hs → AreValues (entity_headers b ent hs)
      entity_headers-AreValues false hs hv = hv
      entity_headers-AreValues true hs hv = makes.added hs hv

  prepared-Valued :
      (m : Method) (res : Builder) (ranges : List ByteRange) (h : Option HeaderMap)
      (o : Result (Builder × (List Bytes × ℕ)) MultipartLenOverflowError)
      → AreValues res.headers
      → prepare_multipart crates res ranges ent.len h ≡ o
      → Valued (prepared api crates ent m ranges o)
  prepared-Valued m res ranges h (err e) hv eq = tt
  prepared-Valued head res ranges h (ok (res', (hs, total))) hv eq =
      prepare_multipart-AreValues crates ent.len res res' ranges h hs total hv eq
  prepared-Valued get res ranges h (ok (res', (hs, total))) hv eq =
      prepare_multipart-AreValues crates ent.len res res' ranges h hs total hv eq
  prepared-Valued other res ranges h (ok (res', (hs, total))) hv eq =
      prepare_multipart-AreValues crates ent.len res res' ranges h hs total hv eq

  several_ranges-Valued :
      (m : Method) (res : Builder) (ranges : List ByteRange) (include : Bool)
      → AreValues res.headers
      → Valued (several_ranges api crates ent m res ranges include)
  unfolding several_ranges
  several_ranges-Valued m res ranges include hv = go (is_below (estimate ranges (some 0)) ent.len)
    where
      go :
          (b : Bool)
          → Valued (
              if b
              then prepared api crates ent m ranges
                  (prepare_multipart crates res ranges ent.len (each_part include ent))
              else one_range api crates ent m res (record { start = 0; end = ent.len }) true)
      go true = prepared-Valued m res ranges (each_part include ent) _ hv refl
      go false = one_range-Valued m res (record { start = 0; end = ent.len }) true hv

  range_builder-AreValues :
      (res : Builder) (r : ByteRange)
      → AreValues res.headers
      → AreValues (range_builder res r ent.len).headers
  unfolding range_builder
  range_builder-AreValues res r h =
      let (text, fits) = fmt_content_range-Fits r ent.len in
      with_header-AreValues res content_range (codes "bytes " ++ fmt_content_range r ent.len) h text
        (omega arith)

  on_ranges-Valued :
      (m : Method) (res : Builder) (include : Bool) (rs : ResolvedRanges)
      → AreValues res.headers
      → Valued (on_ranges api crates ent m res include rs)
  unfolding on_ranges
  on_ranges-Valued m res include absent h =
      one_range-Valued m res (record { start = 0; end = ent.len }) true h
  on_ranges-Valued m res include not_satisfiable h =
      with_header-AreValues res content_range (codes "bytes */" ++ fmt_decimal ent.len) h
        (fmt_decimal-IsText ent.len) (omega (arith, length-fmt_decimal ent.len))
  on_ranges-Valued m res include (satisfiable []) h = several_ranges-Valued m res [] include h
  on_ranges-Valued m res include (satisfiable (r ∷ [])) h =
      one_range-Valued m (range_builder res r ent.len) r include (range_builder-AreValues res r h)
  on_ranges-Valued m res include (satisfiable (r ∷ q ∷ rs)) h =
      several_ranges-Valued m res (r ∷ q ∷ rs) include h

  on_conditions-Valued :
      (m : Method) (res : Builder) (range_hdr : Option Bytes × Bool)
      (c : Result (Bool × Bool) Bytes)
      → AreValues res.headers
      → Valued (on_conditions api crates ent m res range_hdr c)
  unfolding on_conditions
  on_conditions-Valued m res range_hdr (err s) h = tt
  on_conditions-Valued m res range_hdr (ok (true, unmodified)) h = h
  on_conditions-Valued m res range_hdr (ok (false, true)) h = h
  on_conditions-Valued m res (range_hdr, include) (ok (false, false)) h =
      on_ranges-Valued m res include (parse crates.to_str range_hdr ent.len) h

  -- For every request, if the entity's tag, its own headers and the printed dates are visible ASCII:
  -- so is the value of every header of the response, and the numbers in Content-Length and
  -- Content-Range fit in the bytes that the code reserves for them, 20 and 68.
  pub serve-AreValues :
      (now : SystemTime) (m : Method) (req_hdrs : RequestHeaders)
      → AreValues (serve api crates ent now m req_hdrs).parts.headers
  unfolding serve serve_inner
  serve-AreValues now other req_hdrs = ((refl, tt), tt)
  serve-AreValues now get req_hdrs =
      on_conditions-Valued get (entity_builder crates now ent)
        (if_range_range (req_hdrs if_range) ent.tag (req_hdrs range))
        (parse_modified_hdrs crates ent.tag req_hdrs ent.modified) (entity_builder-AreValues now)
  serve-AreValues now head req_hdrs =
      on_conditions-Valued head (entity_builder crates now ent)
        (if_range_range (req_hdrs if_range) ent.tag (req_hdrs range))
        (parse_modified_hdrs crates ent.tag req_hdrs ent.modified) (entity_builder-AreValues now)
