-- ===== src/Serving.antt =====
-- src/serving.rs: `serve`, which answers a GET or HEAD request for an entity.
pub mod Announced
pub mod Contents
pub mod Dates
pub mod Asks
pub mod Decides
pub mod Rfc
pub mod Head
pub mod IfRange
pub mod Matched
pub mod Ranged
pub mod Values
use http_serve.Base.{
  ℕ, Bool, true, false, Option, none, some, List, [], ◌∷◌, ◌++◌, if◌then◌else◌, ltb, min, Bytes,
  codes, Result, ok, err, wrapping_sub, ◌==◌,
}
use http_serve.Std.Num.{fmt_decimal}
use http_serve.Http.{
  Method, get, head, other, status_ok, partial_content, not_modified, bad_request,
  method_not_allowed, precondition_failed, payload_too_large, range_not_satisfiable, RequestHeaders,
  SystemTime, HttpCrates, HeaderMap, Builder, with_header, with_status, allow, accept_ranges, date,
  last_modified, etag, content_range, content_length, range, if_range,
}
use http_serve.Range.{ByteRange, ResolvedRanges, absent, not_satisfiable, satisfiable, parse}
use http_serve.Body.{StreamApi}
use http_serve.Multipart.{new}
use http_serve.Stream.{BodyStream, exact_len, multipart, empty, from_text}
use http_serve.Conditions.{parse_modified_hdrs, if_range_range}
use http_serve.Prepare.{
  MultipartLenOverflowError, checked_add_to, fmt_content_range, prepare_multipart,
}

-- What `serve_inner` asks of an entity, but for `get_range`, which is in the streams' interface.
pub record Entity : Type 0 where
  pub len : ℕ
  pub tag : Option Bytes
  pub modified : Option SystemTime
  pub add_headers : HeaderMap → HeaderMap

-- `Entity::is_empty`
abbrev pub is_empty : Entity → Bool
is_empty ent = ent.len == 0

pub record Response (D E S : Type 0) : Type 0 where
  pub parts : Builder
  pub body : BodyStream D E S

pub data ServeInner (D E S : Type 0) : Type 0 where
  simple : Response D E S → ServeInner D E S
  in_parts : Builder → List Bytes → List ByteRange → ℕ → ServeInner D E S

abbrev pub builder : Builder
builder = record { status = status_ok; headers = [] }

-- the sum of the ranges' lengths with 80 bytes for each
unfoldable pub estimate : List ByteRange → Option ℕ → Option ℕ
estimate [] acc = acc
estimate (r ∷ rs) acc =
    estimate rs (checked_add_to (checked_add_to acc 80) (wrapping_sub r.end r.start))

abbrev pub is_below : Option ℕ → ℕ → Bool
is_below none len = false
is_below (some l) len = ltb l len

abbrev pub tag_header : Option Bytes → Builder → Builder
tag_header none res = res
tag_header (some e) res = with_header res etag e

abbrev pub date_headers : HttpCrates → SystemTime → Option SystemTime → Builder → Builder
date_headers crates now none res = res
date_headers crates now (some m) res =
    with_header (with_header res date (crates.fmt_http_date now)) last_modified
      (crates.fmt_http_date (min m now))

-- the headers of every response but the errors
abbrev pub entity_builder : HttpCrates → SystemTime → Entity → Builder
entity_builder crates now ent =
    tag_header ent.tag
      (date_headers crates now ent.modified (with_header builder accept_ranges (codes "bytes")))

-- the headers in front of a single range
unfoldable pub range_builder : Builder → ByteRange → ℕ → Builder
unfolding fmt_content_range
range_builder res r len =
    with_status (with_header res content_range (codes "bytes " ++ fmt_content_range r len))
      partial_content

abbrev pub entity_headers : Bool → Entity → HeaderMap → HeaderMap
entity_headers false ent h = h
entity_headers true ent h = ent.add_headers h

abbrev pub each_part : Bool → Entity → Option HeaderMap
each_part false ent = none
each_part true ent = some (ent.add_headers [])

-- what `serve` makes of an instruction
abbrev pub respond : {D E S : Type 0} → ServeInner D E S → Response D E S
respond (simple res) = res
respond (in_parts res part_headers ranges len) = record {
  parts = res;
  body = multipart (new part_headers ranges len);
}

module _ {D E S : Type 0} (api : StreamApi D E S) (crates : HttpCrates) (ent : Entity) where
  open api use {get_range}

  abbrev pub body_of : Method → ByteRange → BodyStream D E S
  body_of head r = empty
  body_of _ r = exact_len (record { stream = get_range r; remaining = wrapping_sub r.end r.start })

  -- the end of `serve_inner`, with one range of the entity or all of it
  unfoldable pub one_range : Method → Builder → ByteRange → Bool → ServeInner D E S
  one_range m res r include_entity_headers =
      let b = with_header res content_length (fmt_decimal (wrapping_sub r.end r.start)) in
      simple (record {
        parts = record b { headers = entity_headers include_entity_headers ent b.headers };
        body = body_of m r;
      })

  -- what `prepare_multipart` gave
  abbrev pub prepared :
      Method
      → List ByteRange
      → Result (Builder × (List Bytes × ℕ)) MultipartLenOverflowError
      → ServeInner D E S
  prepared m ranges (err e) = simple (record {
    parts = with_status builder payload_too_large;
    body = from_text api (codes "Multipart response too large");
  })
  prepared head ranges (ok (res, (part_headers, len))) =
      simple (record { parts = res; body = empty })
  prepared _ ranges (ok (res, (part_headers, len))) = in_parts res part_headers ranges len

  unfoldable pub several_ranges : Method → Builder → List ByteRange → Bool → ServeInner D E S
  unfolding estimate prepare_multipart one_range
  several_ranges m res ranges include =
      if is_below (estimate ranges (some 0)) ent.len
      then prepared m ranges (prepare_multipart crates res ranges ent.len (each_part include ent))
      else one_range m res (record { start = 0; end = ent.len }) true

  unfoldable pub on_ranges : Method → Builder → Bool → ResolvedRanges → ServeInner D E S
  unfolding several_ranges one_range range_builder
  on_ranges m res include absent = one_range m res (record { start = 0; end = ent.len }) true
  on_ranges m res include (satisfiable (r ∷ [])) =
      one_range m (range_builder res r ent.len) r include
  on_ranges m res include (satisfiable ranges) = several_ranges m res ranges include
  on_ranges m res include not_satisfiable = simple (record {
    parts =
        with_status (with_header res content_range (codes "bytes */" ++ fmt_decimal ent.len))
          range_not_satisfiable;
    body = empty;
  })

  -- what `parse_modified_hdrs` gave, and then the Range header that counts
  unfoldable pub on_conditions :
      Method → Builder → Option Bytes × Bool → Result (Bool × Bool) Bytes → ServeInner D E S
  unfolding on_ranges parse
  on_conditions m res range_hdr (err s) =
      simple (record { parts = with_status builder bad_request; body = from_text api s })
  on_conditions m res range_hdr (ok (true, unmodified)) = simple (record {
    parts = with_status res precondition_failed;
    body = from_text api (codes "Precondition failed");
  })
  on_conditions m res range_hdr (ok (false, true)) =
      simple (record { parts = with_status res not_modified; body = empty })
  on_conditions m res (range_hdr, include) (ok (false, false)) =
      on_ranges m res include (parse crates.to_str range_hdr ent.len)

  abbrev serve_allowed : SystemTime → Method → RequestHeaders → ServeInner D E S
  serve_allowed now m req_hdrs =
      on_conditions m (entity_builder crates now ent)
        (if_range_range (req_hdrs if_range) ent.tag (req_hdrs range))
        (parse_modified_hdrs crates ent.tag req_hdrs ent.modified)

  -- `now` is what `SystemTime::now` gives.
  unfoldable pub serve_inner : SystemTime → Method → RequestHeaders → ServeInner D E S
  unfolding on_conditions if_range_range parse_modified_hdrs
  serve_inner now other req_hdrs = simple (record {
    parts = with_header (with_status builder method_not_allowed) allow (codes "get, head");
    body = from_text api (codes "This resource only supports GET and HEAD.");
  })
  serve_inner now get req_hdrs = serve_allowed now get req_hdrs
  serve_inner now head req_hdrs = serve_allowed now head req_hdrs

  unfoldable pub serve : SystemTime → Method → RequestHeaders → Response D E S
  unfolding serve_inner new
  serve now m req_hdrs = respond (serve_inner now m req_hdrs)
