-- ===== src/Conditions.antt =====
-- src/serving.rs: which preconditions of a request hold, and whether its Range header counts.
use http_serve.Base.{
  Bool, true, false, ◌||◌, Option, none, some, if◌then◌else◌, ltb, leb, Bytes, codes, Result, ok,
  err, ◌>>=◌,
}
use http_serve.Std.Str.{starts_with}
use http_serve.Http.{RequestHeaders, SystemTime, HttpCrates, if_unmodified_since, if_modified_since}
use http_serve.Etag.{none_match, any_match, strong_eq}

abbrev ok_or : Option SystemTime → Bytes → Result SystemTime Bytes
ok_or none e = err e
ok_or (some d) e = ok d

module _ (crates : HttpCrates) where
  open crates use {to_str, parse_http_date}

  abbrev parse_text_date : Option Bytes → Option SystemTime
  parse_text_date none = none
  parse_text_date (some s) = parse_http_date s

  -- `parse_http_date(since.to_str()…?)…?`, with the one error for both
  abbrev pub parse_date : Bytes → Bytes → Result SystemTime Bytes
  parse_date error since = ok_or (parse_text_date (to_str since)) error

  unfoldable pub modified_after : Option SystemTime → Option Bytes → Result Bool Bytes
  modified_after (some m) (some since) =
      parse_date (codes "Unparseable If-Unmodified-Since") since >>= λ date. ok (ltb date m)
  modified_after _ _ = ok false

  -- whether `any_match` holds
  abbrev pub precondition : Bool → Option SystemTime → Option Bytes → Result Bool Bytes
  precondition false last_modified since = ok true
  precondition true last_modified since = modified_after last_modified since

  unfoldable pub not_modified_since : Option SystemTime → Option Bytes → Result Bool Bytes
  not_modified_since (some m) (some since) =
      parse_date (codes "Unparseable If-Modified-Since") since >>= λ date. ok (leb m date)
  not_modified_since _ _ = ok false

  -- what `none_match` gave
  abbrev pub unmodified : Option Bool → Option SystemTime → Option Bytes → Result Bool Bytes
  unmodified (some true) last_modified since = ok false
  unmodified (some false) last_modified since = ok true
  unmodified none last_modified since = not_modified_since last_modified since

  -- `precondition_failed` and `not_modified`
  unfoldable pub parse_modified_hdrs :
      Option Bytes → RequestHeaders → Option SystemTime → Result (Bool × Bool) Bytes
  unfolding modified_after not_modified_since
  parse_modified_hdrs etag req_hdrs last_modified = any_match etag req_hdrs >>= λ matched.
      precondition matched last_modified (req_hdrs if_unmodified_since) >>= λ precondition_failed.
      unmodified (none_match etag req_hdrs) last_modified (req_hdrs if_modified_since)
      >>= λ not_modified. ok (precondition_failed, not_modified)

-- The entity's tag against the one in If-Range.
abbrev pub if_range_tag : Option Bytes → Bytes → Option Bytes → Option Bytes × Bool
if_range_tag none if_range range_hdr = (none, true)
if_range_tag (some etag) if_range range_hdr =
    if strong_eq if_range etag then (range_hdr, false) else (none, true)

-- The Range header that counts, and `include_entity_headers_on_range`.
unfoldable pub if_range_range : Option Bytes → Option Bytes → Option Bytes → Option Bytes × Bool
unfolding strong_eq starts_with
if_range_range none etag range_hdr = (range_hdr, true)
if_range_range (some if_range) etag range_hdr =
    if starts_with (codes "W/\"") if_range || starts_with (codes "\"") if_range
    then if_range_tag etag if_range range_hdr
    else (none, true)
