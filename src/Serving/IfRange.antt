-- ===== src/Serving/IfRange.antt =====
-- What If-Range makes of a Range header, as RFC 7233, section 3.2, says.
use http_serve.Base.{
  ◌≡◌, refl, ap, ◌∙◌, Bool, true, false, not, ◌&&◌, ◌||◌, Option, none, some, if◌then◌else◌, Bytes,
  codes, bytes_eq, ◌-◌, ◌≤◌, subst, List, [], ◌∷◌, ◌++◌, arith, ok, All, u64_max, wrapping_sub,
  wrapping_sub_lem,
}
use http_serve.Std.Str.{starts_with}
use http_serve.Range.Rfc.{Item, IsPlainItem, all_satisfying, print_set}
use http_serve.Range.Agreement.{parse-satisfies}
use http_serve.Serving.Ranged.{Within, all_satisfying-Within}
use http_serve.Http.{
  Method, get, head, other, RequestHeaders, SystemTime, HttpCrates, if_range, range, with_header,
  with_status, content_range, partial_content, content_length,
}
use http_serve.Etag.{strong_eq}
use http_serve.Etag.Compare.{EntityTag, print, strong_eq-print}
use http_serve.Body.{StreamApi}
use http_serve.Conditions.{parse_modified_hdrs, if_range_range}
use http_serve.Serving.{
  Entity, Response, entity_builder, on_conditions, respond, serve, serve_inner, ByteRange,
  on_ranges, one_range, range_builder, fmt_content_range, fmt_decimal, exact_len,
}
use http_serve.Serving.Asks.{tag_text}

-- What If-Range holds: an entity tag, or anything that does not start like one, such as a date.
pub data Validator : Type 0 where
  tagged : EntityTag → Validator
  dated : Bytes → Validator

abbrev pub text_of : Validator → Bytes
text_of (tagged t) = print t
text_of (dated s) = s

abbrev starts_like_tag : Bytes → Bool
starts_like_tag s = starts_with (codes "W/\"") s || starts_with (codes "\"") s

abbrev pub IsValidator : Validator → Type 0
IsValidator (tagged t) = Unit
IsValidator (dated s) = (starts_with (codes "W/\"") s || starts_with (codes "\"") s) ≡ false

-- The validator is strong, and is that of the entity. A date never is.
abbrev pub is_same : Option EntityTag → Validator → Bool
is_same (some e) (tagged t) = not t.weak && (not e.weak && bytes_eq t.opaque e.opaque)
is_same _ _ = false

starts_like_tag-print : (t : EntityTag) → starts_like_tag (print t) ≡ true
unfolding starts_with
starts_like_tag-print t = go t.weak
  where
    go : (w : Bool) → starts_like_tag (http_serve.Etag.Compare.print_tag w t.opaque) ≡ true
    go true = refl
    go false = refl

-- The Range header that counts, and whether the entity's headers are added to the range.
abbrev pub counted : Bool → Option Bytes → Option Bytes × Bool
counted true range_hdr = (range_hdr, false)
counted false range_hdr = (none, true)

if_range_range-is_same :
    (tag : Option EntityTag) (v : Validator) (range_hdr : Option Bytes)
    → IsValidator v
    → if_range_range (some (text_of v)) (tag_text tag) range_hdr ≡ counted (is_same tag v) range_hdr
unfolding if_range_range
if_range_range-is_same none (dated s) range_hdr h = rw h refl
if_range_range-is_same (some e) (dated s) range_hdr h = rw h refl
if_range_range-is_same none (tagged t) range_hdr h = rw (starts_like_tag-print t) refl
if_range_range-is_same (some e) (tagged t) range_hdr h =
    rw (starts_like_tag-print t, strong_eq-print t e) (go (is_same (some e) (tagged t)))
  where
    go : (b : Bool) → (if b then (range_hdr, false) else (none, true)) ≡ counted b range_hdr
    go true = refl
    go false = refl

-- The same request for all of the entity.
abbrev pub without_range : RequestHeaders → RequestHeaders
without_range req_hdrs range = none
without_range req_hdrs if_range = none
without_range req_hdrs k = req_hdrs k

module _ {D E S : Type 0} (api : StreamApi D E S) (crates : HttpCrates) (ent : Entity)
    (now : SystemTime) (req_hdrs : RequestHeaders) (tag : Option EntityTag)
    (is_tag : ent.tag ≡ tag_text tag) (v : Validator) (valid : IsValidator v)
    (sent : req_hdrs if_range ≡ some (text_of v)) where
  range_that_counts :
      if_range_range (req_hdrs if_range) ent.tag (req_hdrs range)
      ≡ counted (is_same tag v) (req_hdrs range)
  range_that_counts = rw (sent, is_tag) (if_range_range-is_same tag v (req_hdrs range) valid)

  abbrev answered : Method → Option Bytes × Bool → Response D E S
  answered m range_hdr = respond (
      on_conditions api crates ent m (entity_builder crates now ent) range_hdr
        (parse_modified_hdrs crates ent.tag req_hdrs ent.modified))

  range_dropped :
      is_same tag v ≡ false
      → if_range_range (req_hdrs if_range) ent.tag (req_hdrs range) ≡ (none, true)
  range_dropped differs = range_that_counts ∙ rw differs refl

  -- For every request whose If-Range has an entity tag that is not strongly the entity's, or a date:
  -- the answer is the one to the same request without Range and If-Range.
  pub serve-if_range_differs :
      (m : Method)
      → is_same tag v ≡ false
      → serve api crates ent now m req_hdrs ≡ serve api crates ent now m (without_range req_hdrs)
  unfolding serve serve_inner parse_modified_hdrs http_serve.Etag.any_match
      http_serve.Etag.none_match if_range_range
  serve-if_range_differs other differs = refl
  serve-if_range_differs get differs = ap (answered get) (range_dropped differs)
  serve-if_range_differs head differs = ap (answered head) (range_dropped differs)

  -- The 206 with this range and none of the entity's own headers.
  abbrev pub bare_range : ByteRange → Response D E S
  bare_range r = record {
    parts =
        with_header
          (with_status
            (with_header (entity_builder crates now ent) content_range
              (codes "bytes " ++ fmt_content_range r ent.len))
            partial_content)
          content_length (fmt_decimal (r.end - r.start));
    body = exact_len (record { stream = api.get_range r; remaining = r.end - r.start });
  }

  -- A GET request whose preconditions hold, with the entity's strong tag in If-Range, and of whose
  -- byte-range specs, in a header as in `parse-satisfies` (so no suffix of the entity's length or
  -- more), exactly one can be satisfied in the sense of RFC 7233, is answered with 206 and
  -- that range, and with no header of the entity's own but its validators.
  pub serve-if_range_same :
      (value : Bytes) (i : Item) (is : List Item) (r : ByteRange)
      → parse_modified_hdrs crates ent.tag req_hdrs ent.modified ≡ ok (false, false)
      → is_same tag v ≡ true
      → req_hdrs range ≡ some value
      → crates.to_str value ≡ some (print_set i is)
      → All (IsPlainItem ent.len) (i ∷ is)
      → all_satisfying (i ∷ is) ent.len ≡ r ∷ []
      → ent.len ≤ u64_max
      → serve api crates ent now get req_hdrs ≡ bare_range r
  unfolding serve serve_inner on_conditions on_ranges one_range range_builder
  serve-if_range_same value i is r hold same asked text plain only fits =
      let counts : if_range_range (req_hdrs if_range) ent.tag (req_hdrs range)
          ≡ (some value, false) =
        range_that_counts ∙ rw (same, asked) refl in
      let within : Within ent.len r =
        (subst (All (Within ent.len)) only (all_satisfying-Within (i ∷ is) ent.len plain)).0 in
      let width : wrapping_sub r.end r.start ≡ r.end - r.start =
        wrapping_sub_lem r.end r.start (omega arith) (omega arith) in
      rw (hold, counts, parse-satisfies crates.to_str value i is ent.len text plain, only)
        (rw width refl)
