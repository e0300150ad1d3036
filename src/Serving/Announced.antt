-- ===== src/Serving/Announced.antt =====
-- The length that a response announces is the length that its body keeps to.
use http_serve.Base.{
  ℕ, ◌-◌, ◌≤◌, ◌<◌, ◌≡◌, refl, ◌∙◌, ap, Bool, true, false, Option, none, some, List, [], ◌∷◌, ◌++◌,
  if◌then◌else◌, arith, append_assoc, codes, Bytes, Result, ok, err, All, length, u64_max, inl, inr,
  wrapping_sub, wrapping_sub_lem, ◌⊎◌, ◌≢◌,
}
use http_serve.Std.Num.{fmt_decimal}
use http_serve.Http.{
  Method, get, head, other, RequestHeaders, SystemTime, HttpCrates, HeaderName, HeaderMap, Builder,
  content_length, content_type, if_range, range,
}
use http_serve.Range.{ByteRange, ResolvedRanges, absent, not_satisfiable, satisfiable, parse}
use http_serve.Range.Bounds.{InBounds, RangesInBounds, parse-RangesInBounds}
use http_serve.Body.{StreamApi}
use http_serve.Multipart.{new}
use http_serve.Multipart.Invariant.{IsRange, Inv}
use http_serve.Multipart.Served.{new-Inv}
use http_serve.Stream.{BodyStream, once, exact_len, multipart, chunker}
use http_serve.Conditions.{if_range_range, parse_modified_hdrs}
use http_serve.Prepare.{part_headers_of, MultipartLenOverflowError, prepare_multipart}
use http_serve.Prepare.Length.{prepare_multipart-length, length-headers_for}
use http_serve.Serving.{
  Entity, Response, range_builder, ServeInner, is_below, estimate, entity_headers, each_part,
  body_of, one_range, prepared, several_ranges, on_ranges, on_conditions, serve_inner, respond,
  serve, entity_builder,
}

-- The header stands in the map.
abbrev pub Has : HeaderName → Bytes → HeaderMap → Type 0
Has k v h = (before : HeaderMap) × (after : HeaderMap) × (h ≡ before ++ (k, v) ∷ after)

-- `add_headers` leaves the headers that are there, but for a Content-Type.
abbrev pub OnlyAdds : Entity → Type 0
OnlyAdds ent =
    (k : HeaderName) (v : Bytes) (h : HeaderMap)
    → k ≢ content_type
    → Has k v h
    → Has k v (ent.add_headers h)

pub InBounds-IsRange : (len : ℕ) (r : ByteRange) → len ≤ u64_max → InBounds len r → IsRange r
InBounds-IsRange len r fits b = go b.nonempty
  where
    go : (r.start < r.end) ⊎ ((r.start ≡ len) × (r.end ≡ len)) → IsRange r
    go (inl lt) = let h = b.below in (omega arith, omega arith)
    go (inr (s, e)) = (omega arith, omega arith)

All-InBounds-IsRange :
    (len : ℕ) (rs : List ByteRange) → len ≤ u64_max → All (InBounds len) rs → All IsRange rs
All-InBounds-IsRange len [] fits h = tt
All-InBounds-IsRange len (r ∷ rs) fits h =
    (InBounds-IsRange len r fits h.0, All-InBounds-IsRange len rs fits h.1)

module _ {D E S : Type 0} (api : StreamApi D E S) (crates : HttpCrates) (ent : Entity) where
  open api use {get_range}

  -- What a response promises about a body of announced length.
  abbrev pub BodyAnnounced : HeaderMap → BodyStream D E S → Type 0
  BodyAnnounced h (once (some (err e))) = ⊥
  BodyAnnounced h (once _) = Unit
  BodyAnnounced h (exact_len s) =
      Has content_length (fmt_decimal s.remaining) h
      × (r : ByteRange) × (s.stream ≡ get_range r)
      × (s.remaining ≡ r.end - r.start)
      × (r.start ≤ r.end)
      × (r.end ≤ ent.len)
  BodyAnnounced h (multipart m) =
      Has content_length (fmt_decimal m.remaining) h
      × Inv m
      × (m.state ≡ 0)
      × (m.cur ≡ none)
      × All (InBounds ent.len) m.ranges
  BodyAnnounced h (chunker s) = ⊥

  abbrev pub Announced : Response D E S → Type 0
  Announced res = BodyAnnounced res.parts.headers res.body

  module _ (fits : ent.len ≤ u64_max) (adds : OnlyAdds ent) where
    entity_headers-Has :
        (b : Bool) (k : HeaderName) (v : Bytes) (h : HeaderMap)
        → k ≢ content_type
        → Has k v h
        → Has k v (entity_headers b ent h)
    entity_headers-Has false k v h kept has = has
    entity_headers-Has true k v h kept has = adds k v h kept has

    body_of-Announced :
        (m : Method) (r : ByteRange) (h : HeaderMap)
        → (r.start ≤ r.end)
        → (r.end ≤ ent.len)
        → Has content_length (fmt_decimal (wrapping_sub r.end r.start)) h
        → BodyAnnounced h (body_of api crates ent m r)
    body_of-Announced head r h le below has = tt
    body_of-Announced get r h le below has =
        (has, r, refl, wrapping_sub_lem r.end r.start le (omega arith), le, below)
    body_of-Announced other r h le below has =
        (has, r, refl, wrapping_sub_lem r.end r.start le (omega arith), le, below)

    one_range-Announced :
        (m : Method) (res : Builder) (r : ByteRange) (include : Bool)
        → (r.start ≤ r.end)
        → (r.end ≤ ent.len)
        → Announced (respond (one_range api crates ent m res r include))
    unfolding one_range
    one_range-Announced m res r include le below =
        body_of-Announced m r _ le below
          (entity_headers-Has include content_length _ _ (λ e. cc) (res.headers, [], refl))

    parts-Announced :
        (res res' : Builder) (ranges : List ByteRange) (h : Option HeaderMap) (hs : List Bytes)
        (total : ℕ)
        → All (InBounds ent.len) ranges
        → prepare_multipart crates res ranges ent.len h ≡ ok (res', (hs, total))
        → BodyAnnounced res'.headers (multipart (new hs ranges total))
    unfolding new
    parts-Announced res res' ranges h hs total inside eq =
        let valid = All-InBounds-IsRange ent.len ranges fits inside in
        let (made, owed, small, built) =
          prepare_multipart-length crates res res' ranges ent.len total h hs valid eq in
        (
          (
            res.headers,
            (content_type, codes "multipart/byteranges; boundary=B") ∷ [],
            ap (λ b. b.headers) built ∙ append_assoc res.headers _ _,
          ),
          new-Inv hs ranges total
              (ap length made ∙ length-headers_for (part_headers_of crates h) ent.len ranges) valid
              owed small,
          refl,
          refl,
          inside,
        )

    prepared-Announced :
        (m : Method) (res : Builder) (ranges : List ByteRange) (h : Option HeaderMap)
        (o : Result (Builder × (List Bytes × ℕ)) MultipartLenOverflowError)
        → All (InBounds ent.len) ranges
        → prepare_multipart crates res ranges ent.len h ≡ o
        → Announced (respond (prepared api crates ent m ranges o))
    prepared-Announced m res ranges h (err e) valid eq = tt
    prepared-Announced head res ranges h (ok (res', (hs, total))) valid eq = tt
    prepared-Announced get res ranges h (ok (res', (hs, total))) valid eq =
        parts-Announced res res' ranges h hs total valid eq
    prepared-Announced other res ranges h (ok (res', (hs, total))) valid eq =
        parts-Announced res res' ranges h hs total valid eq

    if-Announced :
        (b : Bool) (x y : ServeInner D E S)
        → Announced (respond x)
        → Announced (respond y)
        → Announced (respond (if b then x else y))
    if-Announced true x y hx hy = hx
    if-Announced false x y hx hy = hy

    several_ranges-Announced :
        (m : Method) (res : Builder) (ranges : List ByteRange) (include : Bool)
        → All (InBounds ent.len) ranges
        → Announced (respond (several_ranges api crates ent m res ranges include))
    unfolding several_ranges
    several_ranges-Announced m res ranges include valid =
        if-Announced (is_below (estimate ranges (some 0)) ent.len) _ _
          (prepared-Announced m res ranges (each_part include ent) _ valid refl)
          (one_range-Announced m res (record { start = 0; end = ent.len }) true (omega arith)
            (omega arith))

    on_ranges-Announced :
        (m : Method) (res : Builder) (include : Bool) (rs : ResolvedRanges)
        → RangesInBounds ent.len rs
        → Announced (respond (on_ranges api crates ent m res include rs))
    unfolding on_ranges
    on_ranges-Announced m res include absent h =
        one_range-Announced m res (record { start = 0; end = ent.len }) true (omega arith)
          (omega arith)
    on_ranges-Announced m res include not_satisfiable h = tt
    on_ranges-Announced m res include (satisfiable []) h =
        several_ranges-Announced m res [] include tt
    on_ranges-Announced m res include (satisfiable (r ∷ [])) h =
        one_range-Announced m (range_builder res r ent.len) r include
          (InBounds-IsRange ent.len r fits h.1.0).0 h.1.0.below
    on_ranges-Announced m res include (satisfiable (r ∷ q ∷ rs)) h =
        several_ranges-Announced m res (r ∷ q ∷ rs) include h.1

    on_conditions-Announced :
        (m : Method) (res : Builder) (range_hdr : Option Bytes × Bool)
        (c : Result (Bool × Bool) Bytes)
        → Announced (respond (on_conditions api crates ent m res range_hdr c))
    unfolding on_conditions
    on_conditions-Announced m res range_hdr (err s) = tt
    on_conditions-Announced m res range_hdr (ok (true, unmodified)) = tt
    on_conditions-Announced m res range_hdr (ok (false, true)) = tt
    on_conditions-Announced m res (range_hdr, include) (ok (false, false)) =
        on_ranges-Announced m res include (parse crates.to_str range_hdr ent.len)
          (parse-RangesInBounds crates.to_str range_hdr ent.len)

    -- For every request: a body of announced length is an exact-length stream over a range of the
    -- entity, or a multipart stream whose account of its bytes is right, and the response has a
    -- Content-Length header with exactly the number of bytes that the body holds itself to.
    pub serve-Announced :
        (now : SystemTime) (m : Method) (req_hdrs : RequestHeaders)
        → Announced (serve api crates ent now m req_hdrs)
    unfolding serve serve_inner
    serve-Announced now other req_hdrs = tt
    serve-Announced now get req_hdrs =
        on_conditions-Announced get (entity_builder crates now ent)
          (if_range_range (req_hdrs if_range) ent.tag (req_hdrs range))
          (parse_modified_hdrs crates ent.tag req_hdrs ent.modified)
    serve-Announced now head req_hdrs =
        on_conditions-Announced head (entity_builder crates now ent)
          (if_range_range (req_hdrs if_range) ent.tag (req_hdrs range))
          (parse_modified_hdrs crates ent.tag req_hdrs ent.modified)
