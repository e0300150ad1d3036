-- ===== src/Serving/Dates.antt =====
-- A client that sends back the Last-Modified that it was given.
use http_serve.Base.{
  ◌*◌, ◌/◌, ◌%◌, ◌^◌, ◌≡◌, ◌≢◌, refl, ap, sym, ◌∙◌, Bool, true, false, arith, leb, ltb, Option,
  none, some, Bytes, Result, ok, codes,
}
use http_serve.Http.{
  get, RequestHeaders, SystemTime, HttpCrates, not_modified, precondition_failed, with_status,
  if_match, if_none_match, if_range, if_modified_since, if_unmodified_since, range,
}
use http_serve.Etag.{none_match, none_match_header, none_match_value}
use http_serve.Body.{StreamApi}
use http_serve.Stream.{empty, from_text}
use http_serve.Conditions.{
  parse_date, modified_after, not_modified_since, parse_modified_hdrs, if_range_range,
}
use http_serve.Serving.{
  Entity, Response, entity_builder, on_conditions, respond, serve, serve_inner,
}
use http_serve.Serving.Matched.{any_match-none, no_modified_after}

-- The documented behaviour of `httpdate` at this time, whose text is ASCII: a date is a whole number
-- of seconds.
abbrev pub PrintsSeconds : HttpCrates → SystemTime → Type 0
PrintsSeconds crates m =
    (text : Bytes) × (crates.to_str (crates.fmt_http_date m) ≡ some text)
    × (crates.parse_http_date text ≡ some (m / 10 ^ 9 * 10 ^ 9))

-- The same request without a condition on the time.
abbrev pub unconditional : RequestHeaders → RequestHeaders
unconditional req_hdrs if_modified_since = none
unconditional req_hdrs if_unmodified_since = none
unconditional req_hdrs k = req_hdrs k

module _ (crates : HttpCrates) (m : SystemTime) (prints : PrintsSeconds crates m) where
  parse_date-echoed :
      (error : Bytes) → parse_date crates error (crates.fmt_http_date m) ≡ ok (m / 10 ^ 9 * 10 ^ 9)
  parse_date-echoed error = let (text, ascii, read) = prints in rw (ascii, read) refl

  not_modified_since-echoed :
      (b : Bool)
      → leb m (m / 10 ^ 9 * 10 ^ 9) ≡ b
      → not_modified_since crates (some m) (some (crates.fmt_http_date m)) ≡ ok b
  unfolding not_modified_since
  not_modified_since-echoed b same =
      rw (parse_date-echoed (codes "Unparseable If-Modified-Since")) (ap ok same)

  modified_after-echoed :
      (b : Bool)
      → ltb (m / 10 ^ 9 * 10 ^ 9) m ≡ b
      → modified_after crates (some m) (some (crates.fmt_http_date m)) ≡ ok b
  unfolding modified_after
  modified_after-echoed b same =
      rw (parse_date-echoed (codes "Unparseable If-Unmodified-Since")) (ap ok same)

pub none_match-none :
    (etag : Option Bytes) (req_hdrs : RequestHeaders)
    → req_hdrs if_none_match ≡ none
    → none_match etag req_hdrs ≡ none
unfolding none_match none_match_value
none_match-none etag req_hdrs e = ap (none_match_header etag) e

not_modified_since-none :
    (crates : HttpCrates) (m : Option SystemTime) → not_modified_since crates m none ≡ ok false
unfolding not_modified_since
not_modified_since-none crates none = refl
not_modified_since-none crates (some m) = refl

module _ {D E S : Type 0} (api : StreamApi D E S) (crates : HttpCrates) (ent : Entity)
    (now m : SystemTime) (req_hdrs : RequestHeaders) (dated : ent.modified ≡ some m)
    (prints : PrintsSeconds crates m) (no_match : req_hdrs if_match ≡ none)
    (no_none_match : req_hdrs if_none_match ≡ none) where
  conditions-dates :
      (before after : Bool) (since until : Option Bytes) (hdrs : RequestHeaders)
      → hdrs if_match ≡ none
      → hdrs if_none_match ≡ none
      → hdrs if_unmodified_since ≡ until
      → hdrs if_modified_since ≡ since
      → modified_after crates ent.modified until ≡ ok before
      → not_modified_since crates ent.modified since ≡ ok after
      → parse_modified_hdrs crates ent.tag hdrs ent.modified ≡ ok (before, after)
  unfolding parse_modified_hdrs
  conditions-dates before after since until hdrs no_match no_none_match eu es eb ea =
      rw
        (
          any_match-none ent.tag hdrs no_match,
          eu,
          eb,
          none_match-none ent.tag hdrs no_none_match,
          es,
          ea,
        )
        refl

  on_checked : Result (Bool × Bool) Bytes → Response D E S
  on_checked c = respond (
      on_conditions api crates ent get (entity_builder crates now ent)
        (if_range_range (req_hdrs if_range) ent.tag (req_hdrs range)) c)

  serve-checked :
      (c : Result (Bool × Bool) Bytes)
      → parse_modified_hdrs crates ent.tag req_hdrs ent.modified ≡ c
      → serve api crates ent now get req_hdrs ≡ on_checked c
  unfolding on_checked serve serve_inner
  serve-checked c e = ap on_checked e

  serve-unconditional :
      serve api crates ent now get (unconditional req_hdrs) ≡ on_checked (ok (false, false))
  unfolding on_checked serve serve_inner
  serve-unconditional = ap on_checked (
      conditions-dates false false none none (unconditional req_hdrs) no_match no_none_match refl
        refl (no_modified_after crates ent.modified) (not_modified_since-none crates ent.modified))

  -- A GET with the Last-Modified of the entity in If-Modified-Since, as the only condition, with
  -- httpdate as documented, is answered with 304 if the entity's time is a whole number of seconds; if it is not, then as if
  -- there was no condition, although the entity did not change.
  pub serve-echoed_modified :
      req_hdrs if_unmodified_since ≡ none
      → req_hdrs if_modified_since ≡ some (crates.fmt_http_date m)
      → (m % 10 ^ 9 ≡ 0
          → serve api crates ent now get req_hdrs ≡ record {
            parts = with_status (entity_builder crates now ent) not_modified;
            body = empty;
          })
        × (m % 10 ^ 9 ≢ 0
            → serve api crates ent now get req_hdrs
              ≡ serve api crates ent now get (unconditional req_hdrs))
  serve-echoed_modified no_unmodified sent = (
    (λ whole. go true (ground arith) ∙ unfold on_checked on_conditions in refl),
    (λ part. go false (ground arith) ∙ sym serve-unconditional),
  )
    where
      go :
          (b : Bool)
          → leb m (m / 10 ^ 9 * 10 ^ 9) ≡ b
          → serve api crates ent now get req_hdrs ≡ on_checked (ok (false, b))
      go b same = serve-checked (ok (false, b)) (
          conditions-dates false b (some (crates.fmt_http_date m)) none req_hdrs no_match
            no_none_match no_unmodified sent (no_modified_after crates ent.modified)
            (ap (λ t. not_modified_since crates t (some (crates.fmt_http_date m))) dated
              ∙ not_modified_since-echoed crates m prints b same))

  -- A GET with the Last-Modified of the entity in If-Unmodified-Since, as the only condition, with
  -- httpdate as documented, is answered as if there was no condition if the entity's time is a whole number of seconds; if it is
  -- not, then with 412, although the entity did not change.
  pub serve-echoed_unmodified :
      req_hdrs if_modified_since ≡ none
      → req_hdrs if_unmodified_since ≡ some (crates.fmt_http_date m)
      → (m % 10 ^ 9 ≡ 0
          → serve api crates ent now get req_hdrs
            ≡ serve api crates ent now get (unconditional req_hdrs))
        × (m % 10 ^ 9 ≢ 0
            → serve api crates ent now get req_hdrs ≡ record {
              parts = with_status (entity_builder crates now ent) precondition_failed;
              body = from_text api (codes "Precondition failed");
            })
  serve-echoed_unmodified no_modified sent = (
    (λ whole. go false (ground arith) ∙ sym serve-unconditional),
    (λ part. go true (ground arith) ∙ unfold on_checked on_conditions in refl),
  )
    where
      go :
          (b : Bool)
          → ltb (m / 10 ^ 9 * 10 ^ 9) m ≡ b
          → serve api crates ent now get req_hdrs ≡ on_checked (ok (b, false))
      go b same = serve-checked (ok (b, false)) (
          conditions-dates b false none (some (crates.fmt_http_date m)) req_hdrs no_match
            no_none_match sent no_modified
            (ap (λ t. modified_after crates t (some (crates.fmt_http_date m))) dated
              ∙ modified_after-echoed crates m prints b same)
            (not_modified_since-none crates ent.modified))
