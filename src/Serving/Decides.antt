-- ===== src/Serving/Decides.antt =====
-- `serve` decides on preconditions as RFC 7232 does.
use http_serve.Base.{
  ◌≡◌, refl, Option, none, some, Bytes, codes, ok, ap, ◌∙◌, Bool, true, false, if◌then◌else◌,
  Result, sym, inl,
}
use http_serve.Http.{
  Method, get, head, other, RequestHeaders, SystemTime, HttpCrates, not_modified,
  precondition_failed, with_status, if_match, if_none_match, if_range, if_modified_since,
  if_unmodified_since, range,
}
use http_serve.Etag.Compare.{EntityTag}
use http_serve.Body.{StreamApi}
use http_serve.Stream.{empty, from_text}
use http_serve.Conditions.{parse_modified_hdrs, if_range_range}
use http_serve.Serving.{
  Entity, Response, entity_builder, on_conditions, respond, serve, serve_inner,
}
use http_serve.Serving.Asks.{Asks, parse_modified_hdrs-Asks, tag_text}
use http_serve.Serving.Rfc.{
  Preconditions, Validators, was_modified, was_unmodified, is_refused, is_current, Decision, refuse,
  not_changed, proceed, decide,
}

-- The same request without its preconditions.
abbrev pub stripped : RequestHeaders → RequestHeaders
stripped req_hdrs if_match = none
stripped req_hdrs if_unmodified_since = none
stripped req_hdrs if_none_match = none
stripped req_hdrs if_modified_since = none
stripped req_hdrs k = req_hdrs k

abbrev no_preconditions : Preconditions
no_preconditions = record {
  match_tags = none;
  unmodified_since = none;
  none_match_tags = none;
  modified_since = none;
}

stripped-Asks :
    (crates : HttpCrates) (req_hdrs : RequestHeaders)
    → Asks crates (stripped req_hdrs) no_preconditions
stripped-Asks crates req_hdrs = record {
  match_tags_are = refl;
  unmodified_since_is = refl;
  none_match_tags_are = refl;
  modified_since_is = refl;
  alone = inl refl;
}

was_modified-none : (m : Option SystemTime) → was_modified m none ≡ false
was_modified-none none = refl
was_modified-none (some m) = refl

was_unmodified-none : (m : Option SystemTime) → was_unmodified m none ≡ false
was_unmodified-none none = refl
was_unmodified-none (some m) = refl

-- GET or HEAD
abbrev pub IsServed : Method → Type 0
IsServed other = ⊥
IsServed _ = Unit

module _ {D E S : Type 0} (api : StreamApi D E S) (crates : HttpCrates) (ent : Entity)
    (now : SystemTime) where
  -- What each decision comes to: for the last one, the answer without preconditions.
  abbrev pub answer : Method → RequestHeaders → Decision → Response D E S
  answer m req_hdrs refuse = record {
    parts = with_status (entity_builder crates now ent) precondition_failed;
    body = from_text api (codes "Precondition failed");
  }
  answer m req_hdrs not_changed = record {
    parts = with_status (entity_builder crates now ent) not_modified;
    body = empty;
  }
  answer m req_hdrs proceed = serve api crates ent now m (stripped req_hdrs)

  abbrev checked : Method → RequestHeaders → Result (Bool × Bool) Bytes → Response D E S
  checked m req_hdrs c = respond (
      on_conditions api crates ent m (entity_builder crates now ent)
        (if_range_range (req_hdrs if_range) ent.tag (req_hdrs range)) c)

  serve-checked :
      (m : Method) (req_hdrs : RequestHeaders)
      → IsServed m
      → serve api crates ent now m req_hdrs
        ≡ checked m req_hdrs (parse_modified_hdrs crates ent.tag req_hdrs ent.modified)
  unfolding serve serve_inner
  serve-checked get req_hdrs allowed = refl
  serve-checked head req_hdrs allowed = refl
  serve-checked other req_hdrs allowed = absurd allowed

  module _ (tag : Option EntityTag) (tagged : ent.tag ≡ tag_text tag) (m : Method)
      (allowed : IsServed m) (req_hdrs : RequestHeaders) where
    abbrev pub validators : Validators
    validators = record { tag = tag; modified = ent.modified }

    parse-Asks :
        (hdrs : RequestHeaders) (p : Preconditions)
        → Asks crates hdrs p
        → parse_modified_hdrs crates ent.tag hdrs ent.modified
          ≡ ok (
            is_refused validators p.match_tags p.unmodified_since,
            is_current validators p.none_match_tags p.modified_since,
          )
    parse-Asks hdrs p asks =
        ap (λ t. parse_modified_hdrs crates t hdrs ent.modified) tagged
        ∙ parse_modified_hdrs-Asks crates validators hdrs p asks

    serve-stripped :
        serve api crates ent now m (stripped req_hdrs) ≡ checked m req_hdrs (ok (false, false))
    serve-stripped =
        serve-checked m (stripped req_hdrs) allowed
        ∙ ap (checked m req_hdrs) (
            parse-Asks (stripped req_hdrs) no_preconditions (stripped-Asks crates req_hdrs)
            ∙ rw (was_modified-none, was_unmodified-none) refl)

    -- For every GET or HEAD whose preconditions can be read, and where If-Unmodified-Since does not
    -- stand beside If-Match: the answer is the one that RFC 7232, section 6, decides on. It is 412, or
    -- 304 without a body, each with the entity's validators, or what the same request without its
    -- preconditions is answered with, whatever Range and If-Range say.
    pub serve-decides :
        (p : Preconditions)
        → Asks crates req_hdrs p
        → serve api crates ent now m req_hdrs ≡ answer m req_hdrs (decide validators p)
    unfolding on_conditions
    serve-decides p asks =
        serve-checked m req_hdrs allowed
        ∙ ap (checked m req_hdrs) (parse-Asks req_hdrs p asks)
        ∙ go (is_refused validators p.match_tags p.unmodified_since)
            (is_current validators p.none_match_tags p.modified_since)
      where
        go :
            (failed current : Bool)
            → checked m req_hdrs (ok (failed, current))
              ≡ answer m req_hdrs
                  (if failed then refuse else if current then not_changed else proceed)
        go true current = refl
        go false true = refl
        go false false = sym serve-stripped
