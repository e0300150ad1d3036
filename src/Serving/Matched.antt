-- ===== src/Serving/Matched.antt =====
-- Requests with entity tags and with a range, answered from the header to the response.
use http_serve.Base.{
  ◌≡◌, refl, ap, Bool, true, false, Option, none, some, List, [], ◌∷◌, Bytes, codes, any, All, ok,
}
use http_serve.Http.{
  get, RequestHeaders, SystemTime, HttpCrates, not_modified, precondition_failed, with_status,
  if_match, if_none_match, if_range, if_modified_since, if_unmodified_since, range,
}
use http_serve.Etag.{none_match, any_match, any_match_header, any_match_value}
use http_serve.Etag.Compare.{EntityTag, print}
use http_serve.Etag.Items.{TagItem, IsItem, print_items}
use http_serve.Etag.Headers.{
  matches_weakly, matches_strongly, none_match-print_items, any_match-print_items,
}
use http_serve.Body.{StreamApi}
use http_serve.Stream.{empty, from_text}
use http_serve.Conditions.{
  not_modified_since, parse_modified_hdrs, unmodified, modified_after, if_range_range,
}
use http_serve.Serving.{Entity, entity_builder, on_conditions, respond, serve, serve_inner}

pub no_modified_after :
    (crates : HttpCrates) (m : Option SystemTime) → modified_after crates m none ≡ ok false
unfolding modified_after
no_modified_after crates none = refl
no_modified_after crates (some m) = refl

pub any_match-none :
    (etag : Option Bytes) (req_hdrs : RequestHeaders)
    → req_hdrs if_match ≡ none
    → any_match etag req_hdrs ≡ ok true
unfolding any_match any_match_value
any_match-none etag req_hdrs e = ap (any_match_header etag) e

unmodified-none :
    (crates : HttpCrates) (o : Option Bool) (m : Option SystemTime)
    → (b : Bool) × (unmodified crates o m none ≡ ok b)
unfolding not_modified_since
unmodified-none crates (some true) m = (false, refl)
unmodified-none crates (some false) m = (true, refl)
unmodified-none crates none none = (false, refl)
unmodified-none crates none (some m) = (false, refl)

module _ {D E S : Type 0} (api : StreamApi D E S) (crates : HttpCrates) (ent : Entity)
    (now : SystemTime) (req_hdrs : RequestHeaders) (e : EntityTag) (i : TagItem) (is : List TagItem)
    (items : All IsItem (i ∷ is)) (tagged : ent.tag ≡ some (print e)) where
  conditions-none_match :
      req_hdrs if_match ≡ none
      → req_hdrs if_unmodified_since ≡ none
      → req_hdrs if_none_match ≡ some (print_items (i ∷ is) [])
      → any (matches_weakly e) (i ∷ is) ≡ true
      → parse_modified_hdrs crates ent.tag req_hdrs ent.modified ≡ ok (false, true)
  unfolding parse_modified_hdrs
  conditions-none_match no_match no_unmodified sent hit =
      rw
        (
          any_match-none ent.tag req_hdrs no_match,
          no_unmodified,
          no_modified_after crates ent.modified,
          tagged,
          none_match-print_items e req_hdrs i is [] items (tt, (λ h. absurd (h refl))) sent,
          hit,
        )
        refl

  -- A GET request with a list of entity tags in If-None-Match, one of which matches the entity's
  -- weakly, and without If-Match and If-Unmodified-Since, is answered with 304 and no body, whatever
  -- Range, If-Range and If-Modified-Since say.
  pub serve-none_match :
      req_hdrs if_match ≡ none
      → req_hdrs if_unmodified_since ≡ none
      → req_hdrs if_none_match ≡ some (print_items (i ∷ is) [])
      → any (matches_weakly e) (i ∷ is) ≡ true
      → serve api crates ent now get req_hdrs
        ≡ record { parts = with_status (entity_builder crates now ent) not_modified; body = empty }
  unfolding serve serve_inner on_conditions
  serve-none_match no_match no_unmodified sent hit =
      ap
        (λ c. respond (
          on_conditions api crates ent get (entity_builder crates now ent)
            (if_range_range (req_hdrs if_range) ent.tag (req_hdrs range)) c))
        (conditions-none_match no_match no_unmodified sent hit)

  conditions-any_match :
      req_hdrs if_modified_since ≡ none
      → req_hdrs if_match ≡ some (print_items (i ∷ is) [])
      → any (matches_strongly e) (i ∷ is) ≡ false
      → (b : Bool) × (parse_modified_hdrs crates ent.tag req_hdrs ent.modified ≡ ok (true, b))
  unfolding parse_modified_hdrs
  conditions-any_match no_modified sent miss =
      let (b, same) = unmodified-none crates (none_match ent.tag req_hdrs) ent.modified in
      (
        b,
        rw
            (
              ap (λ t. any_match t req_hdrs) tagged,
              any_match-print_items e req_hdrs i is [] items (tt, (λ h. absurd (h refl))) sent,
              miss,
              no_modified,
              same,
            )
            refl,
      )

  -- A GET request with a list of entity tags in If-Match, none of which matches the entity's
  -- strongly, and without If-Modified-Since, is answered with 412, whatever the other headers say.
  pub serve-any_match :
      req_hdrs if_modified_since ≡ none
      → req_hdrs if_match ≡ some (print_items (i ∷ is) [])
      → any (matches_strongly e) (i ∷ is) ≡ false
      → serve api crates ent now get req_hdrs ≡ record {
        parts = with_status (entity_builder crates now ent) precondition_failed;
        body = from_text api (codes "Precondition failed");
      }
  unfolding serve serve_inner on_conditions
  serve-any_match no_modified sent miss =
      ap
        (λ c. respond (
          on_conditions api crates ent get (entity_builder crates now ent)
            (if_range_range (req_hdrs if_range) ent.tag (req_hdrs range)) c))
        (conditions-any_match no_modified sent miss).1
