-- ===== src/Tests/Decides.antt =====
-- src/serving.rs: preconditions and If-Range
use http_serve.Base.{◌≡◌, refl, some, none, [], ◌∷◌, codes, inl, arith, bytes_eq, false}
use http_serve.Http.{
  get, RequestHeaders, HttpCrates, range, if_range, if_none_match, if_modified_since, not_modified,
  with_status,
}
use http_serve.Etag.Compare.{EntityTag}
use http_serve.Stream.{empty}
use http_serve.Range.Rfc.{closed}
use http_serve.Serving.{Entity, entity_builder, serve}
use http_serve.Serving.Rfc.{Preconditions, listed}
use http_serve.Serving.Asks.{Asks}
use http_serve.Serving.Decides.{serve-decides}
use http_serve.Serving.IfRange.{
  Validator, tagged, dated, without_range, bare_range, serve-if_range_differs, serve-if_range_same,
}
use http_serve.Tests.Body.{script_api}
use http_serve.Tests.Etag.{first, second, first-IsItem, second-IsItem}
use http_serve.Tests.Serving.{crates, entity}

-- Every text is the same date, which is before that of the entity.
abbrev dated_crates : HttpCrates
dated_crates = record crates { parse_http_date = λ s. some 100 }

abbrev aged : Entity
aged = record entity { modified = some 200 }

abbrev bar : EntityTag
bar = record { weak = false; opaque = codes "bar" }

abbrev revalidation : RequestHeaders
revalidation if_none_match = some (codes "\"foo\", W/\"bar\"")
revalidation if_modified_since = some (codes "then")
revalidation _ = none

abbrev preconditions : Preconditions
preconditions = record {
  match_tags = none;
  unmodified_since = none;
  none_match_tags = some (listed first (second ∷ []));
  modified_since = some 100;
}

revalidation-Asks : Asks dated_crates revalidation preconditions
unfolding http_serve.Tests.Http.ascii_to_str
revalidation-Asks = record {
  match_tags_are = refl;
  unmodified_since_is = refl;
  none_match_tags_are = ((first-IsItem, (second-IsItem, tt)), refl);
  modified_since_is = (codes "then", codes "then", refl, refl, refl);
  alone = inl refl;
}

serve-decides_example :
    serve script_api dated_crates aged 5 get revalidation
    ≡ record { parts = with_status (entity_builder dated_crates 5 aged) not_modified; body = empty }
unfolding bytes_eq
serve-decides_example =
    serve-decides script_api dated_crates aged 5 (some bar) refl get tt revalidation preconditions
      revalidation-Asks

abbrev ranged : Validator → RequestHeaders
ranged v range = some (codes "bytes=10-19")
ranged v if_range = some (http_serve.Serving.IfRange.text_of v)
ranged v _ = none

serve-if_range_differs_example :
    serve script_api crates entity 5 get (ranged (dated (codes "then")))
    ≡ serve script_api crates entity 5 get (without_range (ranged (dated (codes "then"))))
unfolding http_serve.Std.Str.starts_with
serve-if_range_differs_example =
    serve-if_range_differs script_api crates entity 5 (ranged (dated (codes "then"))) (some bar)
      refl (dated (codes "then")) refl refl get refl

serve-if_range_same_example :
    serve script_api crates entity 5 get (ranged (tagged bar))
    ≡ bare_range script_api crates entity 5
        (ranged (tagged bar))
        (some bar)
        refl
        (tagged bar)
        tt
        refl
        (record { start = 10; end = 20 })
unfolding http_serve.Tests.Http.ascii_to_str http_serve.Conditions.parse_modified_hdrs
    http_serve.Etag.any_match http_serve.Etag.none_match http_serve.Std.Num.fmt_decimal bytes_eq
serve-if_range_same_example =
    serve-if_range_same script_api crates entity 5 (ranged (tagged bar)) (some bar) refl
      (tagged bar) tt refl (codes "bytes=10-19") (record { ows = []; spec = closed 10 19 }) []
      (record { start = 10; end = 20 }) refl refl refl refl ((tt, (omega arith, omega arith)), tt)
      refl (omega arith)
