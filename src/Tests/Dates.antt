-- ===== src/Tests/Dates.antt =====
-- src/serving.rs, its preconditions on dates
use http_serve.Base.{◌≡◌, ◌≢◌, refl, ℕ, ◌*◌, ◌/◌, ◌%◌, ◌^◌, Option, none, some, codes}
use http_serve.Tests.Http.{ascii_to_str}
use http_serve.Tests.Body.{script_api}
use http_serve.Tests.Serving.{crates, entity}
use http_serve.Std.Num.{from_str, u64_from_str, fmt_decimal}
use http_serve.Http.{
  get, RequestHeaders, SystemTime, HttpCrates, not_modified, precondition_failed, with_status,
  if_modified_since, if_unmodified_since,
}
use http_serve.Stream.{empty, from_text}
use http_serve.Serving.{Entity, entity_builder, serve}
use http_serve.Serving.Dates.{
  PrintsSeconds, unconditional, serve-echoed_modified, serve-echoed_unmodified,
}

abbrev seconds : Option ℕ → Option SystemTime
seconds none = none
seconds (some n) = some (n * 10 ^ 9)

-- Dates as a number of seconds.
abbrev seconds_crates : HttpCrates
seconds_crates = record crates {
  parse_http_date = λ s. seconds (u64_from_str s);
  fmt_http_date = λ d. fmt_decimal (d / 10 ^ 9);
}

-- modified at 1.5 seconds
abbrev dated_entity : Entity
dated_entity = record entity { modified = some 1500000000 }

seconds_crates-PrintsSeconds : PrintsSeconds seconds_crates 1500000000
unfolding fmt_decimal from_str ascii_to_str
seconds_crates-PrintsSeconds = (codes "1", refl, refl)

abbrev modified_since : RequestHeaders
modified_since if_modified_since = some (fmt_decimal 1)
modified_since _ = none

abbrev unmodified_since : RequestHeaders
unmodified_since if_unmodified_since = some (fmt_decimal 1)
unmodified_since _ = none

serve-echoed_modified_example :
    (1500000000 % 10 ^ 9 ≡ 0
      → serve script_api seconds_crates dated_entity 2000000000 get modified_since ≡ record {
        parts = with_status (entity_builder seconds_crates 2000000000 dated_entity) not_modified;
        body = empty;
      })
    × (1500000000 % 10 ^ 9 ≢ 0
        → serve script_api seconds_crates dated_entity 2000000000 get modified_since
          ≡ serve script_api seconds_crates dated_entity 2000000000 get
              (unconditional modified_since))
serve-echoed_modified_example =
    serve-echoed_modified script_api seconds_crates dated_entity 2000000000 1500000000
      modified_since refl seconds_crates-PrintsSeconds refl refl refl refl

serve-echoed_unmodified_example :
    (1500000000 % 10 ^ 9 ≡ 0
      → serve script_api seconds_crates dated_entity 2000000000 get unmodified_since
        ≡ serve script_api seconds_crates dated_entity 2000000000 get
            (unconditional unmodified_since))
    × (1500000000 % 10 ^ 9 ≢ 0
        → serve script_api seconds_crates dated_entity 2000000000 get unmodified_since ≡ record {
          parts =
              with_status
                (entity_builder seconds_crates 2000000000 dated_entity)
                precondition_failed;
          body = from_text script_api (codes "Precondition failed");
        })
serve-echoed_unmodified_example =
    serve-echoed_unmodified script_api seconds_crates dated_entity 2000000000 1500000000
      unmodified_since refl seconds_crates-PrintsSeconds refl refl refl refl
