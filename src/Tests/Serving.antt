-- ===== src/Tests/Serving.antt =====
-- src/serving.rs
use http_serve.Range.{ByteRange}
use http_serve.Base.{
  ◌≡◌, refl, none, some, [], ◌∷◌, ◌++◌, arith, codes, false, append_assoc, ap, ◌∙◌, List, Bytes,
  subst, All-append,
}
use Prim.Native.String.{String}
use http_serve.Tests.Http.{ascii_to_str}
use http_serve.Tests.Body.{script_api}
use http_serve.Std.Num.{fmt_decimal}
use http_serve.Http.{
  get, head, RequestHeaders, HttpCrates, content_type, content_range, range, range_not_satisfiable,
  with_status, with_header, if_none_match, if_match,
}
use http_serve.Range.Rfc.{RangeSpec, closed, open_ended, Item}
use http_serve.Etag.Compare.{EntityTag}
use http_serve.Stream.{empty}
use http_serve.Conditions.{parse_modified_hdrs}
use http_serve.Etag.{any_match, none_match}
use http_serve.Serving.{Entity, entity_builder, serve}
use http_serve.Serving.Announced.{OnlyAdds, Announced, serve-Announced}
use http_serve.Serving.Head.{NoStream, serve-head}
use http_serve.Std.Num.Texts.{IsText, fmt_decimal-IsText}
use http_serve.Prepare.Values.{IsValue, AreValues}
use http_serve.Serving.Values.{MakesValues, serve-AreValues}
use http_serve.Serving.Ranged.{Partial, serve-satisfiable, serve-unsatisfiable}

-- Dates are read and printed in a form of their own, the number of seconds; no request below has one.
abbrev pub crates : HttpCrates
crates = record {
  extend = ◌++◌;
  insert = λ k v h. h ++ (k, v) ∷ [];
  as_str = λ k. codes "x";
  to_str = ascii_to_str;
  parse_http_date = λ s. none;
  fmt_http_date = λ d. fmt_decimal d;
}

abbrev pub entity : Entity
entity = record {
  len = 1000;
  tag = some (codes "\"bar\"");
  modified = none;
  add_headers = λ h. h ++ (content_type, codes "text/plain") ∷ [];
}

entity-OnlyAdds : OnlyAdds entity
entity-OnlyAdds k v h kept (before, after, e) = (
  before,
  after ++ (content_type, codes "text/plain") ∷ [],
  ap (λ h. h ++ (content_type, codes "text/plain") ∷ []) e ∙ append_assoc before _ _,
)

abbrev with_range : String → RequestHeaders
with_range s range = some (codes s)
with_range s _ = none

abbrev with_none_match : String → RequestHeaders
with_none_match s if_none_match = some (codes s)
with_none_match s _ = none

abbrev with_match : String → RequestHeaders
with_match s if_match = some (codes s)
with_match s _ = none

serve-Announced_example :
    Announced script_api crates entity
      (serve script_api crates entity 5 get (with_range "bytes=0-1,5-6"))
serve-Announced_example =
    serve-Announced script_api crates entity (omega arith) entity-OnlyAdds 5 get
      (with_range "bytes=0-1,5-6")

serve-head_example :
    ((serve script_api crates entity 5 head (with_range "bytes=0-1,5-6")).parts
      ≡ (serve script_api crates entity 5 get (with_range "bytes=0-1,5-6")).parts)
    × NoStream script_api crates entity
        (serve script_api crates entity 5 head (with_range "bytes=0-1,5-6")).body
serve-head_example = serve-head script_api crates entity 5 (with_range "bytes=0-1,5-6")

abbrev tag : EntityTag
tag = record { weak = false; opaque = codes "bar" }

abbrev foo_tag : EntityTag
foo_tag = record { weak = false; opaque = codes "foo" }

abbrev item : RangeSpec → Item
item spec = record { ows = []; spec = spec }

serve-satisfiable_example :
    Partial script_api entity
      (record { start = 10; end = 20 })
      (serve script_api crates entity 5 get (with_range "bytes=10-19"))
unfolding ascii_to_str fmt_decimal parse_modified_hdrs any_match none_match
serve-satisfiable_example =
    serve-satisfiable script_api crates entity 5 (with_range "bytes=10-19") refl refl
      (codes "bytes=10-19") refl (item (closed 10 19)) [] refl
      ((tt, (omega arith, omega arith)), tt) (record { start = 10; end = 20 }) refl (omega arith)
      entity-OnlyAdds

serve-unsatisfiable_example :
    serve script_api crates entity 5 get (with_range "bytes=1000-,2000-") ≡ record {
      parts =
          with_status
            (with_header (entity_builder crates 5 entity) content_range (codes "bytes */1000"))
            range_not_satisfiable;
      body = empty;
    }
unfolding ascii_to_str fmt_decimal parse_modified_hdrs any_match none_match
serve-unsatisfiable_example =
    serve-unsatisfiable script_api crates entity 5 (with_range "bytes=1000-,2000-") refl refl
      (codes "bytes=1000-,2000-") refl (item (open_ended 1000)) (item (open_ended 2000) ∷ []) refl
      ((tt, omega arith), ((tt, omega arith), tt)) refl

abbrev two_ranges : List ByteRange
two_ranges = record { start = 0; end = 2 } ∷ record { start = 5; end = 7 } ∷ []

abbrev made : List Bytes
made =
    codes "\r\n--B\r\nContent-Range: bytes 0-1/1000\r\n\r\n"
    ∷ codes "\r\n--B\r\nContent-Range: bytes 5-6/1000\r\n\r\n"
    ∷ []

entity-MakesValues : MakesValues crates entity
entity-MakesValues = record {
  tag_text = λ e same. let tag : codes "\"bar\"" ≡ e = cc in subst IsText tag refl;
  date_text = fmt_decimal-IsText;
  added =
      λ h hv. All-append IsValue h ((content_type, codes "text/plain") ∷ []) hv ((refl, tt), tt);
}

serve-AreValues_example :
    AreValues (serve script_api crates entity 5 get (with_range "bytes=0-1,5-6")).parts.headers
serve-AreValues_example =
    serve-AreValues script_api crates entity entity-MakesValues 5 get (with_range "bytes=0-1,5-6")
