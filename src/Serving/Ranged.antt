-- ===== src/Serving/Ranged.antt =====
-- Requests with byte ranges, answered from the header to the response.
use http_serve.Base.{
  ℕ, ◌-◌, ◌≤◌, ◌<◌, ◌≡◌, refl, ◌∙◌, arith, none, some, List, [], ◌∷◌, ◌++◌, Bytes, codes, All, ok,
  false, true, u64_max, wrapping_sub, wrapping_sub_lem, sym, subst, append_assoc,
}
use http_serve.Std.Num.{fmt_decimal}
use http_serve.Http.{
  get, RequestHeaders, SystemTime, HttpCrates, if_range, range, Builder, content_range,
  content_length, partial_content, range_not_satisfiable, with_header, with_status,
}
use http_serve.Range.{ByteRange, resolved}
use http_serve.Range.Rfc.{
  RangeSpec, suffix, open_ended, closed, Item, IsPlain, IsPlainItem, satisfies, prepend,
  all_satisfying, print_set,
}
use http_serve.Range.Agreement.{parse-satisfies}
use http_serve.Body.{StreamApi}
use http_serve.Stream.{exact_len, empty}
use http_serve.Conditions.{parse_modified_hdrs, if_range_range}
use http_serve.Prepare.{fmt_content_range}
use http_serve.Serving.{
  Entity, Response, entity_builder, range_builder, one_range, on_ranges, on_conditions, respond,
  serve, serve_inner,
}
use http_serve.Serving.Announced.{Has, OnlyAdds}

abbrev pub Within : ℕ → ByteRange → Type 0
Within len r = (r.start < r.end) × (r.end ≤ len)

satisfies-Within :
    (s : RangeSpec) (len : ℕ) (rs : List ByteRange)
    → IsPlain len s
    → All (Within len) rs
    → All (Within len) (prepend (satisfies s len) rs)
satisfies-Within (suffix n) len rs plain h = ground arith
satisfies-Within (open_ended a) len rs plain h = ground arith
satisfies-Within (closed a b) len rs plain h = ground arith

pub all_satisfying-Within :
    (is : List Item) (len : ℕ) → All (IsPlainItem len) is → All (Within len) (all_satisfying is len)
all_satisfying-Within [] len h = tt
all_satisfying-Within (i ∷ is) len h =
    satisfies-Within i.spec len (all_satisfying is len) h.0.1 (all_satisfying-Within is len h.1)

-- The response that sends one range of an entity.
abbrev pub Partial :
    {D E S : Type 0} → StreamApi D E S → Entity → ByteRange → Response D E S → Type 0
Partial api ent r res =
    (res.parts.status ≡ partial_content)
    × Has content_range
        (codes "bytes "
          ++ (fmt_decimal r.start
              ++ (codes "-" ++ (fmt_decimal (r.end - 1) ++ (codes "/" ++ fmt_decimal ent.len)))))
        res.parts.headers
    × Has content_length (fmt_decimal (r.end - r.start)) res.parts.headers
    × (res.body ≡ exact_len (record { stream = api.get_range r; remaining = r.end - r.start }))

one_range-Partial :
    {D E S : Type 0} (api : StreamApi D E S) (crates : HttpCrates) (ent : Entity)
    → OnlyAdds ent
    → (res : Builder) (r : ByteRange) → ent.len ≤ u64_max
    → Within ent.len r
    → Partial api ent r
        (respond (one_range api crates ent get (range_builder res r ent.len) r true))
unfolding one_range range_builder fmt_content_range
one_range-Partial api crates ent adds res r fits within =
    let last = wrapping_sub_lem r.end 1 (omega arith) (omega arith) in
    let width = wrapping_sub_lem r.end r.start (omega arith) (omega arith) in
    let length_value = fmt_decimal (wrapping_sub r.end r.start) in
    (
      refl,
      adds _ _ _ (λ e. cc)
          (
            res.headers,
            (content_length, length_value) ∷ [],
            append_assoc res.headers _ _ ∙ rw last refl,
          ),
      adds _ _ _ (λ e. cc) ((range_builder res r ent.len).headers, [], rw width refl),
      rw width refl,
    )

module _ {D E S : Type 0} (api : StreamApi D E S) (crates : HttpCrates) (ent : Entity)
    (now : SystemTime) (req_hdrs : RequestHeaders)
    (conditions : parse_modified_hdrs crates ent.tag req_hdrs ent.modified ≡ ok (false, false))
    (no_if_range : req_hdrs if_range ≡ none) (value : Bytes) (sent : req_hdrs range ≡ some value)
    (i : Item) (is : List Item) (text : crates.to_str value ≡ some (print_set i is))
    (plain : All (IsPlainItem ent.len) (i ∷ is)) where
  -- The preconditions hold, so the Range header decides.
  serve-on_ranges :
      serve api crates ent now get req_hdrs
      ≡ respond (
          on_ranges api crates ent get
            (entity_builder crates now ent)
            true
            (resolved (all_satisfying (i ∷ is) ent.len)))
  unfolding serve serve_inner on_conditions if_range_range
  serve-on_ranges =
      rw
        (conditions, no_if_range, sent, parse-satisfies crates.to_str value i is ent.len text plain)
        refl

  -- A GET request whose preconditions hold, without If-Range, and whose byte-range specs, in a header
  -- as in `parse-satisfies`, can all not be satisfied in the sense of RFC 7233, is answered with 416, the entity's length in
  -- Content-Range and no body.
  pub serve-unsatisfiable :
      all_satisfying (i ∷ is) ent.len ≡ []
      → serve api crates ent now get req_hdrs ≡ record {
        parts =
            with_status
              (with_header
                (entity_builder crates now ent)
                content_range
                (codes "bytes */" ++ fmt_decimal ent.len))
              range_not_satisfiable;
        body = empty;
      }
  unfolding on_ranges resolved
  serve-unsatisfiable nothing = serve-on_ranges ∙ rw nothing refl

  -- A GET request whose preconditions hold, without If-Range, and of whose byte-range specs, in a header
  -- as in `parse-satisfies`, exactly one can be satisfied in the sense of RFC 7233, for an entity whose
  -- length is a u64 and whose `add_headers` keeps the headers there are but for Content-Type, is
  -- answered with 206, the range in Content-Range, its length in Content-Length, and a body that is
  -- the entity's stream of that range held to that length.
  pub serve-satisfiable :
      (r : ByteRange)
      → all_satisfying (i ∷ is) ent.len ≡ r ∷ []
      → ent.len ≤ u64_max
      → OnlyAdds ent
      → Partial api ent r (serve api crates ent now get req_hdrs)
  unfolding on_ranges resolved
  serve-satisfiable r only fits adds =
      let within : Within ent.len r =
        (subst (All (Within ent.len)) only (all_satisfying-Within (i ∷ is) ent.len plain)).0 in
      let response : serve api crates ent now get req_hdrs
          ≡ respond (
              one_range api crates ent get (range_builder (entity_builder crates now ent) r ent.len)
                r true) =
        serve-on_ranges ∙ rw only refl in
      subst (Partial api ent r) (sym response)
        (one_range-Partial api crates ent adds (entity_builder crates now ent) r fits within)
