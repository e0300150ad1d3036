-- ===== src/Serving/Head.antt =====
-- A HEAD request is answered like a GET request, but for the body.
use http_serve.Base.{
  ℕ, ◌≡◌, refl, Bool, true, false, Option, some, List, [], ◌∷◌, if◌then◌else◌, Bytes, Result, ok,
  err,
}
use http_serve.Http.{get, head, RequestHeaders, SystemTime, HttpCrates, Builder, if_range, range}
use http_serve.Range.{ByteRange, ResolvedRanges, absent, not_satisfiable, satisfiable, parse}
use http_serve.Body.{StreamApi}
use http_serve.Stream.{BodyStream, once}
use http_serve.Conditions.{if_range_range, parse_modified_hdrs}
use http_serve.Prepare.{MultipartLenOverflowError, prepare_multipart}
use http_serve.Serving.{
  Entity, ServeInner, is_below, estimate, each_part, range_builder, entity_builder, one_range,
  prepared, several_ranges, on_ranges, on_conditions, respond, serve, serve_inner,
}

module _ {D E S : Type 0} (api : StreamApi D E S) (crates : HttpCrates) (ent : Entity) where
  abbrev pub NoStream : BodyStream D E S → Type 0
  NoStream (once c) = Unit
  NoStream _ = ⊥

  -- the same status and headers, and no stream of the entity in the first
  abbrev Alike : ServeInner D E S → ServeInner D E S → Type 0
  Alike x y = ((respond x).parts ≡ (respond y).parts) × NoStream (respond x).body

  if-Alike :
      (b : Bool) (x y x' y' : ServeInner D E S)
      → Alike x x'
      → Alike y y'
      → Alike (if b then x else y) (if b then x' else y')
  if-Alike true x y x' y' hx hy = hx
  if-Alike false x y x' y' hx hy = hy

  one_range-Alike :
      (res : Builder) (r : ByteRange) (include : Bool)
      → Alike
          (one_range api crates ent head res r include)
          (one_range api crates ent get res r include)
  unfolding one_range
  one_range-Alike res r include = (refl, tt)

  prepared-Alike :
      (ranges : List ByteRange) (o : Result (Builder × (List Bytes × ℕ)) MultipartLenOverflowError)
      → Alike (prepared api crates ent head ranges o) (prepared api crates ent get ranges o)
  prepared-Alike ranges (err e) = (refl, tt)
  prepared-Alike ranges (ok (res, (hs, len))) = (refl, tt)

  several_ranges-Alike :
      (res : Builder) (ranges : List ByteRange) (include : Bool)
      → Alike
          (several_ranges api crates ent head res ranges include)
          (several_ranges api crates ent get res ranges include)
  unfolding several_ranges
  several_ranges-Alike res ranges include =
      let whole : ByteRange = record { start = 0; end = ent.len } in
      let prep = prepare_multipart crates res ranges ent.len (each_part include ent) in
      if-Alike (is_below (estimate ranges (some 0)) ent.len)
        (prepared api crates ent head ranges prep) (one_range api crates ent head res whole true)
        (prepared api crates ent get ranges prep) (one_range api crates ent get res whole true)
        (prepared-Alike ranges prep) (one_range-Alike res whole true)

  on_ranges-Alike :
      (res : Builder) (include : Bool) (rs : ResolvedRanges)
      → Alike
          (on_ranges api crates ent head res include rs)
          (on_ranges api crates ent get res include rs)
  unfolding on_ranges
  on_ranges-Alike res include absent =
      one_range-Alike res (record { start = 0; end = ent.len }) true
  on_ranges-Alike res include not_satisfiable = (refl, tt)
  on_ranges-Alike res include (satisfiable []) = several_ranges-Alike res [] include
  on_ranges-Alike res include (satisfiable (r ∷ [])) =
      one_range-Alike (range_builder res r ent.len) r include
  on_ranges-Alike res include (satisfiable (r ∷ q ∷ rs)) =
      several_ranges-Alike res (r ∷ q ∷ rs) include

  on_conditions-Alike :
      (res : Builder) (range_hdr : Option Bytes × Bool) (c : Result (Bool × Bool) Bytes)
      → Alike
          (on_conditions api crates ent head res range_hdr c)
          (on_conditions api crates ent get res range_hdr c)
  unfolding on_conditions
  on_conditions-Alike res range_hdr (err s) = (refl, tt)
  on_conditions-Alike res range_hdr (ok (true, unmodified)) = (refl, tt)
  on_conditions-Alike res range_hdr (ok (false, true)) = (refl, tt)
  on_conditions-Alike res (range_hdr, include) (ok (false, false)) =
      on_ranges-Alike res include (parse crates.to_str range_hdr ent.len)

  -- On every entity and every set of request headers, the answer to HEAD has the status and the
  -- headers of the answer to GET, and no stream of the entity is its body.
  pub serve-head :
      (now : SystemTime) (req_hdrs : RequestHeaders)
      → ((serve api crates ent now head req_hdrs).parts
          ≡ (serve api crates ent now get req_hdrs).parts)
        × NoStream (serve api crates ent now head req_hdrs).body
  unfolding serve serve_inner
  serve-head now req_hdrs =
      on_conditions-Alike (entity_builder crates now ent)
        (if_range_range (req_hdrs if_range) ent.tag (req_hdrs range))
        (parse_modified_hdrs crates ent.tag req_hdrs ent.modified)
