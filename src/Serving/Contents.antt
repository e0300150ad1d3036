-- ===== src/Serving/Contents.antt =====
-- What the bodies of `serve`'s responses hold, byte by byte.
use http_serve.Base.{
  ℕ, ◌+◌, ◌≤◌, ◌≡◌, refl, sym, ◌∙◌, subst, List, [], ◌∷◌, arith, Bytes, All, length, length-append,
  u64_max, ◌++◌, ◌<◌, none, some, ok, err,
}
use http_serve.Std.Num.{fmt_decimal}
use http_serve.Http.{Method, RequestHeaders, SystemTime, HttpCrates, HeaderMap, content_length}
use http_serve.Range.{ByteRange}
use http_serve.Range.Bounds.{InBounds}
use http_serve.Body.{StreamApi, ExactLenStream}
use http_serve.Body.Faithful.{slice, Within, length-slice, Faithful}
use http_serve.Multipart.{part_trailer, MultipartStream}
use http_serve.Multipart.Invariant.{
  parts_len, at_header, at_body, in_body, at_trailer, at_end, Inv, Phase,
}
use http_serve.Multipart.Contents.{parts_bytes}
use http_serve.Multipart.Delivers.{new-Owes}
use http_serve.Stream.{BodyStream, once, exact_len, multipart, chunker}
use http_serve.Stream.Completes.{spare_polls, collect-complete}
use http_serve.Body.Prompt.{Prompt}
use http_serve.Stream.Collect.{complete, collect, Gets, collect-Gets, BodyOwes}
use http_serve.Serving.{Entity, serve, Response}
use http_serve.Serving.Announced.{Has, OnlyAdds, BodyAnnounced, serve-Announced, InBounds-IsRange}

InBounds-Within :
    (contents : Bytes) (r : ByteRange)
    → length contents ≤ u64_max
    → InBounds (length contents) r
    → Within contents r
InBounds-Within contents r fits b = ((InBounds-IsRange (length contents) r fits b).0, b.below)

All-InBounds-Within :
    (contents : Bytes) (rs : List ByteRange)
    → length contents ≤ u64_max
    → All (InBounds (length contents)) rs
    → All (Within contents) rs
All-InBounds-Within contents [] fits h = tt
All-InBounds-Within contents (r ∷ rs) fits h =
    (InBounds-Within contents r fits h.0, All-InBounds-Within contents rs fits h.1)

length-parts_bytes :
    (contents : Bytes) (hs : List Bytes) (rs : List ByteRange)
    → All (Within contents) rs
    → length (parts_bytes contents hs rs) ≡ parts_len hs rs + length part_trailer
length-parts_bytes contents [] rs h = refl
length-parts_bytes contents (v ∷ hs) [] h = refl
length-parts_bytes contents (v ∷ hs) (r ∷ rs) h = omega (
  arith,
  length-append v (slice_and_rest),
  length-append (slice contents r) (parts_bytes contents hs rs),
  length-slice contents r h.0,
  length-parts_bytes contents hs rs h.1,
)
  where
    slice_and_rest : Bytes
    slice_and_rest = slice contents r ++ parts_bytes contents hs rs

-- A stream that was not polled announces the length of all its parts.
remaining-parts_len :
    {S : Type 0} (m : MultipartStream S)
    → Inv m
    → m.state ≡ 0
    → m.remaining ≡ parts_len m.part_headers m.ranges + length part_trailer
remaining-parts_len m inv at = go inv.phase
  where
    none_left : (hs : List Bytes) (rs : List ByteRange) → length rs ≡ 0 → parts_len hs rs ≡ 0
    none_left [] rs e = refl
    none_left (h ∷ hs) [] e = refl
    none_left (h ∷ hs) (r ∷ rs) e = absurd (omega arith)

    go : Phase m → m.remaining ≡ parts_len m.part_headers m.ranges + length part_trailer
    go (at_header i lt here free owed) = let first : i ≡ 0 = omega arith in owed ∙ rw first refl
    go (at_body i r lt here free er owed) = absurd (omega arith)
    go (in_body i cur lt here busy owed) = absurd (omega arith)
    go (at_trailer here free owed) = omega (arith, none_left m.part_headers m.ranges (omega arith))
    go (at_end here free owed) = absurd (omega arith)

-- What holds of a body and the bytes that it is for. A body of announced length is for a range of the
-- contents, or the parts for some ranges, and the response announces their number.
module _ {D E S : Type 0} (contents : Bytes) (Q : BodyStream D E S → Bytes → Type 0) where
  abbrev pub Carries : HeaderMap → BodyStream D E S → Type 0
  Carries h (once c) = (b : Bytes) × Q (once c) b
  Carries h (exact_len s) =
      (r : ByteRange) × Within contents r
      × Has content_length (fmt_decimal (length (slice contents r))) h
      × Q (exact_len s) (slice contents r)
  Carries h (multipart m) =
      All (Within contents) m.ranges
      × Has content_length (fmt_decimal (length (parts_bytes contents m.part_headers m.ranges))) h
      × Q (multipart m) (parts_bytes contents m.part_headers m.ranges)
  Carries h (chunker s) = ⊥

Carries-map :
    {D E S : Type 0} (contents : Bytes) (P Q : BodyStream D E S → Bytes → Type 0) (h : HeaderMap)
    (body : BodyStream D E S)
    → ((b : Bytes) → P body b → Q body b)
    → Carries contents P h body
    → Carries contents Q h body
Carries-map contents P Q h (once c) f (b, p) = (b, f b p)
Carries-map contents P Q h (exact_len s) f (r, within, has, p) =
    (r, within, has, f (slice contents r) p)
Carries-map contents P Q h (multipart m) f (within, has, p) =
    (within, has, f (parts_bytes contents m.part_headers m.ranges) p)
Carries-map contents P Q h (chunker s) f a = a

module _ {D E S : Type 0} (api : StreamApi D E S) (contents : Bytes)
    (faithful : Faithful api contents) where
  open faithful use {bytes_of}

  -- Whoever polls the body gets the first of the bytes, and all if it comes to its end.
  abbrev pub Delivers : BodyStream D E S → Bytes → Type 0
  Delivers body b = (n cx : ℕ) → Gets api bytes_of b (collect api bytes_of n body cx)

  -- From some number of polls on, polling the body has come to its end and got the bytes.
  abbrev pub Completes : ℕ → BodyStream D E S → Bytes → Type 0
  Completes spares body b =
      (n cx : ℕ)
      → length b + spare_polls spares body < n
      → collect api bytes_of n body cx ≡ (b, complete)

  module _ (crates : HttpCrates) (ent : Entity) (same : ent.len ≡ length contents)
      (fits : length contents ≤ u64_max) where
    exact-Carries :
        (h : HeaderMap) (s : ExactLenStream S)
        → BodyAnnounced api crates ent h (exact_len s)
        → Carries contents (BodyOwes api contents faithful fits) h (exact_len s)
    exact-Carries h s (has, r, stream, width, le, below) =
        let within : Within contents r = (le, omega arith) in
        let exact : s.remaining ≡ length (slice contents r) =
          width ∙ sym (length-slice contents r within) in
        let owes : faithful.Owes s.stream (slice contents r) =
          subst (λ x. faithful.Owes x (slice contents r)) (sym stream)
            (faithful.get_range-Owes r within.0 within.1) in
        (r, within, subst (λ n. Has content_length (fmt_decimal n) h) exact has, (owes, exact))

    parts-Carries :
        (h : HeaderMap) (m : MultipartStream S)
        → BodyAnnounced api crates ent h (multipart m)
        → Carries contents (BodyOwes api contents faithful fits) h (multipart m)
    parts-Carries h m (has, inv, at, free, inside) =
        let within =
          All-InBounds-Within contents m.ranges fits
            (subst (λ n. All (InBounds n) m.ranges) same inside) in
        let exact : m.remaining ≡ length (parts_bytes contents m.part_headers m.ranges) =
          remaining-parts_len m inv at
          ∙ sym (length-parts_bytes contents m.part_headers m.ranges within) in
        (
          within,
          subst (λ n. Has content_length (fmt_decimal n) h) exact has,
          new-Owes api contents faithful fits m at free inv.matched within,
        )

    Announced-Carries :
        (h : HeaderMap) (body : BodyStream D E S)
        → BodyAnnounced api crates ent h body
        → Carries contents (BodyOwes api contents faithful fits) h body
    Announced-Carries h (once none) a = ([], refl)
    Announced-Carries h (once (some (ok d))) a = (bytes_of d, refl)
    Announced-Carries h (once (some (err e))) a = absurd a
    Announced-Carries h (exact_len s) a = exact-Carries h s a
    Announced-Carries h (multipart m) a = parts-Carries h m a
    Announced-Carries h (chunker s) a = a

    module _ (adds : OnlyAdds ent) (now : SystemTime) (m : Method) (req_hdrs : RequestHeaders) where
      abbrev response : Response D E S
      response = serve api crates ent now m req_hdrs

      -- Every response owes the bytes that its body is for.
      pub serve-Owes :
          Carries contents
            (BodyOwes api contents faithful fits)
            response.parts.headers
            response.body
      serve-Owes =
          Announced-Carries response.parts.headers response.body
            (serve-Announced api crates ent (omega arith) adds now m req_hdrs)

      pub serve-Delivers : Carries contents Delivers response.parts.headers response.body
      serve-Delivers =
          Carries-map contents (BodyOwes api contents faithful fits) Delivers response.parts.headers
            response.body
            (λ b owes n cx. collect-Gets api contents faithful fits n response.body b cx owes)
            serve-Owes

      pub serve-Completes :
          (spares : ℕ)
          → Prompt api contents faithful spares
          → Carries contents (Completes spares) response.parts.headers response.body
      serve-Completes spares prompt =
          Carries-map contents (BodyOwes api contents faithful fits) (Completes spares)
            response.parts.headers response.body
            (λ b owes n cx lt.
              collect-complete api contents faithful fits spares prompt n response.body b cx owes
                lt)
            serve-Owes
