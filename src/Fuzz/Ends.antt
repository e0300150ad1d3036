-- ===== src/Fuzz/Ends.antt =====
-- fuzz/fuzz_targets/serve_nonempty.rs: the target never panics and comes to an end.
use http_serve.Base.{
  ℕ, zero, suc, ◌+◌, ◌≤◌, ◌<◌, ◌≡◌, refl, sym, ap, ◌∙◌, ◌≢◌, true, ◌&&◌, Option, none, some, [],
  append-nil, arith, leb, Bytes, ok, err, length, length-append, u64_max,
}
use http_serve.Http.{
  Method, RequestHeaders, SystemTime, HttpCrates, HeaderMap, HeaderName, content_type,
}
use http_serve.Range.{ByteRange}
use http_serve.Body.{ready, pending}
use http_serve.Body.Faithful.{Faithful, slice, PollOwes}
use http_serve.Body.Prompt.{Prompt, IsBrisk}
use http_serve.Stream.{
  BodyStream, once, exact_len, multipart, chunker, Frame, frame, frame_panics, poll_frame,
}
use http_serve.Stream.Collect.{BodyOwes, FrameOwes, poll_frame-Owes}
use http_serve.Stream.Completes.{still_spare, Advances, poll_frame-Advances}
use http_serve.Serving.{serve}
use http_serve.Serving.Announced.{Has, OnlyAdds}
use http_serve.Serving.Contents.{Carries, serve-Owes}
use http_serve.Fuzz.ServeNonempty.{
  body, Req, to_method, FakeStream, out_of_bounds, get_range, poll_fake, fake_entity, FakeEntity,
  Ended, finished, returned, request, some_date_str, entity_strong_etag, fake_api, on_frame,
  poll_all, fuzz_target, on_request,
}

-- The documented behaviour of `HeaderMap::insert`: the headers of other names stay.
abbrev pub InsertKeeps : HttpCrates → Type 0
InsertKeeps crates =
    (name k : HeaderName) (value v : Bytes) (h : HeaderMap)
    → k ≢ name
    → Has k v h
    → Has k v (crates.insert name value h)

fake_entity-OnlyAdds :
    (crates : HttpCrates) (ent : FakeEntity)
    → InsertKeeps crates
    → OnlyAdds (fake_entity crates ent)
fake_entity-OnlyAdds crates ent keeps k v h other has = keeps content_type k _ v h other has

-- The one chunk of a stream, unless it was given.
abbrev Owes : FakeStream → Bytes → Type 0
Owes (http_serve.Fuzz.ServeNonempty.once (some d)) b = b ≡ d
Owes (http_serve.Fuzz.ServeNonempty.once none) b = b ≡ []
Owes out_of_bounds b = ⊥

abbrev spare : FakeStream → ℕ
spare (http_serve.Fuzz.ServeNonempty.once (some d)) = 1
spare _ = 0

get_range-Owes :
    (r : ByteRange) → r.start ≤ r.end → r.end ≤ length body → Owes (get_range r) (slice body r)
get_range-Owes r le below =
    let inside : (leb r.start r.end && leb r.end (length body)) ≡ true = ground arith in
    rw inside refl

module _ {E : Type 0} (too_short too_long : ℕ → E) where
  poll_fake-Owes :
      (s : FakeStream) (b : Bytes) → Owes s b → PollOwes {E = E} (λ d. d) Owes b (poll_fake s)
  poll_fake-Owes (http_serve.Fuzz.ServeNonempty.once (some d)) b h =
      ([], h ∙ sym (append-nil d), refl)
  poll_fake-Owes (http_serve.Fuzz.ServeNonempty.once none) b h = h
  poll_fake-Owes out_of_bounds b h = absurd h

  abbrev faithful : Faithful (fake_api too_short too_long) body
  faithful = record {
    bytes_of = λ d. d;
    Owes = Owes;
    data_len-bytes_of = λ d. refl;
    bytes_of-from_vec = λ v. refl;
    get_range-Owes = get_range-Owes;
    poll_stream-Owes = poll_fake-Owes;
  }

  poll_fake-IsBrisk :
      (s : FakeStream) (b : Bytes)
      → Owes s b
      → IsBrisk {E = E} (λ d. d) spare (spare s) (poll_fake s)
  poll_fake-IsBrisk (http_serve.Fuzz.ServeNonempty.once (some d)) b h = omega arith
  poll_fake-IsBrisk (http_serve.Fuzz.ServeNonempty.once none) b h = tt
  poll_fake-IsBrisk out_of_bounds b h = absurd h

  spare-le : (s : FakeStream) → spare s ≤ 1
  spare-le (http_serve.Fuzz.ServeNonempty.once (some d)) = omega arith
  spare-le (http_serve.Fuzz.ServeNonempty.once none) = omega arith
  spare-le out_of_bounds = omega arith

  abbrev prompt : Prompt (fake_api too_short too_long) body faithful 1
  prompt = record { spare = spare; spare-le = spare-le; poll_stream-IsBrisk = poll_fake-IsBrisk }

  -- 240 is a u64
  fits : length body ≤ u64_max
  fits = omega arith

  abbrev BodyBehind : BodyStream Bytes E FakeStream → Bytes → Type 0
  BodyBehind = BodyOwes (fake_api too_short too_long) body faithful fits

  abbrev left_over : BodyStream Bytes E FakeStream → ℕ
  left_over = still_spare (fake_api too_short too_long) body faithful fits 1 prompt

  on_frame-finished :
      (o : Frame Bytes E FakeStream) (b : Bytes) (n : ℕ) (k : BodyStream Bytes E FakeStream → Ended)
      → FrameOwes (fake_api too_short too_long) body faithful fits b o
      → Advances (fake_api too_short too_long) body faithful fits 1 prompt n o
      → ((s : BodyStream Bytes E FakeStream) (rest : Bytes)
          → BodyBehind s rest
          → length rest + left_over s < length b + n
          → k s ≡ finished)
      → on_frame too_short too_long o k ≡ finished
  on_frame-finished (frame pending s) b n k h ahead rec = absurd ahead
  on_frame-finished (frame (ready none) s) b n k h ahead rec = refl
  on_frame-finished (frame (ready (some (err e))) s) b n k h ahead rec = absurd ahead
  on_frame-finished (frame (ready (some (ok d))) s) b n k (rest, split, owes) ahead rec =
      rec s rest owes (omega (arith, ap length split ∙ length-append d rest))
  on_frame-finished frame_panics b n k h ahead rec = absurd ahead

  poll_all-finished :
      (n : ℕ) (s : BodyStream Bytes E FakeStream) (b : Bytes)
      → BodyBehind s b
      → length b + left_over s < n
      → poll_all too_short too_long n s ≡ finished
  unfolding poll_all
  poll_all-finished zero s b h lt = absurd (omega arith)
  poll_all-finished (suc n) s b h lt =
      on_frame-finished (poll_frame (fake_api too_short too_long) s 0) b (left_over s)
        (poll_all too_short too_long n)
        (poll_frame-Owes (fake_api too_short too_long) body faithful fits s b 0 h)
        (poll_frame-Advances (fake_api too_short too_long) body faithful fits 1 prompt s b 0 h)
        (λ s' rest h' less. poll_all-finished n s' rest h' (omega arith))

  Carries-owed :
      (h : HeaderMap) (s : BodyStream Bytes E FakeStream)
      → Carries body BodyBehind h s
      → (b : Bytes) × BodyBehind s b
  Carries-owed h (once c) (b, owes) = (b, owes)
  Carries-owed h (exact_len s) (r, within, has, owes) = (slice body r, owes)
  Carries-owed h (multipart m) (within, has, owes) = (_, owes)
  Carries-owed h (chunker s) a = absurd a

  -- How the target should end: early if the request cannot be made.
  abbrev pub proper_end : Option RequestHeaders → Ended
  proper_end none = returned
  proper_end (some req_hdrs) = finished

  module _ (crates : HttpCrates) (keeps : InsertKeeps crates) (some_date : SystemTime)
      (dated : crates.parse_http_date some_date_str ≡ some some_date)
      (header_value : Bytes → Option Bytes) (now : SystemTime) where
    serve-finishes :
        (m : Method) (req_hdrs : RequestHeaders)
        → (enough : ℕ) × ((n : ℕ)
            → enough ≤ n
            → poll_all too_short too_long n
                (serve
                  (fake_api too_short too_long)
                  crates
                  (fake_entity crates (entity_strong_etag some_date))
                  now
                  m
                  req_hdrs).body
              ≡ finished)
    serve-finishes m req_hdrs =
        let ent = fake_entity crates (entity_strong_etag some_date) in
        let response = serve (fake_api too_short too_long) crates ent now m req_hdrs in
        let (b, owes) = Carries-owed response.parts.headers response.body (
          serve-Owes (fake_api too_short too_long) body faithful crates ent refl fits
            (fake_entity-OnlyAdds crates (entity_strong_etag some_date) keeps) now m req_hdrs) in
        (
          length b + left_over response.body + 1,
          λ n enough. poll_all-finished n response.body b owes (omega arith),
        )

    -- In a build without overflow checks and debug assertions, with `HeaderMap::insert` as documented
    -- and a date that `httpdate` can read: whatever the fuzzer's request is and whatever the crates do
    -- else, enough polls are enough for the target to end
    -- without a panic: no poll is pending, none gives an error, no slice is out of bounds; it returns
    -- early exactly if a header of the request is no header value.
    pub fuzz_target-ends :
        (req : Req)
        → (enough : ℕ) × ((n : ℕ)
            → enough ≤ n
            → fuzz_target too_short too_long n crates header_value now req
              ≡ proper_end (request header_value req))
    unfolding fuzz_target
    fuzz_target-ends req = go (request header_value req)
      where
        go :
            (o : Option RequestHeaders)
            → (enough : ℕ) × ((n : ℕ)
                → enough ≤ n
                → on_request too_short too_long n crates now (to_method req.verb) o ≡ proper_end o)
        go none = (0, λ n h. refl)
        go (some req_hdrs) =
            let (enough, ends) = serve-finishes (to_method req.verb) req_hdrs in
            (enough, λ n h. rw dated (ends n h))
