-- ===== src/Fuzz/ServeNonempty.antt =====
-- fuzz/fuzz_targets/serve_nonempty.rs: a fuzzer's request to `serve`, and the poll of the whole body.
use http_serve.Base.{
  ℕ, zero, suc, ◌-◌, ◌&&◌, Option, none, some, ◌++◌, leb, if◌then◌else◌, Bytes, codes, ok, err,
  length, take, drop,
}
use http_serve.Http.{
  Method, RequestHeaders, SystemTime, HttpCrates, HeaderMap, content_type, if_unmodified_since,
  if_modified_since, range, if_range,
}
use http_serve.Range.{ByteRange}
use http_serve.Body.{Polled, ready, pending, StreamApi}
use http_serve.Stream.{BodyStream, Frame, frame, frame_panics, poll_frame}
use http_serve.Serving.{Entity, serve}

abbrev pub body : Bytes
body =
    codes "01234567890123456789012345678901234567890123456789012345678901234567890123456789"
    ++ codes "01234567890123456789012345678901234567890123456789012345678901234567890123456789"
    ++ codes "01234567890123456789012345678901234567890123456789012345678901234567890123456789"

pub record FakeEntity : Type 0 where
  pub etag : Option Bytes
  pub last_modified : SystemTime

pub data Verb : Type 0 where
  get head options : Verb

abbrev pub to_method : Verb → Method
to_method get = http_serve.Http.get
to_method head = http_serve.Http.head
to_method options = http_serve.Http.other

pub record Req : Type 0 where
  pub verb : Verb
  pub if_unmodified_since : Option Bytes
  pub if_modified_since : Option Bytes
  pub range : Option Bytes
  pub if_range : Option Bytes

-- `futures::stream::once` of a ready chunk. `out_of_bounds` is the panic of the slice in `get_range`.
pub data FakeStream : Type 0 where
  once : Option Bytes → FakeStream
  out_of_bounds : FakeStream

abbrev pub get_range : ByteRange → FakeStream
get_range r =
    if leb r.start r.end && leb r.end (length body)
    then once (some (take (r.end - r.start) (drop r.start body)))
    else out_of_bounds

-- A pending stream makes the target panic, as a slice out of bounds does.
abbrev pub poll_fake : {E : Type 0} → FakeStream → Polled Bytes E × FakeStream
poll_fake (once (some d)) = (ready (some (ok d)), once none)
poll_fake (once none) = (ready none, once none)
poll_fake out_of_bounds = (pending, out_of_bounds)

abbrev pub fake_entity : HttpCrates → FakeEntity → Entity
fake_entity crates ent = record {
  len = length body;
  tag = ent.etag;
  modified = some ent.last_modified;
  add_headers = crates.insert content_type (codes "application/octet-stream");
}

-- How the target ends. `returned` is its early return, `running` that the polls are used up.
pub data Ended : Type 0 where
  returned finished panicked running : Ended

-- The header, if there is one; `header_value` is `HeaderValue::try_from` of a string.
abbrev pub valid : Option Bytes → Option (Option Bytes)
valid none = none
valid (some value) = some (some value)

abbrev pub header : (Bytes → Option Bytes) → Option Bytes → Option (Option Bytes)
header header_value none = some none
header header_value (some v) = valid (header_value v)

abbrev headers : Option Bytes → Option Bytes → Option Bytes → Option Bytes → RequestHeaders
headers until since r i if_unmodified_since = until
headers until since r i if_modified_since = since
headers until since r i range = r
headers until since r i if_range = i
headers until since r i _ = none

abbrev headers_at :
    Option (Option Bytes)
    → Option (Option Bytes)
    → Option (Option Bytes)
    → Option (Option Bytes)
    → Option RequestHeaders
headers_at (some until) (some since) (some r) (some i) = some (headers until since r i)
headers_at _ _ _ _ = none

-- `builder.body(())`
abbrev pub request : (Bytes → Option Bytes) → Req → Option RequestHeaders
request header_value req =
    headers_at (header header_value req.if_unmodified_since)
      (header header_value req.if_modified_since) (header header_value req.range)
      (header header_value req.if_range)

abbrev pub some_date_str : Bytes
some_date_str = codes "Sun, 06 Nov 1994 08:49:37 GMT"

abbrev pub entity_strong_etag : SystemTime → FakeEntity
entity_strong_etag some_date = record { etag = some (codes "\"foo\""); last_modified = some_date }

-- `too_short` and `too_long` make the errors of an exact-length stream.
module _ {E : Type 0} (too_short too_long : ℕ → E) where
  abbrev pub fake_api : StreamApi Bytes E FakeStream
  fake_api = record {
    poll_stream = poll_fake;
    data_len = length;
    from_vec = λ v. v;
    too_short = too_short;
    too_long = too_long;
    get_range = get_range;
  }

  abbrev pub on_frame : Frame Bytes E FakeStream → (BodyStream Bytes E FakeStream → Ended) → Ended
  on_frame (frame pending b) k = panicked
  on_frame (frame (ready (some (err e))) b) k = panicked
  on_frame (frame (ready (some (ok d))) b) k = k b
  on_frame (frame (ready none) b) k = finished
  on_frame frame_panics k = panicked

  -- The loop, with fuel for its polls; the task is that of the noop waker.
  unfoldable pub poll_all : ℕ → BodyStream Bytes E FakeStream → Ended
  unfolding poll_frame
  poll_all zero b = running
  poll_all (suc n) b = on_frame (poll_frame fake_api b 0) (poll_all n)

  -- The entity is made when it is first used.
  abbrev pub with_entity :
      ℕ → HttpCrates → SystemTime → Method → RequestHeaders → Option SystemTime → Ended
  with_entity n crates now m req_hdrs none = panicked
  with_entity n crates now m req_hdrs (some some_date) =
      poll_all n
        (serve fake_api crates (fake_entity crates (entity_strong_etag some_date)) now m
          req_hdrs).body

  abbrev pub on_request : ℕ → HttpCrates → SystemTime → Method → Option RequestHeaders → Ended
  on_request n crates now m none = returned
  on_request n crates now m (some req_hdrs) =
      with_entity n crates now m req_hdrs (crates.parse_http_date some_date_str)

  -- The target without overflow checks and debug assertions, which cargo-fuzz leaves on if it is not
  -- told otherwise: with them, a last position of 18446744073709551615 in Range is a panic.
  unfoldable pub fuzz_target : ℕ → HttpCrates → (Bytes → Option Bytes) → SystemTime → Req → Ended
  unfolding serve poll_all
  fuzz_target n crates header_value now req =
      on_request n crates now (to_method req.verb) (request header_value req)
