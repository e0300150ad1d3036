-- ===== src/Stream.antt =====
-- src/body.rs: `Body`, which is one of four streams, and what it says about itself.
pub mod Hint
pub mod Collect
pub mod Completes
pub mod Chunks
pub mod Texts
use http_serve.Base.{ℕ, Bool, true, false, ◌==◌, Option, none, some, Bytes, Result, ok, err}
use http_serve.Body.{ready, pending, Polled, StreamApi, ExactLenStream, poll_exact}
use http_serve.Multipart.{MultipartStream, Outcome, returns, again, panics}
use http_serve.Chunker.{Shared, SizeHint}

-- A chunked body holds what its reader shares with the writer.
pub data BodyStream (D E S : Type 0) : Type 0 where
  once : Option (Result D E) → BodyStream D E S
  exact_len : ExactLenStream S → BodyStream D E S
  multipart : MultipartStream S → BodyStream D E S
  chunker : Shared E → BodyStream D E S

-- `frame_panics` is the panic of a multipart stream.
pub data Frame (D E S : Type 0) : Type 0 where
  frame : Polled D E → BodyStream D E S → Frame D E S
  frame_panics : Frame D E S

abbrev pub with_exact : ℕ → SizeHint
with_exact n = record { lower = n; upper = some n }

-- `D::from` on the chunks of a chunked body
abbrev pub polled_data : {D E : Type 0} → (Bytes → D) → Polled Bytes E → Polled D E
polled_data from_vec (ready (some (ok c))) = ready (some (ok (from_vec c)))
polled_data from_vec (ready (some (err e))) = ready (some (err e))
polled_data from_vec (ready none) = ready none
polled_data from_vec pending = pending

module _ {D E S : Type 0} where
  abbrev pub empty : BodyStream D E S
  empty = once none

  -- `Body::from` of a `&'static str`: a `D` of bytes that stay in memory and one of a vector of them hold
  -- the same bytes
  abbrev pub from_text : StreamApi D E S → Bytes → BodyStream D E S
  from_text api value = once (some (ok (api.from_vec value)))

  -- `Body::from` of bytes and of a `String`. `D::from` of bytes that stay in memory is an argument.
  abbrev pub from_static : (Bytes → D) → Bytes → BodyStream D E S
  from_static from_slice value = once (some (ok (from_slice value)))

  abbrev pub from_vec : StreamApi D E S → Bytes → BodyStream D E S
  from_vec api value = once (some (ok (api.from_vec value)))

  -- `into_bytes` of a string are its bytes
  abbrev pub from_string : StreamApi D E S → Bytes → BodyStream D E S
  from_string api value = from_vec api value

  abbrev of_multipart : Outcome D E S → Frame D E S
  of_multipart (returns p s) = frame p (multipart s)
  of_multipart (again s) = frame_panics
  of_multipart panics = frame_panics

  -- `poll_frame`, by task `cx`
  unfoldable pub poll_frame : StreamApi D E S → BodyStream D E S → ℕ → Frame D E S
  unfolding poll_exact http_serve.Multipart.poll_next http_serve.Chunker.poll_state
  poll_frame api (once c) cx = frame (ready c) (once none)
  poll_frame api (exact_len s) cx = let (p, s') = poll_exact api s in frame p (exact_len s')
  poll_frame api (multipart s) cx = of_multipart (http_serve.Multipart.poll_next api s)
  poll_frame api (chunker s) cx =
      let (p, s') = http_serve.Chunker.poll_state s.state s.waker cx in
      frame (polled_data api.from_vec p) (chunker s')

  unfoldable pub size_hint : StreamApi D E S → BodyStream D E S → SizeHint
  unfolding http_serve.Chunker.size_hint
  size_hint api (once (some (ok d))) = with_exact (api.data_len d)
  size_hint api (once _) = with_exact 0
  size_hint api (exact_len s) = with_exact s.remaining
  size_hint api (multipart s) = with_exact s.remaining
  size_hint api (chunker s) = http_serve.Chunker.size_hint s.state

  unfoldable pub is_end_stream : BodyStream D E S → Bool
  unfolding http_serve.Chunker.is_end_stream
  is_end_stream (once none) = true
  is_end_stream (once (some r)) = false
  is_end_stream (exact_len s) = s.remaining == 0
  is_end_stream (multipart s) = s.remaining == 0
  is_end_stream (chunker s) = http_serve.Chunker.is_end_stream s.state
