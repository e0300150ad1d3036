-- ===== src/Stream/Collect.antt =====
-- What a client gets from a body that it polls to its end.
use http_serve.Base.{
  ℕ, zero, suc, ◌≡◌, ◌≢◌, refl, ap, ◌∙◌, sym, none, some, [], ◌++◌, append_assoc, Bytes, ok, err,
  ◌≤◌, append-nil, length, u64_max,
}
use http_serve.Body.{ready, pending, Polled, StreamApi, poll_exact, ExactLenStream}
use http_serve.Body.Faithful.{PollOwes, Faithful, ExactOwes, poll_exact-Owes}
use http_serve.Multipart.{Outcome, returns, again, panics, poll_next}
use http_serve.Multipart.Contents.{MultipartOwes, OutcomeOwes}
use http_serve.Multipart.Delivers.{poll_next-Owes}
use http_serve.Multipart.Settles.{Settled}
use http_serve.Stream.{
  BodyStream, once, exact_len, multipart, chunker, Frame, frame, frame_panics, of_multipart,
  poll_frame,
}

-- How far a client has come.
pub data Status (E : Type 0) : Type 0 where
  waiting complete crashed : Status E
  broken : E → Status E

module _ {D E S : Type 0} (api : StreamApi D E S) (bytes_of : D → Bytes) where
  abbrev pub on_frame : Frame D E S → (BodyStream D E S → Bytes × Status E) → Bytes × Status E
  on_frame (frame pending b) k = k b
  on_frame (frame (ready none) b) k = ([], complete)
  on_frame (frame (ready (some (err e))) b) k = ([], broken e)
  on_frame (frame (ready (some (ok d))) b) k =
      let (bytes, status) = k b in (bytes_of d ++ bytes, status)
  on_frame frame_panics k = ([], crashed)

  -- The bytes of up to `n` polls by task `cx`, until the body ends or fails.
  unfoldable pub collect : ℕ → BodyStream D E S → ℕ → Bytes × Status E
  collect zero b cx = ([], waiting)
  collect (suc n) b cx = on_frame (poll_frame api b cx) (λ b'. collect n b' cx)

  -- The client got the first of these bytes, and all of them if it came to the end.
  abbrev pub Gets : Bytes → Bytes × Status E → Type 0
  Gets b (got, status) =
      ((rest : Bytes) × (b ≡ got ++ rest)) × (status ≡ complete → got ≡ b) × (status ≢ crashed)

module _ {D E S : Type 0} (api : StreamApi D E S) (contents : Bytes)
    (faithful : Faithful api contents) (fits : length contents ≤ u64_max) where
  open faithful use {bytes_of}

  -- A response's own texts, and streams of the entity.
  abbrev pub BodyOwes : BodyStream D E S → Bytes → Type 0
  BodyOwes (once none) b = b ≡ []
  BodyOwes (once (some (ok d))) b = b ≡ bytes_of d
  BodyOwes (once (some (err e))) b = ⊥
  BodyOwes (exact_len s) b = ExactOwes api contents faithful s b
  BodyOwes (multipart m) b = MultipartOwes api contents faithful fits m b
  BodyOwes (chunker s) b = ⊥

  abbrev pub FrameOwes : Bytes → Frame D E S → Type 0
  FrameOwes b (frame p s) = PollOwes bytes_of BodyOwes b (p, s)
  FrameOwes b frame_panics = ⊥

  of_multipart-Owes :
      (o : Outcome D E S) (b : Bytes)
      → Settled o
      → OutcomeOwes api contents faithful fits b o
      → FrameOwes b (of_multipart o)
  of_multipart-Owes (again m) b s h = absurd s
  of_multipart-Owes panics b s h = h
  of_multipart-Owes (returns pending m) b s h = h
  of_multipart-Owes (returns (ready none) m) b s h = h
  of_multipart-Owes (returns (ready (some (err e))) m) b s h = h
  of_multipart-Owes (returns (ready (some (ok d))) m) b s h = h

  exact-Owes :
      (p : Polled D E) (s : ExactLenStream S) (b : Bytes)
      → PollOwes bytes_of (ExactOwes api contents faithful) b (p, s)
      → FrameOwes b (frame p (exact_len s))
  exact-Owes pending s b h = h
  exact-Owes (ready none) s b h = h
  exact-Owes (ready (some (err e))) s b h = h
  exact-Owes (ready (some (ok d))) s b h = h

  pub poll_frame-Owes :
      (s : BodyStream D E S) (b : Bytes) (cx : ℕ) → BodyOwes s b → FrameOwes b (poll_frame api s cx)
  unfolding poll_frame
  poll_frame-Owes (once none) b cx h = h
  poll_frame-Owes (once (some (ok d))) b cx h = ([], h ∙ sym (append-nil (bytes_of d)), refl)
  poll_frame-Owes (once (some (err e))) b cx h = absurd h
  poll_frame-Owes (exact_len s) b cx h =
      exact-Owes (poll_exact api s).0 (poll_exact api s).1 b
        (poll_exact-Owes api contents faithful s b h)
  poll_frame-Owes (multipart m) b cx h =
      let (settled, owes) = poll_next-Owes api contents faithful fits m b h in
      of_multipart-Owes (poll_next api m) b settled owes
  poll_frame-Owes (chunker s) b cx h = absurd h

  on_frame-Gets :
      (o : Frame D E S) (b : Bytes) (k : BodyStream D E S → Bytes × Status E)
      → FrameOwes b o
      → ((s : BodyStream D E S) (rest : Bytes) → BodyOwes s rest → Gets api bytes_of rest (k s))
      → Gets api bytes_of b (on_frame api bytes_of o k)
  on_frame-Gets (frame pending s) b k h rec = rec s b h
  on_frame-Gets (frame (ready none) s) b k h rec = (([], h), (λ e. sym h), (λ e. cc))
  on_frame-Gets (frame (ready (some (err e))) s) b k h rec = ((b, refl), (λ x. cc), (λ x. cc))
  on_frame-Gets (frame (ready (some (ok d))) s) b k (rest, split, owes) rec =
      let ((left, more), all, fine) = rec s rest owes in
      (
        (
          left,
          split ∙ ap (λ x. bytes_of d ++ x) more ∙ sym (append_assoc (bytes_of d) (k s).0 left),
        ),
        (λ e. ap (λ x. bytes_of d ++ x) (all e) ∙ sym split),
        fine,
      )
  on_frame-Gets frame_panics b k h rec = absurd h

  -- Whoever polls a body that owes some bytes gets the first of them, and all of them if the body
  -- comes to its end; no poll panics.
  pub collect-Gets :
      (n : ℕ) (s : BodyStream D E S) (b : Bytes) (cx : ℕ)
      → BodyOwes s b
      → Gets api bytes_of b (collect api bytes_of n s cx)
  unfolding collect
  collect-Gets zero s b cx h = ((b, refl), (λ e. cc), (λ e. cc))
  collect-Gets (suc n) s b cx h =
      on_frame-Gets (poll_frame api s cx) b (λ s'. collect api bytes_of n s' cx)
        (poll_frame-Owes s b cx h) (λ s' rest h'. collect-Gets n s' rest cx h')
