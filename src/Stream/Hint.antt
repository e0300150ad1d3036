-- ===== src/Stream/Hint.antt =====
-- What a body says about its length, against what its polls give.
use http_serve.Base.{
  ℕ, ◌+◌, ◌≡◌, refl, true, false, Option, none, some, [], ◌∷◌, arith, Bytes, ok, err, length,
  total_length,
}
use http_serve.Body.{ready, pending, Polled, StreamApi, ExactLenStream, poll_exact}
use http_serve.Body.Exact.{given, is_error, poll_exact-Counts}
use http_serve.Multipart.{Outcome, returns, again, panics, poll_next}
use http_serve.Multipart.Invariant.{Inv, Fine}
use http_serve.Multipart.Settles.{Settled}
use http_serve.Multipart.Polls.{poll_next-Fine}
use http_serve.Chunker.{SharedState, live, failed, reader_fused, poll_state}
use http_serve.Stream.{
  BodyStream, once, exact_len, multipart, chunker, Frame, frame, frame_panics, of_multipart,
  polled_data, poll_frame, size_hint,
}

module _ {D E S : Type 0} (api : StreamApi D E S)
    (data_len-from_vec : (v : Bytes) → api.data_len (api.from_vec v) ≡ length v) where
  -- The byte counts that the streams keep are right.
  abbrev StateCounts : SharedState E → Type 0
  StateCounts (live queue bytes dropped) = bytes ≡ total_length queue
  StateCounts _ = Unit

  abbrev pub BodyInv : BodyStream D E S → Type 0
  BodyInv (once c) = Unit
  BodyInv (exact_len s) = Unit
  BodyInv (multipart m) = Inv m
  BodyInv (chunker s) = StateCounts s.state

  -- Without an error, the lower bound goes down by what was given, and is zero at the end.
  abbrev pub Keeps : ℕ → Frame D E S → Type 0
  Keeps n (frame (ready (some (err e))) b) = Unit
  Keeps n (frame (ready none) b) = n ≡ 0
  Keeps n (frame p b) = BodyInv b × (given api p + (size_hint api b).lower ≡ n)
  Keeps n frame_panics = ⊥

  exact-Keeps :
      (p : Polled D E) (s : ExactLenStream S) (n : ℕ)
      → (is_error api p ≡ false → given api p + s.remaining ≡ n)
      → (p ≡ ready none → s.remaining ≡ 0)
      → Keeps n (frame p (exact_len s))
  unfolding size_hint
  exact-Keeps pending s n kept ended = (tt, kept refl)
  exact-Keeps (ready none) s n kept ended = omega (arith, kept refl, ended refl)
  exact-Keeps (ready (some (err e))) s n kept ended = tt
  exact-Keeps (ready (some (ok d))) s n kept ended = (tt, kept refl)

  multipart-Keeps :
      (o : Outcome D E S) (n : ℕ) → Settled o → Fine api n o → Keeps n (of_multipart o)
  unfolding size_hint
  multipart-Keeps (again m) n s f = absurd s
  multipart-Keeps panics n s f = f
  multipart-Keeps (returns pending m) n s f = (f.0, omega (arith, f.1))
  multipart-Keeps (returns (ready none) m) n s f = f.2
  multipart-Keeps (returns (ready (some (err e))) m) n s f = tt
  multipart-Keeps (returns (ready (some (ok d))) m) n s f = (f.0, omega (arith, f.1))

  chunker-Keeps :
      (st : SharedState E) (waker : Option ℕ) (cx : ℕ)
      → StateCounts st
      → Keeps (size_hint api (chunker (record { state = st; waker = waker }))).lower (
          frame
            (polled_data api.from_vec (poll_state st waker cx).0)
            (chunker (poll_state st waker cx).1))
  unfolding size_hint poll_state
  chunker-Keeps (failed e) waker cx h = tt
  chunker-Keeps reader_fused waker cx h = refl
  chunker-Keeps (live [] bytes true) waker cx h = h
  chunker-Keeps (live [] bytes false) waker cx h = (h, omega arith)
  chunker-Keeps (live (x ∷ []) bytes true) waker cx h = (tt, omega (arith, data_len-from_vec x))
  chunker-Keeps (live (x ∷ []) bytes false) waker cx h =
      (omega arith, omega (arith, data_len-from_vec x))
  chunker-Keeps (live (x ∷ y ∷ queue) bytes d) waker cx h =
      (omega arith, omega (arith, data_len-from_vec x))

  -- On every kind of body: while no error is reported, a poll gives just the bytes by which the
  -- lower bound of the size hint goes down, the end is only reported when that bound is zero, and
  -- the counts stay right.
  pub poll_frame-Keeps :
      (b : BodyStream D E S) (cx : ℕ)
      → BodyInv b
      → Keeps (size_hint api b).lower (poll_frame api b cx)
  unfolding poll_frame size_hint
  poll_frame-Keeps (once none) cx h = refl
  poll_frame-Keeps (once (some (ok d))) cx h = (tt, omega arith)
  poll_frame-Keeps (once (some (err e))) cx h = tt
  poll_frame-Keeps (exact_len s) cx h =
      let (_, kept, ended) = poll_exact-Counts api s in
      exact-Keeps (poll_exact api s).0 (poll_exact api s).1 s.remaining kept ended
  poll_frame-Keeps (multipart m) cx h =
      let (settled, fine) = poll_next-Fine api data_len-from_vec m h in
      multipart-Keeps (poll_next api m) m.remaining settled fine
  poll_frame-Keeps (chunker s) cx h = chunker-Keeps s.state s.waker cx h
