-- ===== src/Stream/Completes.antt =====
-- A body over prompt streams comes to its end.
use http_serve.Base.{
  ℕ, zero, suc, ◌+◌, ◌≤◌, ◌<◌, ◌≡◌, refl, ap, ◌∙◌, none, some, arith, Bytes, ok, err, length,
  length-append, u64_max, ◌*◌, Option,
}
use http_serve.Body.{ready, pending, Polled, StreamApi, ExactLenStream, poll_exact}
use http_serve.Body.Faithful.{Faithful}
use http_serve.Body.Prompt.{IsBrisk, Prompt, exact_spare, poll_exact-IsBrisk}
use http_serve.Multipart.{Outcome, returns, again, panics, poll_next}
use http_serve.Multipart.Prompt.{states_left, cur_spare, polls_left, GetsAhead, poll_next-GetsAhead}
use http_serve.Multipart.Settles.{Settled}
use http_serve.Multipart.Delivers.{poll_next-Owes}
use http_serve.Stream.{
  BodyStream, once, exact_len, multipart, chunker, Frame, frame, frame_panics, of_multipart,
  poll_frame,
}
use http_serve.Stream.Collect.{
  Status, complete, on_frame, collect, BodyOwes, FrameOwes, poll_frame-Owes, collect-Gets,
}

-- Polls that a body may need beside those that give the bytes it owes, if each of the streams that it
-- polls needs `spares` of them at most.
abbrev pub spare_polls : {D E S : Type 0} → ℕ → BodyStream D E S → ℕ
spare_polls spares (once none) = 0
spare_polls spares (once (some c)) = 1
spare_polls spares (exact_len s) = spares
spare_polls spares (multipart m) = states_left m * suc spares + spares
spare_polls spares (chunker s) = 0

module _ {D E S : Type 0} (api : StreamApi D E S) (contents : Bytes)
    (faithful : Faithful api contents) (fits : length contents ≤ u64_max) (spares : ℕ)
    (prompt : Prompt api contents faithful spares) where
  open faithful use {bytes_of}
  open prompt use {spare, spare-le}

  abbrev pub still_spare : BodyStream D E S → ℕ
  still_spare (once none) = 0
  still_spare (once (some c)) = 1
  still_spare (exact_len s) = spare s.stream
  still_spare (multipart m) = polls_left api contents faithful fits spares prompt m
  still_spare (chunker s) = 0

  pub still_spare-le : (s : BodyStream D E S) → still_spare s ≤ spare_polls spares s
  still_spare-le (once none) = omega arith
  still_spare-le (once (some c)) = omega arith
  still_spare-le (exact_len s) = spare-le s.stream
  still_spare-le (multipart m) = go m.cur
    where
      go :
          (c : Option (ExactLenStream S))
          → states_left m * suc spares + cur_spare api contents faithful fits spares prompt c
            ≤ states_left m * suc spares + spares
      go none = omega arith
      go (some cur) = omega (arith, spare-le cur.stream)
  still_spare-le (chunker s) = omega arith

  abbrev pub Advances : ℕ → Frame D E S → Type 0
  Advances n (frame p s) = IsBrisk bytes_of still_spare n (p, s)
  Advances n frame_panics = ⊥

  of_multipart-Advances :
      (o : Outcome D E S) (n : ℕ)
      → Settled o
      → GetsAhead api contents faithful fits spares prompt n o
      → Advances n (of_multipart o)
  of_multipart-Advances (again m) n s h = absurd s
  of_multipart-Advances panics n s h = h
  of_multipart-Advances (returns pending m) n s h = h
  of_multipart-Advances (returns (ready none) m) n s h = h
  of_multipart-Advances (returns (ready (some (err e))) m) n s h = h
  of_multipart-Advances (returns (ready (some (ok d))) m) n s h = h

  exact-Advances :
      (p : Polled D E) (s : ExactLenStream S) (n : ℕ)
      → IsBrisk bytes_of (exact_spare api contents faithful spares prompt) n (p, s)
      → Advances n (frame p (exact_len s))
  exact-Advances pending s n h = h
  exact-Advances (ready none) s n h = h
  exact-Advances (ready (some (err e))) s n h = h
  exact-Advances (ready (some (ok d))) s n h = h

  pub poll_frame-Advances :
      (s : BodyStream D E S) (b : Bytes) (cx : ℕ)
      → BodyOwes api contents faithful fits s b
      → Advances (still_spare s) (poll_frame api s cx)
  unfolding poll_frame
  poll_frame-Advances (once none) b cx h = tt
  poll_frame-Advances (once (some (ok d))) b cx h = omega arith
  poll_frame-Advances (once (some (err e))) b cx h = absurd h
  poll_frame-Advances (exact_len s) b cx h =
      exact-Advances (poll_exact api s).0 (poll_exact api s).1 (spare s.stream)
        (poll_exact-IsBrisk api contents faithful spares prompt s b h)
  poll_frame-Advances (multipart m) b cx h =
      let (settled, owes) = poll_next-Owes api contents faithful fits m b h in
      of_multipart-Advances (poll_next api m)
        (polls_left api contents faithful fits spares prompt m) settled
        (poll_next-GetsAhead api contents faithful fits spares prompt m b h)
  poll_frame-Advances (chunker s) b cx h = absurd h

  on_frame-complete :
      (o : Frame D E S) (b : Bytes) (n : ℕ) (k : BodyStream D E S → Bytes × Status E)
      → FrameOwes api contents faithful fits b o
      → Advances n o
      → ((s : BodyStream D E S) (rest : Bytes)
          → BodyOwes api contents faithful fits s rest
          → length rest + still_spare s < length b + n
          → (k s).1 ≡ complete)
      → (on_frame api bytes_of o k).1 ≡ complete
  on_frame-complete (frame pending s) b n k h ahead rec = absurd ahead
  on_frame-complete (frame (ready none) s) b n k h ahead rec = refl
  on_frame-complete (frame (ready (some (err e))) s) b n k h ahead rec = absurd ahead
  on_frame-complete (frame (ready (some (ok d))) s) b n k (rest, split, owes) ahead rec =
      rec s rest owes (omega (arith, ap length split ∙ length-append (bytes_of d) rest))
  on_frame-complete frame_panics b n k h ahead rec = absurd ahead

  collect-ends :
      (n : ℕ) (s : BodyStream D E S) (b : Bytes) (cx : ℕ)
      → BodyOwes api contents faithful fits s b
      → length b + still_spare s < n
      → (collect api bytes_of n s cx).1 ≡ complete
  unfolding collect
  collect-ends zero s b cx h lt = absurd (omega arith)
  collect-ends (suc n) s b cx h lt =
      on_frame-complete (poll_frame api s cx) b (still_spare s) (λ s'. collect api bytes_of n s' cx)
        (poll_frame-Owes api contents faithful fits s b cx h) (poll_frame-Advances s b cx h)
        (λ s' rest h' less. collect-ends n s' rest cx h' (omega arith))

  -- More polls than the body owes bytes, and has states left, get all these bytes and the end.
  pub collect-complete :
      (n : ℕ) (s : BodyStream D E S) (b : Bytes) (cx : ℕ)
      → BodyOwes api contents faithful fits s b
      → length b + spare_polls spares s < n
      → collect api bytes_of n s cx ≡ (b, complete)
  collect-complete n s b cx h lt =
      let ended = collect-ends n s b cx h (omega (arith, still_spare-le s)) in
      let (_, all, _) = collect-Gets api contents faithful fits n s b cx h in
      let (got, status) = collect api bytes_of n s cx in
      ap (λ x. (x, status)) (all ended) ∙ ap (λ x. (b, x)) ended
