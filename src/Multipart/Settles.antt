-- ===== src/Multipart/Settles.antt =====
-- The loop in `poll_next` makes two rounds at most, in whatever state the stream is.
use http_serve.Base.{
  ℕ, ◌≡◌, refl, true, false, Option, none, some, Bytes, ◌+◌, sym, subst, Bool, arith, ◌==◌, ok, err,
  length, get_elem?,
}
use http_serve.Range.{ByteRange}
use http_serve.Body.{ready, pending, Polled, StreamApi, ExactLenStream, poll_exact}
use http_serve.Multipart.{
  MultipartStream, Outcome, returns, again, panics, is_odd, index, start_body, send_header,
  dispatch, on_part, round_at, round, poll_next, continue, dispatch_at,
}

module _ {D E S : Type 0} where
  -- The loop has ended, by a return or a panic.
  abbrev pub Settled : Outcome D E S → Type 0
  Settled (again m) = ⊥
  Settled _ = Unit

  -- If the loop goes on, then with a part's stream at hand.
  abbrev HasBody : Outcome D E S → Type 0
  HasBody (again m) = (is_odd m.state ≡ true) × (c : ExactLenStream S) × (m.cur ≡ some c)
  HasBody _ = Unit

module _ {D E S : Type 0} (api : StreamApi D E S) where
  start_body-HasBody :
      (o : Option ByteRange) (m : MultipartStream S)
      → is_odd m.state ≡ true
      → HasBody (start_body api o m)
  start_body-HasBody none m odd = tt
  start_body-HasBody (some r) m odd = (odd, _, refl)

  send_header-Settled :
      (o : Option Bytes) (i : ℕ) (m : MultipartStream S) → Settled (send_header api o i m)
  send_header-Settled none i m = tt
  send_header-Settled (some v) i m = tt

  dispatch_at-HasBody :
      (last odd : Bool) (i : ℕ) (m : MultipartStream S)
      → is_odd m.state ≡ odd
      → HasBody (dispatch_at api last odd i m)
  dispatch_at-HasBody true true i m e = tt
  dispatch_at-HasBody true false i m e = tt
  dispatch_at-HasBody false true i m e = start_body-HasBody (get_elem? m.ranges i) m e
  dispatch_at-HasBody false false i m e = header (get_elem? m.part_headers i)
    where
      header : (o : Option Bytes) → HasBody (send_header api o i m)
      header none = tt
      header (some v) = tt

  dispatch_at-Settled :
      (last : Bool) (i : ℕ) (m : MultipartStream S) → Settled (dispatch_at api last false i m)
  dispatch_at-Settled true i m = tt
  dispatch_at-Settled false i m = send_header-Settled (get_elem? m.part_headers i) i m

  dispatch-HasBody : (m : MultipartStream S) → HasBody (dispatch api m)
  unfolding dispatch
  dispatch-HasBody m = dispatch_at-HasBody _ (is_odd m.state) (index m.state) m refl

  dispatch-Settled : (m : MultipartStream S) → is_odd m.state ≡ false → Settled (dispatch api m)
  unfolding dispatch
  dispatch-Settled m even =
      let last = index m.state == length m.ranges in
      subst (λ odd. Settled (dispatch_at api last odd (index m.state) m)) (sym even)
        (dispatch_at-Settled last (index m.state) m)

  on_part-HasBody :
      (p : Polled D E) (c : ExactLenStream S) (m : MultipartStream S) → HasBody (on_part api p c m)
  on_part-HasBody pending c m = tt
  on_part-HasBody (ready none) c m = dispatch-HasBody _
  on_part-HasBody (ready (some (err e))) c m = tt
  on_part-HasBody (ready (some (ok d))) c m = tt

  on_part-Settled :
      (p : Polled D E) (c : ExactLenStream S) (m : MultipartStream S)
      → is_odd m.state ≡ true
      → Settled (on_part api p c m)
  on_part-Settled pending c m odd = tt
  on_part-Settled (ready none) c m odd =
      dispatch-Settled (record m { cur = none; state = m.state + 1 }) (ground arith)
  on_part-Settled (ready (some (err e))) c m odd = tt
  on_part-Settled (ready (some (ok d))) c m odd = tt

  round_at-HasBody :
      (c : Option (ExactLenStream S)) (m : MultipartStream S) → HasBody (round_at api c m)
  round_at-HasBody none m = dispatch-HasBody m
  round_at-HasBody (some c) m = on_part-HasBody (poll_exact api c).0 (poll_exact api c).1 m

  second :
      (o : Outcome D E S)
      → HasBody o
      → Settled (continue api o (λ m. continue api (round api m) again))
  unfolding round
  second (returns p m) h = tt
  second panics h = tt
  second (again m) (odd, c, busy) =
      let next = on_part api (poll_exact api c).0 (poll_exact api c).1 m in
      subst (λ cur. Settled (continue api (round_at api cur m) again)) (sym busy)
        (closes next (on_part-Settled (poll_exact api c).0 (poll_exact api c).1 m odd))
    where
      closes : (o : Outcome D E S) → Settled o → Settled (continue api o again)
      closes (returns p m) s = tt
      closes panics s = tt
      closes (again m) s = s

  -- In every state, reachable or not, and whatever the parts' streams do, `poll_next` comes to its
  -- end: its fuel of two rounds is never what stops it.
  pub poll_next-Settled : (m : MultipartStream S) → Settled (poll_next api m)
  unfolding poll_next
  poll_next-Settled m = second (round api m) (unfold round in round_at-HasBody m.cur m)
