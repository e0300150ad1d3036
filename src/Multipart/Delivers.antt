-- ===== src/Multipart/Delivers.antt =====
-- Every poll of a multipart body gives the next of the bytes that the body owes.
use http_serve.Base.{
  ℕ, suc, ◌+◌, ◌*◌, ◌≤◌, ◌<◌, ◌≡◌, refl, sym, ap, ◌∙◌, subst, Option, none, some, List, [], ◌∷◌,
  ◌++◌, append_assoc, arith, Bytes, ok, err, All, length, drop, u64_max, drop-length,
}
use native.Mathlib.Decide.{dec_lt}
use http_serve.Range.{ByteRange}
use http_serve.Body.{ready, pending, Polled, StreamApi, ExactLenStream, poll_exact}
use http_serve.Body.Faithful.{Within, PollOwes, Faithful, ExactOwes, poll_exact-Owes}
use http_serve.Multipart.{
  part_trailer, MultipartStream, Outcome, returns, again, panics, dispatch, on_part, round_at,
  round, rounds, poll_next, continue,
}
use http_serve.Multipart.Settles.{Settled, poll_next-Settled}
use http_serve.Multipart.Contents.{
  parts_bytes, from_part, Stands, at_header, at_body, in_body, at_trailer, at_end, MultipartOwes,
  OutcomeOwes, dispatch-Owes,
}

module _ {D E S : Type 0} (api : StreamApi D E S) (contents : Bytes)
    (faithful : Faithful api contents) (fits : length contents ≤ u64_max) where
  open api use {from_vec, get_range}
  open faithful use {bytes_of, bytes_of-from_vec, get_range-Owes}

  -- Behind the last byte of part `i`.
  pub next_part :
      (m : MultipartStream S) (i : ℕ)
      → length m.part_headers ≡ length m.ranges
      → All (Within contents) m.ranges
      → i < length m.ranges
      → m.state ≡ i * 2 + 1
      → MultipartOwes api contents faithful fits
          (record m { cur = none; state = m.state + 1 })
          (from_part api contents faithful fits (suc i) m)
  next_part m i matched valid lt at = record {
    matched = matched;
    valid = valid;
    stands = elim (dec_lt (suc i) (length m.ranges)) [
      | yes more ↦ at_header (suc i) more (omega arith) refl refl
      | no last ↦ at_trailer (omega arith) refl (nothing (omega arith))
    ];
  }
    where
      nothing :
          suc i ≡ length m.ranges → from_part api contents faithful fits (suc i) m ≡ part_trailer
      nothing e =
          let none_left : drop (suc i) m.ranges ≡ [] = rw e (drop-length m.ranges) in
          let no_header : drop (suc i) m.part_headers ≡ [] =
            rw (e ∙ sym matched) (drop-length m.part_headers) in
          rw (none_left, no_header)

  on_part-Owes :
      (m : MultipartStream S) (i : ℕ) (next : ExactLenStream S) (p : Polled D E) (left b : Bytes)
      → MultipartOwes api contents faithful fits m b
      → i < length m.ranges
      → m.state ≡ i * 2 + 1
      → b ≡ left ++ from_part api contents faithful fits (suc i) m
      → PollOwes bytes_of (ExactOwes api contents faithful) left (p, next)
      → OutcomeOwes api contents faithful fits b (on_part api p next m)
  on_part-Owes m i next pending left b h lt at owed owes = record {
    matched = h.matched;
    valid = h.valid;
    stands = in_body i next left lt at refl owes owed;
  }
  on_part-Owes m i next (ready none) left b h lt at owed empty =
      let over : from_part api contents faithful fits (suc i) m ≡ b = sym (owed ∙ rw empty refl) in
      subst
        (λ x.
          OutcomeOwes api contents faithful fits x
            (dispatch api (record m { cur = none; state = m.state + 1 })))
        over
        (dispatch-Owes api contents faithful fits (record m { cur = none; state = m.state + 1 })
          (from_part api contents faithful fits (suc i) m) (next_part m i h.matched h.valid lt at)
          refl)
  on_part-Owes m i next (ready (some (err e))) left b h lt at owed owes = tt
  on_part-Owes m i next (ready (some (ok d))) left b h lt at owed (rest, split, owes) = (
    rest ++ from_part api contents faithful fits (suc i) m,
    owed
        ∙ ap (λ x. x ++ from_part api contents faithful fits (suc i) m) split
        ∙ append_assoc (bytes_of d) rest _,
    record {
      matched = h.matched;
      valid = h.valid;
      stands = in_body i next rest lt at refl owes refl;
    },
  )

  pub round-Owes :
      (m : MultipartStream S) (b : Bytes)
      → MultipartOwes api contents faithful fits m b
      → OutcomeOwes api contents faithful fits b (round api m)
  unfolding round
  round-Owes m b h = go m.cur refl h.stands
    where
      go :
          (c : Option (ExactLenStream S))
          → m.cur ≡ c
          → Stands api contents faithful fits m b
          → OutcomeOwes api contents faithful fits b (round_at api c m)
      go none free s = dispatch-Owes api contents faithful fits m b h free
      go (some cur) busy (in_body i c left lt at here owes owed) =
          let same : c ≡ cur = cc in
          on_part-Owes m i (poll_exact api cur).1 (poll_exact api cur).0 left b h lt at owed (
            poll_exact-Owes api contents faithful cur left
              (subst (λ x. ExactOwes api contents faithful x left) same owes))
      go (some cur) busy (at_header i lt at free owed) = cc
      go (some cur) busy (at_body i r lt at free er owed) = cc
      go (some cur) busy (at_trailer at free owed) = cc
      go (some cur) busy (at_end at free owed) = cc

  continue-Owes :
      (b : Bytes) (o : Outcome D E S) (k : MultipartStream S → Outcome D E S)
      → OutcomeOwes api contents faithful fits b o
      → ((m : MultipartStream S)
          → MultipartOwes api contents faithful fits m b
          → OutcomeOwes api contents faithful fits b (k m))
      → OutcomeOwes api contents faithful fits b (continue api o k)
  continue-Owes b (again m) k o h = h m o
  continue-Owes b (returns p m) k o h = o
  continue-Owes b panics k o h = o

  -- A poll comes to an end, gives the next of the bytes that the body owes and owes the others.
  pub poll_next-Owes :
      (m : MultipartStream S) (b : Bytes)
      → MultipartOwes api contents faithful fits m b
      → Settled (poll_next api m) × OutcomeOwes api contents faithful fits b (poll_next api m)
  unfolding poll_next
  poll_next-Owes m b h = (
    poll_next-Settled api m,
    continue-Owes b (round api m) (rounds api 1) (round-Owes m b h)
        (λ m' h'. continue-Owes b (round api m') again (round-Owes m' b h') (λ m'' h''. h'')),
  )

  -- A new stream owes all its parts.
  pub new-Owes :
      (m : MultipartStream S)
      → m.state ≡ 0
      → m.cur ≡ none
      → length m.part_headers ≡ length m.ranges
      → All (Within contents) m.ranges
      → MultipartOwes api contents faithful fits m (parts_bytes contents m.part_headers m.ranges)
  new-Owes m at free matched valid = record {
    matched = matched;
    valid = valid;
    stands = elim (dec_lt 0 (length m.ranges)) [
      | yes more ↦ at_header 0 more (omega arith) free refl
      | no last ↦ at_trailer (omega arith) free (empty m.part_headers m.ranges (omega arith))
    ];
  }
    where
      empty :
          (hs : List Bytes) (rs : List ByteRange)
          → length rs ≡ 0
          → parts_bytes contents hs rs ≡ part_trailer
      empty [] rs e = refl
      empty (h ∷ hs) [] e = refl
      empty (h ∷ hs) (r ∷ rs) e = absurd (omega arith)
