-- ===== src/Multipart/Polls.antt =====
-- A multipart body polled again and again: it sends the bytes that were announced, and does not
-- panic, until a part's stream fails.
use http_serve.Base.{
  ℕ, suc, ◌+◌, ◌*◌, ◌<◌, ◌≡◌, refl, sym, ◌∙◌, subst, Option, none, some, [], arith, Bytes, ok, err,
  length, drop, drop-length,
}
use native.Mathlib.Decide.{dec_lt}
use http_serve.Body.{ready, pending, Polled, StreamApi, ExactLenStream, poll_exact}
use http_serve.Body.Exact.{Counts, poll_exact-Counts}
use http_serve.Multipart.{
  part_trailer, MultipartStream, Outcome, returns, again, panics, on_part, round_at, round, rounds,
  poll_next, continue,
}
use http_serve.Multipart.Invariant.{
  rest, Phase, at_header, at_body, in_body, at_trailer, at_end, Inv, Fine,
}
use http_serve.Multipart.Account.{dispatch-Fine}
use http_serve.Multipart.Settles.{Settled, poll_next-Settled}

module _ {D E S : Type 0} (api : StreamApi D E S)
    (data_len-from_vec : (v : Bytes) → api.data_len (api.from_vec v) ≡ length v) where
  open api use {data_len}

  -- Behind the last byte of part `i`.
  next_part :
      (m : MultipartStream S) (i : ℕ)
      → Inv m
      → i < length m.ranges
      → m.state ≡ i * 2 + 1
      → m.remaining ≡ rest (suc i) m
      → Inv (record m { cur = none; state = m.state + 1 })
  next_part m i inv lt at owed = record {
    matched = inv.matched;
    valid = inv.valid;
    small = inv.small;
    phase = elim (dec_lt (suc i) (length m.ranges)) [
      | yes more ↦ at_header (suc i) more (omega arith) refl owed
      | no last ↦ at_trailer (omega arith) refl (owed ∙ nothing (omega arith))
    ];
  }
    where
      nothing : suc i ≡ length m.ranges → rest (suc i) m ≡ length part_trailer
      nothing e =
          let none_left : drop (suc i) m.ranges ≡ [] = rw e (drop-length m.ranges) in
          let no_header : drop (suc i) m.part_headers ≡ [] =
            rw (e ∙ sym inv.matched) (drop-length m.part_headers) in
          rw (none_left, no_header)

  on_part-Fine :
      (m : MultipartStream S) (i : ℕ) (cur next : ExactLenStream S) (p : Polled D E)
      → Inv m
      → i < length m.ranges
      → m.state ≡ i * 2 + 1
      → m.remaining ≡ cur.remaining + rest (suc i) m
      → Counts api cur.remaining (p, next)
      → Fine api m.remaining (on_part api p next m)
  on_part-Fine m i cur next pending inv lt at owed (_, kept, _) = (
    record {
      matched = inv.matched;
      valid = inv.valid;
      small = inv.small;
      phase = in_body i next lt at refl (omega (arith, kept refl));
    },
    refl,
  )
  on_part-Fine m i cur next (ready none) inv lt at owed (_, kept, empty) =
      dispatch-Fine api data_len-from_vec (record m { cur = none; state = m.state + 1 })
        (next_part m i inv lt at (omega (arith, kept refl, empty refl))) refl
  on_part-Fine m i cur next (ready (some (err e))) inv lt at owed c = (refl, refl)
  on_part-Fine m i cur next (ready (some (ok d))) inv lt at owed (_, kept, _) =
      let small = inv.small in
      let taken : data_len d + next.remaining ≡ cur.remaining = kept refl in
      (
        record {
          matched = inv.matched;
          valid = inv.valid;
          small = omega arith;
          phase = in_body i next lt at refl (omega arith);
        },
        omega arith,
      )

  round-Fine : (m : MultipartStream S) → Inv m → Fine api m.remaining (round api m)
  unfolding round
  round-Fine m inv = go m.cur refl inv.phase
    where
      go :
          (c : Option (ExactLenStream S))
          → m.cur ≡ c
          → Phase m
          → Fine api m.remaining (round_at api c m)
      go none free phase = dispatch-Fine api data_len-from_vec m inv free
      go (some cur) busy (in_body i c lt at here owed) =
          on_part-Fine m i cur (poll_exact api cur).1 (poll_exact api cur).0 inv lt at
            (ground arith) (poll_exact-Counts api cur)
      go (some cur) busy (at_header i lt at free owed) = cc
      go (some cur) busy (at_body i r lt at free er owed) = cc
      go (some cur) busy (at_trailer at free owed) = cc
      go (some cur) busy (at_end at free owed) = cc

  continue-Fine :
      (n : ℕ) (o : Outcome D E S) (k : MultipartStream S → Outcome D E S)
      → Fine api n o
      → ((m : MultipartStream S) → Inv m → Fine api m.remaining (k m))
      → Fine api n (continue api o k)
  continue-Fine n (again m) k (inv, same) h = subst (λ x. Fine api x (k m)) same (h m inv)
  continue-Fine n (returns p m) k f h = f
  continue-Fine n panics k f h = f

  -- From a state that keeps the account, a poll comes to an end without a panic. It gives data and
  -- owes that much less, or waits and owes the same, or ends and owes nothing, or reports an error
  -- and owes nothing; but for the error, the account is kept.
  pub poll_next-Fine :
      (m : MultipartStream S)
      → Inv m
      → Settled (poll_next api m) × Fine api m.remaining (poll_next api m)
  unfolding poll_next
  poll_next-Fine m inv = (
    poll_next-Settled api m,
    continue-Fine m.remaining (round api m) (rounds api 1) (round-Fine m inv) (λ m' inv'.
        continue-Fine m'.remaining (round api m') again (round-Fine m' inv')
          (λ m'' inv''. (inv'', refl))),
  )
