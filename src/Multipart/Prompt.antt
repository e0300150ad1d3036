-- ===== src/Multipart/Prompt.antt =====
-- A multipart body over prompt streams gets ahead at every poll.
use http_serve.Base.{
  ℕ, ◌+◌, ◌-◌, ◌*◌, ◌≤◌, ◌<◌, ◌≡◌, subst, Option, none, some, arith, Bytes, ok, err, length,
  u64_max, get_elem?-lt, refl, suc, ap,
}
use http_serve.Body.{ready, pending, Polled, StreamApi, ExactLenStream, poll_exact}
use http_serve.Body.Faithful.{Faithful, ExactOwes}
use http_serve.Body.Prompt.{IsBrisk, Prompt, exact_spare, poll_exact-IsBrisk}
use http_serve.Multipart.{
  MultipartStream, Outcome, returns, again, panics, dispatch, on_part, round_at, round, rounds,
  poll_next, continue,
}
use http_serve.Multipart.Contents.{
  Stands, at_header, at_body, in_body, at_trailer, at_end, MultipartOwes, OutcomeOwes,
}
use http_serve.Multipart.Delivers.{round-Owes, next_part}
use http_serve.Multipart.Invariant.{
  dispatch-eq-header, dispatch-eq-body, dispatch-eq-trailer, dispatch-eq-end,
}

-- The states that are still ahead.
abbrev pub states_left : {S : Type 0} → MultipartStream S → ℕ
states_left m = length m.ranges * 2 + 1 - m.state

module _ {D E S : Type 0} (api : StreamApi D E S) (contents : Bytes)
    (faithful : Faithful api contents) (fits : length contents ≤ u64_max) where
  open faithful use {bytes_of}

  module _ (spares : ℕ) (prompt : Prompt api contents faithful spares) where
    open prompt use {spare, spare-le}

    -- The spare polls of the current stream, or of the next one.
    abbrev pub cur_spare : Option (ExactLenStream S) → ℕ
    cur_spare none = spares
    cur_spare (some cur) = spare cur.stream

    -- The polls that may give no byte: one in each state that is ahead, and those of the streams.
    abbrev pub polls_left : MultipartStream S → ℕ
    polls_left m = states_left m * suc spares + cur_spare m.cur

    -- One state further.
    weight-next :
        (n state : ℕ)
        → state < n
        → (n - state) * suc spares ≡ (n - (state + 1)) * suc spares + suc spares
    weight-next n state lt =
        let less : n - state ≡ suc (n - (state + 1)) = omega arith in rw less (omega arith)

    -- What a round that starts with `n` such polls left comes to.
    abbrev pub GetsAhead : ℕ → Outcome D E S → Type 0
    GetsAhead n (again m) = polls_left m ≤ n
    GetsAhead n (returns pending m) = ⊥
    GetsAhead n (returns (ready none) m) = Unit
    GetsAhead n (returns (ready (some (err e))) m) = ⊥
    GetsAhead n (returns (ready (some (ok d))) m) = polls_left m < length (bytes_of d) + n
    GetsAhead n panics = ⊥

    dispatch-GetsAhead :
        (m : MultipartStream S) (b : Bytes) (n : ℕ)
        → MultipartOwes api contents faithful fits m b
        → m.cur ≡ none
        → polls_left m ≤ n
        → GetsAhead n (dispatch api m)
    dispatch-GetsAhead m b n h free le = go h.stands
      where
        go : Stands api contents faithful fits m b → GetsAhead n (dispatch api m)
        go (at_header i lt at _ owed) =
            let (v, ev) = get_elem?-lt m.part_headers i (omega (arith, h.matched)) in
            rw (dispatch-eq-header api m i lt at, ev)
              (omega (arith, weight-next (length m.ranges * 2 + 1) m.state (omega arith)))
        go (at_body i r lt at _ er owed) =
            rw (dispatch-eq-body api m i lt at, er)
              (omega (arith, spare-le (api.get_range r), ap cur_spare free))
        go (in_body i cur left lt at busy owes owed) = cc
        go (at_trailer at _ owed) =
            rw (dispatch-eq-trailer api m at)
              (omega (arith, weight-next (length m.ranges * 2 + 1) m.state (omega arith)))
        go (at_end at _ owed) = rw (dispatch-eq-end api m at) tt

    on_part-GetsAhead :
        (m : MultipartStream S) (i n k : ℕ) (next : ExactLenStream S) (p : Polled D E) (b : Bytes)
        → MultipartOwes api contents faithful fits m b
        → i < length m.ranges
        → m.state ≡ i * 2 + 1
        → polls_left m ≤ n
        → cur_spare m.cur ≡ k
        → IsBrisk bytes_of (exact_spare api contents faithful spares prompt) k (p, next)
        → GetsAhead n (on_part api p next m)
    on_part-GetsAhead m i n k next pending b h lt at le same brisk = brisk
    on_part-GetsAhead m i n k next (ready none) b h lt at le same brisk =
        dispatch-GetsAhead (record m { cur = none; state = m.state + 1 }) _ n
          (next_part api contents faithful fits m i h.matched h.valid lt at) refl
          (omega (arith, weight-next (length m.ranges * 2 + 1) m.state (omega arith)))
    on_part-GetsAhead m i n k next (ready (some (err e))) b h lt at le same brisk = brisk
    on_part-GetsAhead m i n k next (ready (some (ok d))) b h lt at le same brisk = omega arith

    round-GetsAhead :
        (m : MultipartStream S) (b : Bytes) (n : ℕ)
        → MultipartOwes api contents faithful fits m b
        → polls_left m ≤ n
        → GetsAhead n (round api m)
    unfolding round
    round-GetsAhead m b n h le = go m.cur refl h.stands
      where
        go :
            (c : Option (ExactLenStream S))
            → m.cur ≡ c
            → Stands api contents faithful fits m b
            → GetsAhead n (round_at api c m)
        go none free s = dispatch-GetsAhead m b n h free le
        go (some cur) busy (in_body i c left lt at here owes owed) =
            let same : c ≡ cur = cc in
            on_part-GetsAhead m i n (spare cur.stream) (poll_exact api cur).1 (poll_exact api cur).0
              b h lt at le (ap cur_spare busy)
              (poll_exact-IsBrisk api contents faithful spares prompt cur left
                (subst (λ x. ExactOwes api contents faithful x left) same owes))
        go (some cur) busy (at_header i lt at free owed) = cc
        go (some cur) busy (at_body i r lt at free er owed) = cc
        go (some cur) busy (at_trailer at free owed) = cc
        go (some cur) busy (at_end at free owed) = cc

    continue-GetsAhead :
        (b : Bytes) (n : ℕ) (o : Outcome D E S) (k : MultipartStream S → Outcome D E S)
        → OutcomeOwes api contents faithful fits b o
        → GetsAhead n o
        → ((m : MultipartStream S)
            → MultipartOwes api contents faithful fits m b
            → polls_left m ≤ n
            → GetsAhead n (k m))
        → GetsAhead n (continue api o k)
    continue-GetsAhead b n (again m) k owes ahead h = h m owes ahead
    continue-GetsAhead b n (returns p m) k owes ahead h = ahead
    continue-GetsAhead b n panics k owes ahead h = ahead

    pub poll_next-GetsAhead :
        (m : MultipartStream S) (b : Bytes)
        → MultipartOwes api contents faithful fits m b
        → GetsAhead (polls_left m) (poll_next api m)
    unfolding poll_next
    poll_next-GetsAhead m b h =
        let n = polls_left m in
        continue-GetsAhead b n (round api m) (rounds api 1)
          (round-Owes api contents faithful fits m b h) (round-GetsAhead m b n h (omega arith))
          (λ m' h' le.
            continue-GetsAhead b n (round api m') again
              (round-Owes api contents faithful fits m' b h') (round-GetsAhead m' b n h' le)
              (λ m'' h'' le'. le'))
