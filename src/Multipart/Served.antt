-- ===== src/Multipart/Served.antt =====
-- A multipart body polled again and again, and after an error.
use http_serve.Base.{
  ℕ, ◌+◌, ◌≤◌, ◌<◌, ◌≡◌, refl, ◌∙◌, subst, ◌≢◌, none, some, List, [], ◌∷◌, arith, Bytes, ok, err,
  All, length, u64_max, ◌*◌, ap, false, ◌==◌, get_elem?-none,
}
use http_serve.Range.{ByteRange}
use http_serve.Body.{on_poll, finish, ready, pending, StreamApi, ExactLenStream, poll_exact}
use http_serve.Multipart.{
  index, is_odd, round_at, on_part, continue, part_trailer, MultipartStream, new, returns, panics,
  end_state, poll_next, dispatch, rounds,
}
use http_serve.Multipart.Invariant.{parts_len, IsRange, at_header, at_trailer, Inv, Fine}
use http_serve.Multipart.Polls.{poll_next-Fine}

module _ {S : Type 0} where
  -- A new stream, with a header for each range and the length that they come to.
  pub new-Inv :
      (part_headers : List Bytes) (ranges : List ByteRange) (len : ℕ)
      → length part_headers ≡ length ranges
      → All IsRange ranges
      → len ≡ parts_len part_headers ranges + length part_trailer
      → len ≤ u64_max
      → Inv {S = S} (new part_headers ranges len)
  unfolding new
  new-Inv hs [] len same valid announced fits = record {
    matched = same;
    valid = valid;
    small = fits;
    phase = at_trailer refl refl (announced ∙ none_left hs);
  }
    where
      none_left : (hs : List Bytes) → parts_len hs [] + length part_trailer ≡ length part_trailer
      none_left [] = refl
      none_left (h ∷ hs) = refl
  new-Inv hs (r ∷ rs) len same valid announced fits = record {
    matched = same;
    valid = valid;
    small = fits;
    phase = at_header 0 (omega arith) refl refl announced;
  }

module _ {D E S : Type 0} (api : StreamApi D E S) where
  open api use {data_len, poll_stream, too_short}

  -- The stream was polled from `first` on, and gave data of the given length in all, and no error.
  pub data Served (first : MultipartStream S) : ℕ → MultipartStream S → Type 0 where
    start : Served first 0 first
    chunk :
        {n : ℕ} {m next : MultipartStream S} (d : D)
        → Served first n m
        → poll_next api m ≡ returns (ready (some (ok d))) next
        → Served first (n + data_len d) next
    wait :
        {n : ℕ} {m next : MultipartStream S}
        → Served first n m
        → poll_next api m ≡ returns pending next
        → Served first n next

  -- the state in which a part's failure leaves the stream
  abbrev failed : MultipartStream S → S → MultipartStream S
  failed m s = record m {
    cur = some (record { stream = s; remaining = 0 });
    remaining = 0;
    state = end_state (length m.ranges);
  }

  poll_exact-ended :
      (c : ExactLenStream S) {s : S}
      → poll_stream c.stream ≡ (ready none, s)
      → poll_exact api c ≡ finish api (record c { stream = s })
  unfolding poll_exact
  poll_exact-ended c ended = ap (λ p. on_poll api p.0 (record c { stream = p.1 })) ended

  finish-short :
      (s : S) (n : ℕ)
      → 0 < n
      → finish api (record { stream = s; remaining = n })
        ≡ (ready (some (err (too_short n))), record { stream = s; remaining = 0 })
  finish-short s n lt = ground arith

  dispatch-past :
      (m : MultipartStream S)
      → length m.part_headers ≡ length m.ranges
      → m.state ≡ length m.ranges * 2 + 2
      → dispatch api m ≡ panics
  unfolding dispatch
  dispatch-past m same at =
      let half : index m.state ≡ length m.ranges + 1 = omega arith in
      let even : is_odd m.state ≡ false = ground arith in
      let more : (length m.ranges + 1 == length m.ranges) ≡ false = ground arith in
      rw (half, even, more, get_elem?-none m.part_headers (length m.ranges + 1) (omega arith))

  -- When the stream of a part, of a body with one header per range, ends too early, the poll reports
  -- that error; if the ended stream reports its end again, the next poll panics.
  pub poll_next-after_error :
      (m : MultipartStream S) (c : ExactLenStream S) (s s' : S)
      → length m.part_headers ≡ length m.ranges
      → m.cur ≡ some c
      → 0 < c.remaining
      → poll_stream c.stream ≡ (ready none, s)
      → poll_stream s ≡ (ready none, s')
      → (m' : MultipartStream S) × (poll_next api m
          ≡ returns (ready (some (err (too_short c.remaining)))) m')
        × (poll_next api m' ≡ panics)
  unfolding poll_next
  poll_next-after_error m c s s' same busy short ended again_ended = (
    failed m s,
    ap (λ cur. continue api (round_at api cur m) (rounds api 1)) busy
        ∙ ap (λ p. continue api (on_part api p.0 p.1 m) (rounds api 1))
            (poll_exact-ended c ended ∙ finish-short s c.remaining short),
    ap (λ p. continue api (on_part api p.0 p.1 (failed m s)) (rounds api 1))
          (poll_exact-ended (record { stream = s; remaining = 0 }) again_ended)
        ∙ ap (λ o. continue api o (rounds api 1))
            (dispatch-past
              (record m { cur = none; remaining = 0; state = end_state (length m.ranges) + 1 }) same
              (omega arith)),
  )

  module _ (data_len-from_vec : (v : Bytes) → data_len (api.from_vec v) ≡ length v) where
    Served-Inv :
        {first m : MultipartStream S} {n : ℕ}
        → Inv first
        → Served first n m
        → Inv m × (n + m.remaining ≡ first.remaining)
    Served-Inv inv start = (inv, omega arith)
    Served-Inv inv (chunk {m} d r e) =
        let (inv', sum) = Served-Inv inv r in
        let (inv'', step) =
          subst (Fine api m.remaining) e (poll_next-Fine api data_len-from_vec m inv').1 in
        (inv'', omega arith)
    Served-Inv inv (wait {m} r e) =
        let (inv', sum) = Served-Inv inv r in
        let (inv'', step) =
          subst (Fine api m.remaining) e (poll_next-Fine api data_len-from_vec m inv').1 in
        (inv'', omega arith)

    -- A multipart body built with one header per valid range and the length that they come to, after
    -- any polls of which none reported an error: what it sent and what it says to remain add up to
    -- that length, the next poll does not panic, and if it reports the end exactly that many bytes
    -- were sent.
    pub Served-exact :
        {m : MultipartStream S} {n : ℕ} (part_headers : List Bytes) (ranges : List ByteRange)
        (len : ℕ)
        → length part_headers ≡ length ranges
        → All IsRange ranges
        → len ≡ parts_len part_headers ranges + length part_trailer
        → len ≤ u64_max
        → Served (new part_headers ranges len) n m
        → (n + m.remaining ≡ len)
          × (poll_next api m ≢ panics)
          × ((m' : MultipartStream S) → poll_next api m ≡ returns (ready none) m' → n ≡ len)
    Served-exact {m} {n} hs rs len same valid announced fits served =
        let (inv, sum) = Served-Inv (new-Inv hs rs len same valid announced fits) served in
        let fine = (poll_next-Fine api data_len-from_vec m inv).1 in
        let total : n + m.remaining ≡ len = unfold new in sum in
        (
          total,
          (λ e. subst (Fine api m.remaining) e fine),
          (λ m' e. omega (arith, (subst (Fine api m.remaining) e fine).2, total)),
        )
