-- ===== src/Multipart/Invariant.antt =====
-- What a multipart body still owes its reader, and that every poll keeps the account.
use http_serve.Base.{
  ℕ, zero, suc, ◌+◌, ◌-◌, ◌*◌, ◌≤◌, ◌<◌, ◌≡◌, subst, true, false, none, some, List, [], ◌∷◌, arith,
  Bytes, ok, err, All, length, get_elem?, drop, u64_max,
}
use http_serve.Range.{ByteRange}
use http_serve.Body.{ready, pending, StreamApi, ExactLenStream}
use http_serve.Multipart.{
  part_trailer, MultipartStream, Outcome, returns, again, panics, end_state, send_header,
  start_body, send_trailer, dispatch, index, is_odd,
}

-- The headers and bodies of the parts, in bytes.
abbrev pub parts_len : List Bytes → List ByteRange → ℕ
parts_len (h ∷ hs) (r ∷ rs) = length h + (r.end - r.start) + parts_len hs rs
parts_len _ _ = 0

abbrev pub IsRange : ByteRange → Type 0
IsRange r = (r.start ≤ r.end) × (r.end ≤ u64_max)

module _ {S : Type 0} where
  -- The parts from number `i` on, and the trailer.
  abbrev pub rest : ℕ → MultipartStream S → ℕ
  rest i m = parts_len (drop i m.part_headers) (drop i m.ranges) + length part_trailer

  -- Where the stream stands, and the bytes that it owes there.
  pub data Phase (m : MultipartStream S) : Type 0 where
    at_header :
        (i : ℕ)
        → i < length m.ranges
        → m.state ≡ i * 2
        → m.cur ≡ none
        → m.remaining ≡ rest i m
        → Phase m
    at_body :
        (i : ℕ) (r : ByteRange)
        → i < length m.ranges
        → m.state ≡ i * 2 + 1
        → m.cur ≡ none
        → get_elem? m.ranges i ≡ some r
        → m.remaining ≡ (r.end - r.start) + rest (suc i) m
        → Phase m
    in_body :
        (i : ℕ) (cur : ExactLenStream S)
        → i < length m.ranges
        → m.state ≡ i * 2 + 1
        → m.cur ≡ some cur
        → m.remaining ≡ cur.remaining + rest (suc i) m
        → Phase m
    at_trailer :
        m.state ≡ length m.ranges * 2 → m.cur ≡ none → m.remaining ≡ length part_trailer → Phase m
    at_end : m.state ≡ length m.ranges * 2 + 1 → m.cur ≡ none → m.remaining ≡ 0 → Phase m

  pub record Inv (m : MultipartStream S) : Type 0 where
    pub matched : length m.part_headers ≡ length m.ranges
    pub valid : All IsRange m.ranges
    pub small : m.remaining ≤ u64_max
    pub phase : Phase m

pub All-get_elem? :
    (rs : List ByteRange) (i : ℕ) {r : ByteRange}
    → All IsRange rs
    → get_elem? rs i ≡ some r
    → IsRange r
All-get_elem? [] i h e = cc
All-get_elem? (x ∷ rs) zero h e = subst IsRange (ground arith) h.0
All-get_elem? (x ∷ rs) (suc i) h e = All-get_elem? rs i h.1 e

module _ {D E S : Type 0} (api : StreamApi D E S) where
  open api use {data_len}

  -- What a round may do to a stream that owes `n` bytes.
  abbrev pub Fine : ℕ → Outcome D E S → Type 0
  Fine n (again m) = Inv m × (m.remaining ≡ n)
  Fine n (returns pending m) = Inv m × (m.remaining ≡ n)
  Fine n (returns (ready none) m) = Inv m × (m.remaining ≡ 0) × (n ≡ 0)
  Fine n (returns (ready (some (ok d))) m) = Inv m × (m.remaining + data_len d ≡ n)
  Fine n (returns (ready (some (err e))) m) =
      (m.remaining ≡ 0) × (m.state ≡ end_state (length m.ranges))
  Fine n panics = ⊥

  pub dispatch-eq-header :
      (m : MultipartStream S) (i : ℕ)
      → i < length m.ranges
      → m.state ≡ i * 2
      → dispatch api m ≡ send_header api (get_elem? m.part_headers i) i m
  unfolding dispatch
  dispatch-eq-header m i lt at =
      let half : index m.state ≡ i = omega arith in
      let even : is_odd m.state ≡ false = ground arith in rw (half, even) (ground arith)

  pub dispatch-eq-body :
      (m : MultipartStream S) (i : ℕ)
      → i < length m.ranges
      → m.state ≡ i * 2 + 1
      → dispatch api m ≡ start_body api (get_elem? m.ranges i) m
  unfolding dispatch
  dispatch-eq-body m i lt at =
      let half : index m.state ≡ i = omega arith in
      let odd : is_odd m.state ≡ true = ground arith in rw (half, odd) (ground arith)

  pub dispatch-eq-trailer :
      (m : MultipartStream S) → m.state ≡ length m.ranges * 2 → dispatch api m ≡ send_trailer api m
  unfolding dispatch
  dispatch-eq-trailer m at =
      let half : index m.state ≡ length m.ranges = omega arith in
      let even : is_odd m.state ≡ false = ground arith in rw (half, even) (ground arith)

  pub dispatch-eq-end :
      (m : MultipartStream S)
      → m.state ≡ length m.ranges * 2 + 1
      → dispatch api m ≡ returns (ready none) m
  unfolding dispatch
  dispatch-eq-end m at =
      let half : index m.state ≡ length m.ranges = omega arith in
      let odd : is_odd m.state ≡ true = ground arith in rw (half, odd) (ground arith)
