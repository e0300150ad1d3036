-- ===== src/Multipart/Contents.antt =====
-- The bytes of a multipart body: each part's header and range, and the trailer.
use http_serve.Base.{
  ℕ, zero, suc, ◌+◌, ◌*◌, ◌≤◌, ◌<◌, ◌≡◌, refl, sym, ◌∙◌, subst, none, some, List, [], ◌∷◌, ◌++◌,
  arith, Bytes, ok, All, length, get_elem?, drop, u64_max, drop-set, length-set, drop-get_elem?,
  get_elem?-lt, wrapping_sub, wrapping_sub_lem,
}
use http_serve.Range.{ByteRange}
use http_serve.Body.{ready, StreamApi, ExactLenStream}
use http_serve.Body.Faithful.{Within, length-slice, slice, PollOwes, Faithful, ExactOwes}
use http_serve.Multipart.{
  part_trailer, MultipartStream, Outcome, returns, again, panics, send_header, start_body,
  send_trailer, dispatch,
}
use http_serve.Multipart.Invariant.{
  dispatch-eq-header, dispatch-eq-body, dispatch-eq-trailer, dispatch-eq-end,
}

abbrev pub parts_bytes : Bytes → List Bytes → List ByteRange → Bytes
parts_bytes contents (h ∷ hs) (r ∷ rs) = h ++ (slice contents r ++ parts_bytes contents hs rs)
parts_bytes contents _ _ = part_trailer

All-Within-get_elem? :
    (contents : Bytes) (rs : List ByteRange) (i : ℕ) {r : ByteRange}
    → All (Within contents) rs
    → get_elem? rs i ≡ some r
    → Within contents r
All-Within-get_elem? contents [] i h e = cc
All-Within-get_elem? contents (x ∷ rs) zero h e = subst (Within contents) (ground arith) h.0
All-Within-get_elem? contents (x ∷ rs) (suc i) h e = All-Within-get_elem? contents rs i h.1 e

module _ {D E S : Type 0} (api : StreamApi D E S) (contents : Bytes)
    (faithful : Faithful api contents) (fits : length contents ≤ u64_max) where
  open api use {from_vec, get_range}
  open faithful use {bytes_of, bytes_of-from_vec, get_range-Owes}

  -- The bytes of the parts from number `i` on.
  abbrev pub from_part : ℕ → MultipartStream S → Bytes
  from_part i m = parts_bytes contents (drop i m.part_headers) (drop i m.ranges)

  pub data Stands (m : MultipartStream S) (b : Bytes) : Type 0 where
    at_header :
        (i : ℕ)
        → i < length m.ranges
        → m.state ≡ i * 2
        → m.cur ≡ none
        → b ≡ from_part i m
        → Stands m b
    at_body :
        (i : ℕ) (r : ByteRange)
        → i < length m.ranges
        → m.state ≡ i * 2 + 1
        → m.cur ≡ none
        → get_elem? m.ranges i ≡ some r
        → b ≡ slice contents r ++ from_part (suc i) m
        → Stands m b
    in_body :
        (i : ℕ) (cur : ExactLenStream S) (left : Bytes)
        → i < length m.ranges
        → m.state ≡ i * 2 + 1
        → m.cur ≡ some cur
        → ExactOwes api contents faithful cur left
        → b ≡ left ++ from_part (suc i) m
        → Stands m b
    at_trailer : m.state ≡ length m.ranges * 2 → m.cur ≡ none → b ≡ part_trailer → Stands m b
    at_end : m.state ≡ length m.ranges * 2 + 1 → m.cur ≡ none → b ≡ [] → Stands m b

  pub record MultipartOwes (m : MultipartStream S) (b : Bytes) : Type 0 where
    pub matched : length m.part_headers ≡ length m.ranges
    pub valid : All (Within contents) m.ranges
    pub stands : Stands m b

  -- What a round may do to a stream that owes `b`.
  abbrev pub OutcomeOwes : Bytes → Outcome D E S → Type 0
  OutcomeOwes b (again m) = MultipartOwes m b
  OutcomeOwes b (returns p m) = PollOwes bytes_of MultipartOwes b (p, m)
  OutcomeOwes b panics = ⊥

  -- Some bytes that are made of a vector, and a state that owes the others.
  sent :
      (v b rest : Bytes) (m : MultipartStream S)
      → b ≡ v ++ rest
      → MultipartOwes m rest
      → OutcomeOwes b (returns (ready (some (ok (from_vec v)))) m)
  sent v b rest m split owes = (rest, rw (bytes_of-from_vec v) split, owes)

  send_header-Owes :
      (m : MultipartStream S) (i : ℕ) (v : Bytes) (r : ByteRange) (b : Bytes)
      → MultipartOwes m b
      → i < length m.ranges
      → m.state ≡ i * 2
      → m.cur ≡ none
      → b ≡ from_part i m
      → get_elem? m.part_headers i ≡ some v
      → get_elem? m.ranges i ≡ some r
      → OutcomeOwes b (send_header api (some v) i m)
  send_header-Owes m i v r b h lt at free owed ev er =
      let parts : from_part i m ≡ v ++ (slice contents r ++ from_part (suc i) m) =
        rw (drop-get_elem? m.part_headers i ev, drop-get_elem? m.ranges i er) refl in
      sent v b (slice contents r ++ from_part (suc i) m) _ (owed ∙ parts) (record {
        matched = length-set m.part_headers i [] ∙ h.matched;
        valid = h.valid;
        stands = at_body i r lt (omega arith) free er (rw drop-set refl);
      })

  start_body-Owes :
      (m : MultipartStream S) (i : ℕ) (r : ByteRange) (b : Bytes)
      → MultipartOwes m b
      → i < length m.ranges
      → m.state ≡ i * 2 + 1
      → get_elem? m.ranges i ≡ some r
      → b ≡ slice contents r ++ from_part (suc i) m
      → OutcomeOwes b (start_body api (some r) m)
  start_body-Owes m i r b h lt at er owed =
      let inside = All-Within-get_elem? contents m.ranges i h.valid er in
      let width = wrapping_sub_lem r.end r.start inside.0 (omega arith) in
      record {
        matched = h.matched;
        valid = h.valid;
        stands =
            in_body i (record { stream = get_range r; remaining = wrapping_sub r.end r.start })
              (slice contents r) lt at refl
              (get_range-Owes r inside.0 inside.1, width ∙ sym (length-slice contents r inside))
              owed;
      }

  send_trailer-Owes :
      (m : MultipartStream S) (b : Bytes)
      → MultipartOwes m b
      → m.state ≡ length m.ranges * 2
      → m.cur ≡ none
      → b ≡ part_trailer
      → OutcomeOwes b (send_trailer api m)
  send_trailer-Owes m b h at free owed =
      sent part_trailer b [] _ owed
        (record { matched = h.matched; valid = h.valid; stands = at_end (omega arith) free refl })

  -- Between two parts.
  pub dispatch-Owes :
      (m : MultipartStream S) (b : Bytes)
      → MultipartOwes m b
      → m.cur ≡ none
      → OutcomeOwes b (dispatch api m)
  dispatch-Owes m b h free = go h.stands
    where
      go : Stands m b → OutcomeOwes b (dispatch api m)
      go (at_header i lt at free owed) =
          let (v, ev) = get_elem?-lt m.part_headers i (omega (arith, h.matched)) in
          let (r, er) = get_elem?-lt m.ranges i lt in
          rw (dispatch-eq-header api m i lt at, ev)
            (send_header-Owes m i v r b h lt at free owed ev er)
      go (at_body i r lt at free er owed) =
          rw (dispatch-eq-body api m i lt at, er) (start_body-Owes m i r b h lt at er owed)
      go (in_body i cur left lt at busy owes owed) = cc
      go (at_trailer at free owed) =
          rw (dispatch-eq-trailer api m at) (send_trailer-Owes m b h at free owed)
      go (at_end at free owed) = rw (dispatch-eq-end api m at) owed
