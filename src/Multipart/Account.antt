-- ===== src/Multipart/Account.antt =====
-- Every poll of a multipart body keeps the account of what it owes.
use http_serve.Base.{
  ℕ, suc, ◌+◌, ◌-◌, ◌*◌, ◌<◌, ◌≡◌, refl, ◌∙◌, none, some, [], arith, Bytes, length, get_elem?,
  wrapping_sub, drop-set, length-set, drop-get_elem?, get_elem?-lt, wrapping_sub_lem,
}
use http_serve.Range.{ByteRange}
use http_serve.Body.{StreamApi}
use http_serve.Multipart.{
  part_trailer, MultipartStream, send_header, start_body, send_trailer, dispatch,
}
use http_serve.Multipart.Invariant.{
  rest, Phase, at_header, at_body, in_body, at_trailer, at_end, Inv, Fine, All-get_elem?,
  dispatch-eq-header, dispatch-eq-body, dispatch-eq-trailer, dispatch-eq-end,
}

module _ {D E S : Type 0} (api : StreamApi D E S)
    (data_len-from_vec : (v : Bytes) → api.data_len (api.from_vec v) ≡ length v) where
  open api use {data_len, from_vec, get_range}

  send_header-Fine :
      (m : MultipartStream S) (i : ℕ) (v : Bytes) (r : ByteRange)
      → Inv m
      → i < length m.ranges
      → m.state ≡ i * 2
      → m.cur ≡ none
      → m.remaining ≡ rest i m
      → get_elem? m.part_headers i ≡ some v
      → get_elem? m.ranges i ≡ some r
      → Fine api m.remaining (send_header api (some v) i m)
  send_header-Fine m i v r inv lt at free owed ev er =
      let small = inv.small in
      let parts : rest i m ≡ length v + (r.end - r.start) + rest (suc i) m =
        rw (drop-get_elem? m.part_headers i ev, drop-get_elem? m.ranges i er) (omega arith) in
      let sub = wrapping_sub_lem m.remaining (length v) (omega arith) small in
      (
        record {
          matched = length-set m.part_headers i [] ∙ inv.matched;
          valid = inv.valid;
          small = omega arith;
          phase = at_body i r lt (omega arith) free er (rw drop-set (omega arith));
        },
        omega (arith, data_len-from_vec v),
      )

  start_body-Fine :
      (m : MultipartStream S) (i : ℕ) (r : ByteRange)
      → Inv m
      → m.state ≡ i * 2 + 1
      → get_elem? m.ranges i ≡ some r
      → i < length m.ranges
      → m.remaining ≡ (r.end - r.start) + rest (suc i) m
      → Fine api m.remaining (start_body api (some r) m)
  start_body-Fine m i r inv at er lt owed =
      let ordered = All-get_elem? m.ranges i inv.valid er in
      let width = wrapping_sub_lem r.end r.start ordered.0 ordered.1 in
      (
        record {
          matched = inv.matched;
          valid = inv.valid;
          small = inv.small;
          phase =
              in_body i (record { stream = get_range r; remaining = wrapping_sub r.end r.start }) lt
                at refl (omega arith);
        },
        refl,
      )

  send_trailer-Fine :
      (m : MultipartStream S)
      → Inv m
      → m.state ≡ length m.ranges * 2
      → m.cur ≡ none
      → m.remaining ≡ length part_trailer
      → Fine api m.remaining (send_trailer api m)
  send_trailer-Fine m inv at free owed = (
    record {
      matched = inv.matched;
      valid = inv.valid;
      small = omega arith;
      phase = at_end (omega arith) free (omega arith);
    },
    omega (arith, data_len-from_vec part_trailer),
  )

  -- Between two parts.
  pub dispatch-Fine :
      (m : MultipartStream S) → Inv m → m.cur ≡ none → Fine api m.remaining (dispatch api m)
  dispatch-Fine m inv free = go inv.phase
    where
      go : Phase m → Fine api m.remaining (dispatch api m)
      go (at_header i lt at free owed) =
          let (v, ev) = get_elem?-lt m.part_headers i (omega (arith, inv.matched)) in
          let (r, er) = get_elem?-lt m.ranges i lt in
          rw (dispatch-eq-header api m i lt at, ev)
            (send_header-Fine m i v r inv lt at free owed ev er)
      go (at_body i r lt at free er owed) =
          rw (dispatch-eq-body api m i lt at, er) (start_body-Fine m i r inv at er lt owed)
      go (in_body i cur lt at busy owed) = cc
      go (at_trailer at free owed) =
          rw (dispatch-eq-trailer api m at) (send_trailer-Fine m inv at free owed)
      go (at_end at free owed) = rw (dispatch-eq-end api m at) (inv, owed, owed)
