-- ===== src/Body/Faithful.antt =====
-- What a stream still owes, in bytes: the promise of `Entity::get_range`, and that an exact-length
-- stream over such a stream keeps it and never finds the length wrong.
use http_serve.Base.{
  ◌-◌, ◌≤◌, ◌≡◌, refl, none, some, [], ◌++◌, arith, Bytes, ok, err, length, length-append, take,
  drop, checked_sub, ap, sym, ◌∙◌, subst, length-take, length-drop,
}
use http_serve.Range.{ByteRange}
use http_serve.Body.{ready, pending, Polled, StreamApi, ExactLenStream, accept, on_poll, poll_exact}

abbrev pub slice : Bytes → ByteRange → Bytes
slice contents r = take (r.end - r.start) (drop r.start contents)

abbrev pub Within : Bytes → ByteRange → Type 0
Within contents r = (r.start ≤ r.end) × (r.end ≤ length contents)

pub length-slice :
    (contents : Bytes) (r : ByteRange)
    → Within contents r
    → length (slice contents r) ≡ r.end - r.start
length-slice contents r h = omega (
  arith,
  length-take {0} (r.end - r.start) (drop r.start contents),
  length-drop {0} r.start contents,
)

-- A poll gives the next of the owed bytes and owes the others; it ends when none are owed. After an
-- error nothing is owed.
abbrev pub PollOwes :
    {D E S : Type 0} → (D → Bytes) → (S → Bytes → Type 0) → Bytes → Polled D E × S → Type 0
PollOwes bytes_of Owes b (pending, s) = Owes s b
PollOwes bytes_of Owes b (ready none, s) = b ≡ []
PollOwes bytes_of Owes b (ready (some (err e)), s) = Unit
PollOwes bytes_of Owes b (ready (some (ok d)), s) =
    (rest : Bytes) × (b ≡ bytes_of d ++ rest) × Owes s rest

-- What an entity with the given contents promises: each range's stream gives just its bytes, in
-- chunks of any size, unless it fails. `Owes` is what the entity knows of its streams.
pub record Faithful {D E S : Type 0} (api : StreamApi D E S) (contents : Bytes) : Type 1 where
  pub bytes_of : D → Bytes
  pub Owes : S → Bytes → Type 0
  pub data_len-bytes_of : (d : D) → api.data_len d ≡ length (bytes_of d)
  pub bytes_of-from_vec : (v : Bytes) → bytes_of (api.from_vec v) ≡ v
  pub get_range-Owes :
      (r : ByteRange)
      → r.start ≤ r.end
      → r.end ≤ length contents
      → Owes (api.get_range r) (slice contents r)
  pub poll_stream-Owes :
      (s : S) (b : Bytes) → Owes s b → PollOwes bytes_of Owes b (api.poll_stream s)

module _ {D E S : Type 0} (api : StreamApi D E S) (contents : Bytes)
    (faithful : Faithful api contents) where
  open api use {poll_stream, data_len}
  open faithful use {bytes_of, Owes, data_len-bytes_of, poll_stream-Owes}

  abbrev pub ExactOwes : ExactLenStream S → Bytes → Type 0
  ExactOwes s b = Owes s.stream b × (s.remaining ≡ length b)

  accept-Owes :
      (d : D) (s : ExactLenStream S) (b rest : Bytes)
      → s.remaining ≡ length b
      → b ≡ bytes_of d ++ rest
      → Owes s.stream rest
      → PollOwes bytes_of ExactOwes b (accept api (checked_sub s.remaining (data_len d)) d s)
  accept-Owes d s b rest exact split owes =
      let total = ap length split ∙ length-append (bytes_of d) rest in
      let enough : checked_sub s.remaining (data_len d) ≡ some (length rest) =
        ground (arith, data_len-bytes_of d) in
      subst (λ o. PollOwes bytes_of ExactOwes b (accept api o d s)) (sym enough)
        (rest, split, (owes, refl))

  on_poll-Owes :
      (p : Polled D E) (s : ExactLenStream S) (b : Bytes)
      → s.remaining ≡ length b
      → PollOwes bytes_of Owes b (p, s.stream)
      → PollOwes bytes_of ExactOwes b (on_poll api p s)
  on_poll-Owes pending s b exact owes = (owes, exact)
  on_poll-Owes (ready none) s b exact empty =
      let zero_left : s.remaining ≡ 0 = exact ∙ ap length empty in ground arith
  on_poll-Owes (ready (some (err e))) s b exact owes = tt
  on_poll-Owes (ready (some (ok d))) s b exact (rest, split, owes) =
      accept-Owes d s b rest exact split owes

  pub poll_exact-Owes :
      (s : ExactLenStream S) (b : Bytes)
      → ExactOwes s b
      → PollOwes bytes_of ExactOwes b (poll_exact api s)
  unfolding poll_exact
  poll_exact-Owes s b (owes, exact) =
      on_poll-Owes (poll_stream s.stream).0 (record s { stream = (poll_stream s.stream).1 }) b exact
        (poll_stream-Owes s.stream b owes)
