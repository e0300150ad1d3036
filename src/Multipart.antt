-- ===== src/Multipart.antt =====
-- src/serving.rs, lines 348 to 447: `MultipartStream`, the body of a `multipart/byteranges` response.
pub mod Account
pub mod Contents
pub mod Delivers
pub mod Settles
pub mod Polls
pub mod Prompt
pub mod Served
pub mod Invariant
use http_serve.Base.{
  ℕ, zero, suc, ◌+◌, ◌*◌, ◌/◌, ◌%◌, Bool, ◌&&◌, Option, none, some, List, [], ◌==◌, if◌then◌else◌,
  Bytes, codes, ok, err, length, get_elem?, wrapping_sub, set, true, false,
}
use http_serve.Range.{ByteRange}
use http_serve.Body.{ready, pending, Polled, StreamApi, ExactLenStream, poll_exact}

abbrev pub part_trailer : Bytes
part_trailer = codes "\r\n--B--\r\n"

-- The entity is the `get_range` of the interface.
pub record MultipartStream (S : Type 0) : Type 0 where
  pub cur : Option (ExactLenStream S)
  pub state : ℕ
  pub part_headers : List Bytes
  pub ranges : List ByteRange
  pub remaining : ℕ

unfoldable pub new : {S : Type 0} → List Bytes → List ByteRange → ℕ → MultipartStream S
new part_headers ranges len = record {
  cur = none;
  state = 0;
  part_headers = part_headers;
  ranges = ranges;
  remaining = len;
}

-- `state >> 1`, and whether `state & 1` is one.
abbrev pub index : ℕ → ℕ
index state = state / 2

abbrev pub is_odd : ℕ → Bool
is_odd state = state % 2 == 1

-- `n << 1 | 1`
abbrev pub end_state : ℕ → ℕ
end_state n = n * 2 + 1

-- How a round of the `loop` ends. `panics` is an index out of bounds.
pub data Outcome (D E S : Type 0) : Type 0 where
  returns : Polled D E → MultipartStream S → Outcome D E S
  again : MultipartStream S → Outcome D E S
  panics : Outcome D E S

module _ {D E S : Type 0} (api : StreamApi D E S) where
  open api use {data_len, from_vec, get_range}

  -- `part_headers[i]`, which is taken and sent
  abbrev pub send_header : Option Bytes → ℕ → MultipartStream S → Outcome D E S
  send_header none i this = panics
  send_header (some v) i this = returns (ready (some (ok (from_vec v)))) (record this {
    part_headers = set this.part_headers i [];
    state = this.state + 1;
    remaining = wrapping_sub this.remaining (length v);
  })

  -- `ranges[i]`, whose stream becomes the current one
  abbrev pub start_body : Option ByteRange → MultipartStream S → Outcome D E S
  start_body none this = panics
  start_body (some r) this = again (record this {
    cur = some (record { stream = get_range r; remaining = wrapping_sub r.end r.start });
  })

  abbrev pub send_trailer : MultipartStream S → Outcome D E S
  send_trailer this = returns (ready (some (ok (from_vec part_trailer)))) (record this {
    state = this.state + 1;
    remaining = wrapping_sub this.remaining (length part_trailer);
  })

  -- whether `i == ranges.len()`, and whether the state is odd
  abbrev pub dispatch_at : Bool → Bool → ℕ → MultipartStream S → Outcome D E S
  dispatch_at true true i this = returns (ready none) this
  dispatch_at true false i this = send_trailer this
  dispatch_at false true i this = start_body (get_elem? this.ranges i) this
  dispatch_at false false i this = send_header (get_elem? this.part_headers i) i this

  -- the part of the round behind `if let Some(ref mut cur) = this.cur`
  unfoldable pub dispatch : MultipartStream S → Outcome D E S
  dispatch this =
      let i = index this.state in dispatch_at (i == length this.ranges) (is_odd this.state) i this

  -- what the current part's stream gave
  abbrev pub on_part : Polled D E → ExactLenStream S → MultipartStream S → Outcome D E S
  on_part pending cur this = returns pending (record this { cur = some cur })
  on_part (ready none) cur this = dispatch (record this { cur = none; state = this.state + 1 })
  on_part (ready (some (err e))) cur this =
      returns (ready (some (err e)))
        (record this { cur = some cur; remaining = 0; state = end_state (length this.ranges) })
  on_part (ready (some (ok d))) cur this =
      returns (ready (some (ok d)))
        (record this { cur = some cur; remaining = wrapping_sub this.remaining (data_len d) })

  abbrev pub round_at : Option (ExactLenStream S) → MultipartStream S → Outcome D E S
  round_at none this = dispatch this
  round_at (some cur) this = let (polled, next) = poll_exact api cur in on_part polled next this

  unfoldable pub round : MultipartStream S → Outcome D E S
  unfolding dispatch poll_exact
  round this = round_at this.cur this

  -- The `loop`, with fuel for its rounds.
  abbrev pub continue : Outcome D E S → (MultipartStream S → Outcome D E S) → Outcome D E S
  continue (again this) k = k this
  continue (returns p this) k = returns p this
  continue panics k = panics

  unfoldable pub rounds : ℕ → MultipartStream S → Outcome D E S
  unfolding round
  rounds zero this = again this
  rounds (suc fuel) this = continue (round this) (rounds fuel)

  -- `Stream::poll_next`: two rounds are enough.
  unfoldable pub poll_next : MultipartStream S → Outcome D E S
  unfolding rounds
  poll_next = rounds 2
