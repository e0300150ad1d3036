-- ===== src/Body.antt =====
-- src/body.rs: `ExactLenStream`, which holds an entity's stream to the length that was announced.
pub mod Exact
pub mod Faithful
pub mod Prompt
use http_serve.Base.{
  ℕ, ◌-◌, Option, none, some, ◌==◌, if◌then◌else◌, Bytes, Result, ok, err, checked_sub, ◌++◌, codes,
}
use http_serve.Range.{ByteRange}
use http_serve.Std.Num.{fmt_decimal}

pub data Poll {ℓ} (A : Type ℓ) : Type ℓ where
  ready : A → Poll A
  pending : Poll A

-- What a poll of a stream gives: `Poll<Option<Result<D, E>>>`.
abbrev pub Polled : Type 0 → Type 0 → Type 0
Polled D E = Poll (Option (Result D E))

-- The data, errors and streams that an `Entity` supplies, as the program uses them: a poll of a
-- stream, `Buf::remaining`, `From<Vec<u8>>`, `From<BoxError>` of the two errors of this crate, and
-- `Entity::get_range`.
pub record StreamApi (D E S : Type 0) : Type 0 where
  pub poll_stream : S → Polled D E × S
  pub data_len : D → ℕ
  pub from_vec : Bytes → D
  pub too_short : ℕ → E
  pub too_long : ℕ → E
  pub get_range : ByteRange → S

-- `StreamTooShortError` and `StreamTooLongError` as text
unfoldable pub display_too_short : ℕ → Bytes
unfolding fmt_decimal
display_too_short remaining =
    codes "stream ended with " ++ (fmt_decimal remaining ++ codes " bytes still expected")

unfoldable pub display_too_long : ℕ → Bytes
unfolding fmt_decimal
display_too_long extra =
    codes "stream returned (at least) " ++ (fmt_decimal extra ++ codes " bytes more than expected")

pub record ExactLenStream (S : Type 0) : Type 0 where
  pub stream : S
  pub remaining : ℕ

module _ {D E S : Type 0} (api : StreamApi D E S) where
  open api use {poll_stream, data_len, too_short, too_long}

  -- `new_rem` is `remaining.checked_sub(d_len)`.
  abbrev pub accept : Option ℕ → D → ExactLenStream S → Polled D E × ExactLenStream S
  accept (some new_rem) d this = (ready (some (ok d)), record this { remaining = new_rem })
  accept none d this =
      (ready (some (err (too_long (data_len d - this.remaining)))), record this { remaining = 0 })

  -- at the end of the inner stream
  abbrev pub finish : ExactLenStream S → Polled D E × ExactLenStream S
  finish this =
      if this.remaining == 0
      then (ready none, this)
      else (ready (some (err (too_short this.remaining))), record this { remaining = 0 })

  abbrev pub on_poll : Polled D E → ExactLenStream S → Polled D E × ExactLenStream S
  on_poll pending this = (pending, this)
  on_poll (ready none) this = finish this
  on_poll (ready (some (err e))) this = (ready (some (err e)), this)
  on_poll (ready (some (ok d))) this = accept (checked_sub this.remaining (data_len d)) d this

  unfoldable pub poll_exact : ExactLenStream S → Polled D E × ExactLenStream S
  poll_exact this =
      let (polled, stream) = poll_stream this.stream in
      on_poll polled (record this { stream = stream })
