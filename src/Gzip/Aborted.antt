-- ===== src/Gzip/Aborted.antt =====
-- An aborted body stays aborted.
use http_serve.Base.{
  true, ℕ, ◌≡◌, refl, Option, List, [], ◌∷◌, Bytes, true, ap, ◌∙◌, Bool, none, some, err,
}
use http_serve.Body.{ready}
use http_serve.Chunker.{failed, Shared, Writer, flush_state, poll_state, abort, flush_helper, live}
use http_serve.Gzip.{
  Encoder, Inner, raw, gzipped, dead, drop_inner, write_body, flush_body, abort_body,
}

pub data Operation (E : Type 0) : Type 0 where
  writes : Bytes → Operation E
  flushes : Operation E
  aborts : E → Operation E

module _ {E G : Type 0} (encoder : Encoder E G) where
  open encoder use {drop_encoded}

  abbrev pub Body : Type 0
  Body = Inner G × Shared E

  abbrev pub state_after : {A : Type 0} → Inner G × http_serve.Gzip.Effect E A → Body
  state_after (inner, e) = (inner, e.shared)

  abbrev pub operate : (ℕ → ℕ) → Operation E → Body → Body
  operate reserve (writes buf) (inner, s) = state_after (write_body encoder reserve inner s buf)
  operate reserve flushes (inner, s) = state_after (flush_body encoder inner s)
  operate reserve (aborts e) (inner, s) = state_after (abort_body encoder inner s e)

  unfoldable pub operate_all : (ℕ → ℕ) → List (Operation E) → Body → Body
  operate_all reserve [] b = b
  operate_all reserve (o ∷ os) b = operate_all reserve os (operate reserve o b)

  operate_all-dead :
      (reserve : ℕ → ℕ) (os : List (Operation E)) (s : Shared E)
      → operate_all reserve os (dead, s) ≡ (dead, s)
  unfolding operate_all write_body flush_body abort_body
  operate_all-dead reserve [] s = refl
  operate_all-dead reserve (writes buf ∷ os) s = operate_all-dead reserve os s
  operate_all-dead reserve (flushes ∷ os) s = operate_all-dead reserve os s
  operate_all-dead reserve (aborts e ∷ os) s = operate_all-dead reserve os s

  drop_raw-failed :
      (buf : Bytes) (capacity cap : ℕ) (error : E) (waker : Option ℕ)
      → (flush_helper true
          (record { buf = buf; capacity = capacity; cap = cap })
          (record { state = failed error; waker = waker })).shared.state
        ≡ failed error
  unfolding flush_helper flush_state
  drop_raw-failed [] capacity cap error waker = refl
  drop_raw-failed (c ∷ buf) capacity cap error waker = refl

  drop_inner-failed :
      (w : Writer) (error : E) (waker : Option ℕ)
      → (drop_inner encoder (raw w) (record { state = failed error; waker = waker })).0.state
        ≡ failed error
  unfolding drop_inner
  drop_inner-failed w error waker = drop_raw-failed w.buf w.capacity w.cap error waker

  after_abort :
      (reserve : ℕ → ℕ) (os : List (Operation E)) (s : Shared E) (error : E) (cx : ℕ)
      → s.state ≡ failed error
      → (poll_state
          (operate_all reserve os (dead, s)).1.state
          (operate_all reserve os (dead, s)).1.waker
          cx).0
        ≡ ready (some (err error))
  unfolding poll_state
  after_abort reserve os s error cx e =
      ap (λ b. (poll_state b.1.state b.1.waker cx).0) (operate_all-dead reserve os s)
      ∙ ap (λ st. (poll_state st s.waker cx).0) e

  -- Once a writer without compression aborts a body whose reader has not ended, the reader's next
  -- poll gives the error, whatever is written, flushed or aborted in between and whatever was still
  -- queued.
  pub abort_body-final :
      (reserve : ℕ → ℕ) (w : Writer) (queue : List Bytes) (bytes : ℕ) (dropped : Bool)
      (waker : Option ℕ) (error : E) (os : List (Operation E)) (cx : ℕ)
      → let (inner, s) =
          operate_all reserve
            (aborts error ∷ os)
            (raw w, record { state = live queue bytes dropped; waker = waker }) in
        (poll_state s.state s.waker cx).0 ≡ ready (some (err error))
  unfolding operate_all abort_body abort
  abort_body-final reserve w queue bytes dropped waker error os cx =
      after_abort reserve os _ error cx (drop_inner-failed w error none)
