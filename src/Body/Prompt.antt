-- ===== src/Body/Prompt.antt =====
-- Streams that give at least a byte at every poll, as those over a file that can be read do, but for a
-- bounded number of spare polls.
use http_serve.Base.{
  ℕ, ◌+◌, ◌≤◌, ◌<◌, ◌≡◌, ◌∙◌, ap, none, some, ◌++◌, arith, Bytes, ok, err, length, length-append,
  checked_sub,
}
use http_serve.Body.{ready, pending, Polled, StreamApi, ExactLenStream, accept, on_poll, poll_exact}
use http_serve.Body.Faithful.{PollOwes, Faithful, ExactOwes}

-- The end, or some data: its bytes and the spare polls behind it are together more than the spare
-- polls were before it.
abbrev pub IsBrisk : {D E S : Type 0} → (D → Bytes) → (S → ℕ) → ℕ → Polled D E × S → Type 0
IsBrisk bytes_of spare n (pending, s) = ⊥
IsBrisk bytes_of spare n (ready none, s) = Unit
IsBrisk bytes_of spare n (ready (some (err e)), s) = ⊥
IsBrisk bytes_of spare n (ready (some (ok d)), s) = spare s < length (bytes_of d) + n

module _ {D E S : Type 0} (api : StreamApi D E S) (contents : Bytes)
    (faithful : Faithful api contents) where
  open api use {poll_stream, data_len}
  open faithful use {bytes_of, Owes, data_len-bytes_of, poll_stream-Owes}

  -- `spare` bounds the polls of a stream that give no byte; it is `spares` at most.
  pub record Prompt (spares : ℕ) : Type 0 where
    pub spare : S → ℕ
    pub spare-le : (s : S) → spare s ≤ spares
    pub poll_stream-IsBrisk :
        (s : S) (b : Bytes) → Owes s b → IsBrisk bytes_of spare (spare s) (poll_stream s)

  module _ (spares : ℕ) (prompt : Prompt spares) where
    open prompt use {spare, poll_stream-IsBrisk}

    abbrev pub exact_spare : ExactLenStream S → ℕ
    exact_spare s = spare s.stream

    accept-IsBrisk :
        (d : D) (s : ExactLenStream S) (n : ℕ) (b rest : Bytes)
        → s.remaining ≡ length b
        → b ≡ bytes_of d ++ rest
        → spare s.stream < length (bytes_of d) + n
        → IsBrisk bytes_of exact_spare n (accept api (checked_sub s.remaining (data_len d)) d s)
    accept-IsBrisk d s n b rest exact split ahead =
        let total = ap length split ∙ length-append (bytes_of d) rest in
        let enough : checked_sub s.remaining (data_len d) ≡ some (length rest) =
          ground (arith, data_len-bytes_of d) in
        rw enough ahead

    on_poll-IsBrisk :
        (p : Polled D E) (s : ExactLenStream S) (n : ℕ) (b : Bytes)
        → s.remaining ≡ length b
        → PollOwes bytes_of Owes b (p, s.stream)
        → IsBrisk bytes_of spare n (p, s.stream)
        → IsBrisk bytes_of exact_spare n (on_poll api p s)
    on_poll-IsBrisk pending s n b exact owes brisk = brisk
    on_poll-IsBrisk (ready none) s n b exact empty brisk =
        let zero_left : s.remaining ≡ 0 = exact ∙ ap length empty in ground arith
    on_poll-IsBrisk (ready (some (err e))) s n b exact owes brisk = brisk
    on_poll-IsBrisk (ready (some (ok d))) s n b exact (rest, split, owes) brisk =
        accept-IsBrisk d s n b rest exact split brisk

    pub poll_exact-IsBrisk :
        (s : ExactLenStream S) (b : Bytes)
        → ExactOwes api contents faithful s b
        → IsBrisk bytes_of exact_spare (exact_spare s) (poll_exact api s)
    unfolding poll_exact
    poll_exact-IsBrisk s b (owes, exact) =
        on_poll-IsBrisk (poll_stream s.stream).0 (record s { stream = (poll_stream s.stream).1 })
          (spare s.stream) b exact (poll_stream-Owes s.stream b owes)
          (poll_stream-IsBrisk s.stream b owes)
