-- ===== src/Chunker/Finishes.antt =====
-- A reader that polls on after the writer is gone comes to the end.
use http_serve.Base.{
  ℕ, zero, suc, ◌-◌, ◌≤◌, ◌<◌, ◌≡◌, refl, sym, ap, ◌∙◌, subst, ◌≢◌, Bool, true, false, not, ◌||◌,
  Option, none, some, List, [], ◌∷◌, ◌++◌, arith, Bytes, ok, err, concat, All, length,
  length-append, if◌then◌else◌,
}
use http_serve.Body.{ready, pending, Polled}
use http_serve.Chunker.{SharedState, Shared, live, failed, reader_fused, poll_state, is_nil}
use http_serve.Chunker.System.{System, Event, polls, after_poll, step, run, start}
use http_serve.Chunker.Invariant.{StateInv, Inv}
use http_serve.Chunker.Calls.{step-Inv, run-Inv, start-Inv}
use http_serve.Chunker.Delivery.{delivered-Inv}

length-concat_le : (q : List Bytes) → All (λ c. c ≢ []) q → length q ≤ length (concat q)
length-concat_le [] h = omega arith
length-concat_le ([] ∷ q) h = absurd (h.0 refl)
length-concat_le ((c ∷ x) ∷ q) h =
    omega (arith, length-append (c ∷ x) (concat q), length-concat_le q h.1)

module _ {E : Type 0} where
  abbrev chunks : SharedState E → ℕ
  chunks (live queue bytes dropped) = length queue
  chunks (failed e) = 0
  chunks reader_fused = 0

  -- `n` polls, one behind the other
  abbrev pub polls_on : ℕ → ℕ → List (Event E)
  polls_on zero cx = []
  polls_on (suc n) cx = polls cx ∷ polls_on n cx

  -- A poll does not change what the writer did.
  abbrev Kept : System E → System E → Type 0
  Kept s t = (t.accepted ≡ s.accepted) × (t.aborted ≡ s.aborted) × (t.dropped ≡ s.dropped)

  after_poll-Kept :
      (s : System E) (cx : ℕ) (p : Polled Bytes E) (shared : Shared E)
      → Kept s (after_poll s cx (p, shared)) × ((after_poll s cx (p, shared)).shared ≡ shared)
  after_poll-Kept s cx pending shared = ((refl, refl, refl), refl)
  after_poll-Kept s cx (ready none) shared = ((refl, refl, refl), refl)
  after_poll-Kept s cx (ready (some (ok c))) shared = ((refl, refl, refl), refl)
  after_poll-Kept s cx (ready (some (err e))) shared = ((refl, refl, refl), refl)

  -- A poll takes a chunk, if there is one.
  chunks-poll_state :
      (st : SharedState E) (waker : Option ℕ) (cx : ℕ)
      → chunks (poll_state st waker cx).1.state ≤ chunks st - 1
  unfolding poll_state
  chunks-poll_state (failed e) waker cx = omega arith
  chunks-poll_state reader_fused waker cx = omega arith
  chunks-poll_state (live [] bytes true) waker cx = omega arith
  chunks-poll_state (live [] bytes false) waker cx = omega arith
  chunks-poll_state (live (c ∷ queue) bytes d) waker cx = go (not (is_nil queue) || not d)
    where
      go :
          (b : Bool)
          → chunks (if b then live queue (bytes - length c) d else reader_fused)
            ≤ suc (length queue) - 1
      go true = omega arith
      go false = omega arith

  -- With no chunk left, a reader whose writer is gone is told that the stream is over.
  over :
      (st : SharedState E) (waker : Option ℕ) (cx : ℕ) (s : System E)
      → StateInv st waker s
      → s.aborted ≡ false
      → s.dropped ≡ true
      → chunks st ≡ 0
      → (poll_state st waker cx).0 ≡ ready none
  unfolding poll_state
  over (failed e) waker cx s i whole gone empty = cc (i.0)
  over reader_fused waker cx s i whole gone empty = refl
  over (live [] bytes true) waker cx s i whole gone empty = refl
  over (live [] bytes false) waker cx s (i, room) whole gone empty = let told = i.told in cc
  over (live (c ∷ queue) bytes d) waker cx s i whole gone empty = absurd (omega arith)

  chunks-accepted_le :
      (st : SharedState E) (waker : Option ℕ) (s : System E)
      → StateInv st waker s
      → chunks st ≤ length s.accepted
  chunks-accepted_le (failed e) waker s i = omega arith
  chunks-accepted_le reader_fused waker s i = omega arith
  chunks-accepted_le (live queue bytes d) waker s (i, room) = omega (
    arith,
    ap length i.conserved,
    length-append s.delivered (concat queue ++ s.writer.buf),
    length-append (concat queue) s.writer.buf,
    length-concat_le queue i.nonempty,
  )

  module _ (reserve : ℕ → ℕ) (enough : (n : ℕ) → n ≤ reserve n) (cx : ℕ) where
    abbrev pub Finished : System E → System E → Type 0
    Finished s t =
        (t.delivered ≡ s.accepted) × ((poll_state t.shared.state t.shared.waker cx).0 ≡ ready none)

    finishes :
        (n : ℕ) (s : System E)
        → Inv s
        → s.aborted ≡ false
        → s.dropped ≡ true
        → chunks s.shared.state ≤ n
        → Finished s (run reserve s (polls_on n cx))
    unfolding run
    finishes zero s inv whole gone few =
        let ended = over s.shared.state s.shared.waker cx s inv.state_ok whole gone (omega arith) in
        let (_, all) = delivered-Inv s.shared.state s.shared.waker cx s inv.state_ok whole in
        (sym (all ended).0, ended)
    finishes (suc n) s inv whole gone few =
        let next = step reserve s (polls cx) in
        let polled = poll_state s.shared.state s.shared.waker cx in
        let ((kept, fine, left), shared) : Kept s next × (next.shared ≡ polled.1) =
          unfold step in after_poll-Kept s cx polled.0 polled.1 in
        let fewer = chunks-poll_state s.shared.state s.shared.waker cx in
        let (got, ended) =
          finishes n next (step-Inv reserve enough s (polls cx) inv) (fine ∙ whole) (left ∙ gone)
            (subst (λ h. chunks h.state ≤ n) (sym shared) (omega arith)) in
        (got ∙ kept, ended)

    -- After any calls without an abort that end with the writer dropped, as many polls as bytes were
    -- written are enough: the reader has got all the bytes that `write` reported as written, and the
    -- next poll says that the stream is over.
    pub run_finishes :
        (cap : ℕ) (es : List (Event E)) (n : ℕ)
        → 0 < cap
        → (run reserve (start cap) es).aborted ≡ false
        → (run reserve (start cap) es).dropped ≡ true
        → length (run reserve (start cap) es).accepted ≤ n
        → Finished
            (run reserve (start cap) es)
            (run reserve (run reserve (start cap) es) (polls_on n cx))
    run_finishes cap es n positive whole gone many =
        let s = run reserve (start cap) es in
        let inv = run-Inv reserve enough es (start cap) (start-Inv cap positive) in
        let few = chunks-accepted_le s.shared.state s.shared.waker s inv.state_ok in
        finishes n s inv whole gone (omega arith)
