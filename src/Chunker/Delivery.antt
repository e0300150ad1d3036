-- ===== src/Chunker/Delivery.antt =====
-- What a reader can rely on, after any calls of the writer and the reader in any order.
use http_serve.Base.{
  ℕ, ◌≤◌, ◌<◌, ◌≡◌, refl, sym, ◌∙◌, subst, ◌≢◌, ◌↔◌, inl, inr, true, false, Option, none, some,
  List, [], ◌∷◌, ◌++◌, append-nil, arith, Bytes, concat, total_length,
}
use http_serve.Body.{ready, pending}
use http_serve.Chunker.{SharedState, live, failed, reader_fused}
use http_serve.Chunker.System.{System, Event, run, start}
use http_serve.Chunker.Invariant.{Waits, StateInv}
use http_serve.Chunker.Calls.{run-Inv, start-Inv}
use http_serve.Chunker.{poll_state, is_end_stream}

positive-total : (x : Bytes) (queue : List Bytes) → x ≢ [] → 0 < total_length (x ∷ queue)
positive-total [] queue ne = absurd (ne refl)
positive-total (c ∷ x) queue ne = omega arith

module _ {E : Type 0} where
  pub delivered-Inv :
      (st : SharedState E) (waker : Option ℕ) (cx : ℕ) (s : System E)
      → StateInv st waker s
      → s.aborted ≡ false
      → ((rest : Bytes) × (s.accepted ≡ s.delivered ++ rest))
        × ((poll_state st waker cx).0 ≡ ready none
            → (s.accepted ≡ s.delivered) × (s.dropped ≡ true))
  unfolding poll_state
  delivered-Inv (failed e) waker cx s i whole = cc (i.0)
  delivered-Inv reader_fused waker cx s (inl a, z) whole = cc
  delivered-Inv reader_fused waker cx s (inr (same, gone), z) whole =
      (([], same ∙ sym (append-nil s.delivered)), (λ e. (same, gone)))
  delivered-Inv (live [] bytes true) waker cx s (i, room) whole = (
    (s.writer.buf, i.conserved),
    (λ e. (i.conserved ∙ rw (i.emptied (sym i.told)) (append-nil s.delivered), sym i.told)),
  )
  delivered-Inv (live [] bytes false) waker cx s (i, room) whole =
      ((s.writer.buf, i.conserved), (λ e. cc))
  delivered-Inv (live (x ∷ queue) bytes d) waker cx s (i, room) whole =
      ((concat (x ∷ queue) ++ s.writer.buf, i.conserved), (λ e. cc))

  asleep-Inv :
      (st : SharedState E) (waker : Option ℕ) (cx t : ℕ) (s : System E)
      → StateInv st waker s
      → s.asleep ≡ some t
      → ((poll_state st waker cx).0 ≡ pending) × (waker ≡ some t)
  unfolding poll_state
  asleep-Inv (failed e) waker cx t s i waits = cc (i.1)
  asleep-Inv reader_fused waker cx t s i waits = cc (i.1)
  asleep-Inv (live queue bytes d) waker cx t s (i, room) waits =
      let (empty, here, known) = subst (Waits queue d waker) waits i.waits in ground arith

  -- Unless the writer aborted, the reader has got a first part of the bytes that `write` reported
  -- as written, in order. When a poll says that the stream is over, the reader has got all of
  -- them, and the writer was dropped.
  pub run_delivers :
      (reserve : ℕ → ℕ) (enough : (n : ℕ) → n ≤ reserve n) (cap : ℕ) (es : List (Event E)) (cx : ℕ)
      → 0 < cap
      → (run reserve (start cap) es).aborted ≡ false
      → ((rest : Bytes) × ((run reserve (start cap) es).accepted
            ≡ (run reserve (start cap) es).delivered ++ rest))
        × ((poll_state
                (run reserve (start cap) es).shared.state
                (run reserve (start cap) es).shared.waker
                cx).0
              ≡ ready none
            → ((run reserve (start cap) es).accepted ≡ (run reserve (start cap) es).delivered)
              × ((run reserve (start cap) es).dropped ≡ true))
  run_delivers reserve enough cap es cx positive whole =
      let t = run reserve (start cap) es in
      let inv = run-Inv reserve enough es (start cap) (start-Inv cap positive) in
      delivered-Inv t.shared.state t.shared.waker cx t inv.state_ok whole

  -- No wake-up is lost: a task that was told to wait and was not woken since would be told to wait
  -- again, and its waker is kept for the next chunk. And no assertion in `write` fails.
  pub run_wakes :
      (reserve : ℕ → ℕ) (enough : (n : ℕ) → n ≤ reserve n) (cap : ℕ) (es : List (Event E))
      (cx t : ℕ)
      → 0 < cap
      → ((run reserve (start {E = E} cap) es).asleep ≡ some t
          → ((poll_state
                (run reserve (start {E = E} cap) es).shared.state
                (run reserve (start {E = E} cap) es).shared.waker
                cx).0
              ≡ pending)
            × ((run reserve (start {E = E} cap) es).shared.waker ≡ some t))
        × ((run reserve (start {E = E} cap) es).crashed ≡ false)
  run_wakes reserve enough cap es cx t positive =
      let s = run reserve (start {E = E} cap) es in
      let inv = run-Inv reserve enough es (start cap) (start-Inv cap positive) in
      ((λ waits. asleep-Inv s.shared.state s.shared.waker cx t s inv.state_ok waits), inv.sound)

  end-Inv :
      (st : SharedState E) (waker : Option ℕ) (cx : ℕ) (s : System E)
      → StateInv st waker s
      → (is_end_stream st ≡ true) ↔ ((poll_state st waker cx).0 ≡ ready none)
  unfolding poll_state is_end_stream
  end-Inv (failed e) waker cx s i = ((λ e. cc), (λ e. cc))
  end-Inv reader_fused waker cx s i = ((λ e. refl), (λ e. refl))
  end-Inv (live [] bytes true) waker cx s (i, room) =
      ((λ e. refl), (λ e. ground (arith, i.counted)))
  end-Inv (live [] bytes false) waker cx s (i, room) = ((λ e. ground arith), (λ e. cc))
  end-Inv (live (x ∷ queue) bytes d) waker cx s (i, room) =
      ((λ e. ground (arith, i.counted, positive-total x queue i.nonempty.0)), (λ e. cc))

  -- `is_end_stream` is true exactly when the next poll says that the stream is over.
  pub is_end_stream_iff :
      (reserve : ℕ → ℕ) (enough : (n : ℕ) → n ≤ reserve n) (cap : ℕ) (es : List (Event E)) (cx : ℕ)
      → 0 < cap
      → (is_end_stream (run reserve (start {E = E} cap) es).shared.state ≡ true) ↔ (
          (poll_state
            (run reserve (start {E = E} cap) es).shared.state
            (run reserve (start {E = E} cap) es).shared.waker
            cx).0
          ≡ ready none)
  is_end_stream_iff reserve enough cap es cx positive =
      let s = run reserve (start {E = E} cap) es in
      let inv = run-Inv reserve enough es (start cap) (start-Inv cap positive) in
      end-Inv s.shared.state s.shared.waker cx s inv.state_ok
