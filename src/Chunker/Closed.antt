-- ===== src/Chunker/Closed.antt =====
-- A queue whose writer was dropped, and what its reader still gets.
use http_serve.Base.{
  ◌≡◌, ℕ, sym, ap, ◌∙◌, ◌≢◌, inl, inr, true, false, Option, [], ◌++◌, append-nil, Bytes, All,
  concat,
}
use http_serve.Chunker.{SharedState, live, failed, reader_fused}
use http_serve.Chunker.System.{System}
use http_serve.Chunker.Invariant.{StateInv}

module _ {E : Type 0} where
  abbrev pub Closed : SharedState E → Type 0
  Closed (live queue bytes dropped) = (dropped ≡ true) × All (λ c. c ≢ []) queue
  Closed (failed e) = ⊥
  Closed reader_fused = Unit

  abbrev pub left : SharedState E → Bytes
  left (live queue bytes dropped) = concat queue
  left _ = []

  -- Without an abort, the reader still gets what was accepted and not delivered.
  pub dropped-Closed :
      (st : SharedState E) (waker : Option ℕ) (s : System E)
      → StateInv st waker s
      → s.aborted ≡ false
      → s.dropped ≡ true
      → Closed st × (s.accepted ≡ s.delivered ++ left st)
  dropped-Closed (failed e) waker s i whole gone = cc (i.0)
  dropped-Closed reader_fused waker s (inl a, z) whole gone = cc
  dropped-Closed reader_fused waker s (inr (same, _), z) whole gone =
      (tt, same ∙ sym (append-nil s.delivered))
  dropped-Closed (live queue bytes d) waker s (i, room) whole gone = (
    (i.told ∙ gone, i.nonempty),
    i.conserved ∙ rw (i.emptied gone) (ap (◌++◌ s.delivered) (append-nil (concat queue))),
  )
