-- ===== src/Stream/Chunks.antt =====
-- What a client gets from a chunked body whose writer is gone.
use http_serve.Base.{
  ℕ, zero, suc, ◌<◌, ◌≡◌, ◌-◌, refl, ap, ◌≢◌, true, false, not, ◌||◌, Option, List, [], ◌∷◌, ◌++◌,
  arith, if◌then◌else◌, Bytes, All, length, length-append, concat,
}
use http_serve.Body.{StreamApi}
use http_serve.Chunker.{SharedState, live, failed, reader_fused, is_nil, poll_state}
use http_serve.Chunker.Closed.{Closed, left}
use http_serve.Stream.{chunker, poll_frame}
use http_serve.Stream.Collect.{Status, complete, collect}

module _ {D E S : Type 0} (api : StreamApi D E S) (bytes_of : D → Bytes)
    (kept : (v : Bytes) → bytes_of (api.from_vec v) ≡ v) where
  abbrev after : Bytes → Bytes × Status E → Bytes × Status E
  after c (bytes, status) = (c ++ bytes, status)

  -- More polls than there are bytes left get all of them and the end.
  pub collect-Closed :
      (n : ℕ) (st : SharedState E) (waker : Option ℕ) (cx : ℕ)
      → Closed st
      → length (left st) < n
      → collect api bytes_of n (chunker (record { state = st; waker = waker })) cx
        ≡ (left st, complete)
  unfolding collect poll_frame poll_state
  collect-Closed zero st waker cx h lt = absurd (omega arith)
  collect-Closed (suc n) (failed e) waker cx h lt = absurd h
  collect-Closed (suc n) reader_fused waker cx h lt = refl
  collect-Closed (suc n) (live [] bytes true) waker cx h lt = refl
  collect-Closed (suc n) (live queue bytes false) waker cx (gone, full) lt = cc
  collect-Closed (suc n) (live ([] ∷ queue) bytes true) waker cx (gone, full) lt =
      absurd (full.0 refl)
  collect-Closed (suc n) (live ((c ∷ x) ∷ queue) bytes true) waker cx (gone, full) lt =
      rw (kept (c ∷ x)) (
        ap (after (c ∷ x)) (
          go (λ st h' lt'. collect-Closed n st waker cx h' lt') queue full.1
            (omega (arith, length-append (c ∷ x) (concat queue)))))
    where
      next : List Bytes → SharedState E
      next q =
          if not (is_nil q) || false then live q (bytes - length (c ∷ x)) true else reader_fused

      go :
          ((st : SharedState E)
            → Closed st
            → length (left st) < n
            → collect api bytes_of n (chunker (record { state = st; waker = waker })) cx
              ≡ (left st, complete))
          → (q : List Bytes) → All (λ y. y ≢ []) q
          → length (concat q) < n
          → collect api bytes_of n (chunker (record { state = next q; waker = waker })) cx
            ≡ (concat q, complete)
      go rec [] full' lt' = rec reader_fused tt lt'
      go rec (y ∷ q) full' lt' = rec (live (y ∷ q) (bytes - length (c ∷ x)) true) (refl, full') lt'
