-- ===== src/Stream/Texts.antt =====
-- src/body.rs: the impls of `From` that make a `Body` of bytes at hand.
use http_serve.Base.{ℕ, suc, zero, ◌<◌, ◌≡◌, ap, ◌∙◌, some, append-nil, arith, Bytes, ok, length}
use http_serve.Body.{StreamApi}
use http_serve.Stream.{
  BodyStream, from_static, from_vec, from_string, from_text, size_hint, with_exact, poll_frame,
}
use http_serve.Stream.Collect.{complete, collect}

module _ {D E S : Type 0} (api : StreamApi D E S) (bytes_of : D → Bytes)
    (counted : (d : D) → api.data_len d ≡ length (bytes_of d)) where
  -- The body gives just these bytes and then its end, and its size hint is their number.
  abbrev Holds : BodyStream D E S → Bytes → Type 0
  Holds b value =
      (size_hint api b ≡ with_exact (length value))
      × ((n cx : ℕ) → 1 < n → collect api bytes_of n b cx ≡ (value, complete))

  once-Holds :
      (d : D) (value : Bytes)
      → bytes_of d ≡ value
      → Holds (http_serve.Stream.once (some (ok d))) value
  unfolding size_hint collect poll_frame
  once-Holds d value same = (ap with_exact (counted d ∙ ap length same), λ n cx lt. go n cx lt)
    where
      go :
          (n cx : ℕ)
          → 1 < n
          → collect api bytes_of n (http_serve.Stream.once (some (ok d))) cx ≡ (value, complete)
      go zero cx lt = absurd (omega arith)
      go (suc zero) cx lt = absurd (omega arith)
      go (suc (suc n)) cx lt = ap (λ x. (x, complete)) (append-nil (bytes_of d) ∙ same)

  from_static-Holds :
      (from_slice : Bytes → D) (value : Bytes)
      → bytes_of (from_slice value) ≡ value
      → Holds (from_static from_slice value) value
  from_static-Holds from_slice value same = once-Holds (from_slice value) value same

  from_string-Holds :
      (value : Bytes) → bytes_of (api.from_vec value) ≡ value → Holds (from_string api value) value
  from_string-Holds value same = once-Holds (api.from_vec value) value same
