-- ===== src/Examples/Writes.antt =====
-- The fuel of `write_all`.
use http_serve.Base.{
  ℕ, zero, suc, ◌≤◌, ◌≡◌, refl, arith, [], ◌∷◌, Bytes, Result, length, drop, length-drop,
}
use http_serve.Chunker.{Done, done, broken_pipe, panicked}
use http_serve.Io.{IoError, Attempt}
use http_serve.Gzip.{Encoder, write_body}
use http_serve.Examples.Listing.{OpenBody, on_written, write_all}

module _ {E G : Type 0} (encoder : Encoder E G) (reserve : ℕ → ℕ) where
  on_written-fuel :
      (r : Done ℕ) (w : OpenBody encoder reserve) (c : ℕ) (buf : Bytes)
      (f g : OpenBody encoder reserve → Bytes → Attempt (Result (OpenBody encoder reserve) IoError))
      → ((w' : OpenBody encoder reserve) (rest : Bytes)
          → length rest ≤ length buf
          → f w' rest ≡ g w' rest)
      → on_written encoder reserve r w (c ∷ buf) f ≡ on_written encoder reserve r w (c ∷ buf) g
  on_written-fuel (done zero) w c buf f g same = refl
  on_written-fuel (done (suc n)) w c buf f g same =
      same w (drop n buf) (omega (arith, length-drop {0} n buf))
  on_written-fuel broken_pipe w c buf f g same = refl
  on_written-fuel panicked w c buf f g same = refl

  -- Fuel for a write for each byte is enough: with more of it the result is the same.
  pub write_all-fuel :
      (n m : ℕ) (w : OpenBody encoder reserve) (buf : Bytes)
      → length buf ≤ n
      → length buf ≤ m
      → write_all encoder reserve n w buf ≡ write_all encoder reserve m w buf
  unfolding write_all
  write_all-fuel n m w [] hn hm = refl
  write_all-fuel zero m w (c ∷ buf) hn hm = absurd (omega arith)
  write_all-fuel (suc n) zero w (c ∷ buf) hn hm = absurd (omega arith)
  write_all-fuel (suc n) (suc m) (inner, shared) (c ∷ buf) hn hm =
      let (next, e) = write_body encoder reserve inner shared (c ∷ buf) in
      on_written-fuel e.result (next, e.shared) c buf (write_all encoder reserve n)
        (write_all encoder reserve m)
        (λ w' rest less. write_all-fuel n m w' rest (omega arith) (omega arith))
