-- ===== src/Examples/Written.antt =====
-- What `write_all` and `write!` write to the writer of a body: all of the texts, in order.
use http_serve.Base.{
  ℕ, zero, suc, ◌≤◌, ◌≡◌, refl, sym, ◌∙◌, subst, List, [], ◌∷◌, ◌++◌, append-nil, append_assoc,
  arith, Bytes, Result, ok, length, take, drop, take-append-drop, length-drop, concat,
}
use http_serve.Io.{IoError, Attempt, finished}
use http_serve.Chunker.{Shared}
use http_serve.Gzip.{Encoder, Effect, Inner, write_body}
use http_serve.Gzip.Progress.{Took}
use http_serve.Gzip.Sink.{Sink}
use http_serve.Examples.Listing.{OpenBody, on_written, write_all, write_texts, ◌>>>=◌}

length-drop_le : (n : ℕ) (s : Bytes) → length (drop n s) ≤ length s
length-drop_le n s = omega (arith, length-drop {0} n s)

module _ {E G : Type 0} (encoder : Encoder E G) (reserve : ℕ → ℕ) (Reads : Bytes → Bytes → Type 0)
    (sink : Sink encoder reserve Reads) where
  open sink use {Taken, write_body-Took}

  -- The writer took the text behind the bytes that it had, and goes on.
  pub record Written (plain : Bytes) (o : Attempt (Result (OpenBody encoder reserve) IoError))
      : Type 0 where
    pub inner : Inner G
    pub shared : Shared E
    pub still : Taken inner shared plain
    pub outcome : o ≡ finished (ok (inner, shared))

  -- It does so whenever it is at hand.
  abbrev pub Writes :
      Bytes
      → (OpenBody encoder reserve → Attempt (Result (OpenBody encoder reserve) IoError))
      → Type 0
  Writes text k =
      (plain : Bytes) (inner : Inner G) (shared : Shared E)
      → Taken inner shared plain
      → Written (plain ++ text) (k (inner, shared))

  pub nothing-Writes : Writes [] (λ w. finished (ok w))
  nothing-Writes plain inner shared t = record {
    inner = inner;
    shared = shared;
    still = subst (Taken inner shared) (sym (append-nil plain)) t;
    outcome = refl;
  }

  -- One text behind another.
  pub and_then-Writes :
      (x y : Bytes)
      (k l : OpenBody encoder reserve → Attempt (Result (OpenBody encoder reserve) IoError))
      → Writes x k
      → Writes y l
      → Writes (x ++ y) (λ w. k w >>>= l)
  and_then-Writes x y k l first second plain inner shared t =
      let one = first plain inner shared t in
      let two = second (plain ++ x) one.inner one.shared one.still in
      record {
        inner = two.inner;
        shared = two.shared;
        still = subst (Taken two.inner two.shared) (append_assoc plain x y) two.still;
        outcome = rw one.outcome two.outcome;
      }

  on_written-Written :
      (plain : Bytes) (c : ℕ) (buf : Bytes) (o : Inner G × Effect E ℕ)
      (k : OpenBody encoder reserve → Bytes → Attempt (Result (OpenBody encoder reserve) IoError))
      → Took Taken plain (c ∷ buf) o
      → ((rest : Bytes) → length rest ≤ length buf → Writes rest (λ w. k w rest))
      → Written
          (plain ++ c ∷ buf)
          (on_written encoder reserve o.1.result (o.0, o.1.shared) (c ∷ buf) k)
  on_written-Written plain c buf o k t behind = go t.count refl
    where
      go :
          (n : ℕ)
          → t.count ≡ n
          → Written
              (plain ++ c ∷ buf)
              (on_written encoder reserve o.1.result (o.0, o.1.shared) (c ∷ buf) k)
      go zero e = absurd (omega (arith, t.positive (omega arith)))
      go (suc n) e =
          let rest =
            behind (drop n buf) (length-drop_le n buf) (plain ++ take t.count (c ∷ buf)) o.0
              o.1.shared t.still in
          let whole : (plain ++ take t.count (c ∷ buf)) ++ drop n buf ≡ plain ++ c ∷ buf = rw e (
            append_assoc plain (take (suc n) (c ∷ buf)) (drop n buf)
            ∙ rw (take-append-drop n buf) refl) in
          record {
            inner = rest.inner;
            shared = rest.shared;
            still = subst (Taken rest.inner rest.shared) whole rest.still;
            outcome = rw (t.result_eq, e) rest.outcome;
          }

  pub write_all-Writes :
      (fuel : ℕ) (buf : Bytes)
      → length buf ≤ fuel
      → Writes buf (λ w. write_all encoder reserve fuel w buf)
  unfolding write_all
  write_all-Writes fuel [] few plain inner shared t = nothing-Writes plain inner shared t
  write_all-Writes zero (c ∷ buf) few plain inner shared t = absurd (omega arith)
  write_all-Writes (suc fuel) (c ∷ buf) few plain inner shared t =
      on_written-Written plain c buf (write_body encoder reserve inner shared (c ∷ buf))
        (write_all encoder reserve fuel) (write_body-Took inner shared plain (c ∷ buf) t)
        (λ rest less. write_all-Writes fuel rest (omega arith))

  pub write_texts-Writes : (ts : List Bytes) → Writes (concat ts) (write_texts encoder reserve ts)
  unfolding write_texts
  write_texts-Writes [] = nothing-Writes
  write_texts-Writes (t ∷ ts) =
      and_then-Writes t (concat ts) (λ w. write_all encoder reserve (length t) w t)
        (write_texts encoder reserve ts) (write_all-Writes (length t) t (omega arith))
        (write_texts-Writes ts)
