-- ===== src/File/Contents.antt =====
-- The stream over a range of a file gives the bytes of that range, in order.
use http_serve.Base.{
  codes, Result, take-append-take, drop-drop, ℕ, zero, suc, ◌+◌, ◌-◌, ◌≤◌, ◌≡◌, refl, sym, ap, ◌∙◌,
  Bool, true, false, min, none, some, [], ◌∷◌, ◌++◌, append_assoc, arith, Bytes, ok, err, length,
  take, drop, u64_max, wrapping_add, wrapping_sub, wrapping_sub_lem, ◌==◌, if◌then◌else◌, ltb,
}
use http_serve.Range.{ByteRange}
use http_serve.Body.{ready, Polled}
use http_serve.Body.Faithful.{slice}
use http_serve.Io.{IoError, invalid_input, Pread}
use http_serve.File.{off_t_max, on_read, read_at, on_chunk, poll_range, chunk_size}

-- The documented behaviour of `pread` on a file of fixed contents: what it reads are bytes from the
-- offset on, and no more than were asked for.
abbrev pub Reads : Bytes → Pread → Type 0
Reads contents pread =
    (n offset : ℕ) (v : Bytes)
    → pread n offset ≡ ok v
    → (v ≡ take (length v) (drop offset contents)) × (length v ≤ n)

abbrev pub IsLeft : ByteRange → Type 0
IsLeft r = (r.start ≤ r.end) × (r.end ≤ u64_max)

-- The bytes that a poll gave.
abbrev pub polled_bytes : Polled Bytes IoError → Bytes
polled_bytes (ready (some (ok v))) = v
polled_bytes _ = []

-- A poll gives the next bytes of the range and leaves the others; at the end none are left.
abbrev pub Gives : Bytes → ByteRange → Polled Bytes IoError × ByteRange → Type 0
Gives contents before (p, left) =
    IsLeft left
    × (slice contents before ≡ polled_bytes p ++ slice contents left)
    × (p ≡ ready none → slice contents left ≡ [])

on_chunk-Gives :
    (contents : Bytes) (left : ByteRange) (o : Result Bytes IoError) (offset : ℕ)
    → IsLeft left
    → ((v : Bytes)
        → o ≡ ok v
        → (v ≡ take (length v) (drop left.start contents)) × (length v ≤ left.end - left.start))
    → Gives contents left (on_chunk (on_read offset o) left)
on_chunk-Gives contents left (err e) offset h reads = (h, refl, (λ e. cc))
on_chunk-Gives contents left (ok []) offset h reads = (h, refl, (λ e. cc))
on_chunk-Gives contents left (ok (c ∷ v)) offset h reads =
    let (text, fits) = reads (c ∷ v) refl in
    let m = length (c ∷ v) in
    let next : wrapping_add left.start m ≡ left.start + m = omega arith in
    let rest : left.end - left.start ≡ m + (left.end - (left.start + m)) = omega arith in
    (
      (omega arith, h.1),
      ap (λ k. take k (drop left.start contents)) rest
          ∙ sym (take-append-take m (left.end - (left.start + m)) (drop left.start contents))
          ∙ ap (λ x. x ++ take (left.end - (left.start + m)) (drop m (drop left.start contents)))
              (sym text)
          ∙ ap (λ x. (c ∷ v) ++ take (left.end - (left.start + m)) x)
              (drop-drop m left.start contents)
          ∙ ap (λ x. (c ∷ v) ++ take (left.end - x) (drop x contents)) (sym next),
      (λ e. cc),
    )

if-Gives :
    (contents : Bytes) (before : ByteRange) (b : Bool) (x y : Polled Bytes IoError × ByteRange)
    → (b ≡ true → Gives contents before x)
    → Gives contents before y
    → Gives contents before (if b then x else y)
if-Gives contents before true x y hx hy = hx refl
if-Gives contents before false x y hx hy = hy

-- What `n` polls give, and the range that is left.
unfoldable pub reads_of : Pread → ℕ → ByteRange → Bytes × ByteRange
reads_of pread zero left = ([], left)
reads_of pread (suc n) left =
    let (p, next) = poll_range pread left in
    let (rest, last) = reads_of pread n next in (polled_bytes p ++ rest, last)

module _ (contents : Bytes) (pread : Pread) (reads : Reads contents pread) where
  read_at-Gives :
      (left : ByteRange) (size : ℕ)
      → IsLeft left
      → size ≤ left.end - left.start
      → Gives contents left (on_chunk (read_at pread size left.start) left)
  unfolding read_at
  read_at-Gives left size h fits = go (ltb off_t_max left.start)
    where
      go :
          (b : Bool)
          → Gives contents left (
              on_chunk
                (if b
                  then err (invalid_input (codes "offset too large"))
                  else on_read left.start (pread size left.start))
                left)
      go true = (h, refl, (λ e. cc))
      go false =
          on_chunk-Gives contents left (pread size left.start) left.start h
            (λ v e. let (text, small) = reads size left.start v e in (text, omega arith))

  pub poll_range-Gives :
      (left : ByteRange) → IsLeft left → Gives contents left (poll_range pread left)
  unfolding poll_range
  poll_range-Gives left h =
      let width = wrapping_sub_lem left.end left.start h.0 h.1 in
      let size = min chunk_size (wrapping_sub left.end left.start) in
      if-Gives contents left (left.start == left.end) (ready none, left)
        (on_chunk (read_at pread size left.start) left)
        (λ same. (
          h,
          refl,
          (λ e.
              let none_left : left.end - left.start ≡ 0 = ground arith in
              ap (λ n. take n (drop left.start contents)) none_left),
        ))
        (read_at-Gives left size h (omega arith))

  ended-slice :
      (r : ByteRange) → IsLeft r → (poll_range pread r).0 ≡ ready none → slice contents r ≡ []
  ended-slice r h e =
      let (_, split, nothing) = poll_range-Gives r h in
      split ∙ ap (λ p. polled_bytes p ++ slice contents (poll_range pread r).1) e ∙ nothing e

  -- On a file of fixed contents, whatever the sizes of the reads and wherever one fails: what any
  -- number of polls gave, with the bytes of the range that is left, are the bytes of the range; and
  -- when a poll reports the end, all of them were given.
  pub reads_of-slice :
      (n : ℕ) (r : ByteRange)
      → IsLeft r
      → (slice contents r ≡ (reads_of pread n r).0 ++ slice contents (reads_of pread n r).1)
        × ((poll_range pread (reads_of pread n r).1).0 ≡ ready none
            → (reads_of pread n r).0 ≡ slice contents r)
  unfolding reads_of
  reads_of-slice zero r h = (refl, (λ e. sym (ended-slice r h e)))
  reads_of-slice (suc n) r h =
      let (p, next) = poll_range pread r in
      let (valid, split, _) = poll_range-Gives r h in
      let (rest, ended) = reads_of-slice n next valid in
      (
        split
            ∙ ap (λ x. polled_bytes p ++ x) rest
            ∙ sym (
                append_assoc (polled_bytes p) (reads_of pread n next).0
                  (slice contents (reads_of pread n next).1)),
        (λ e. ap (λ x. polled_bytes p ++ x) (ended e) ∙ sym split),
      )
