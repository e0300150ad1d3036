-- ===== src/File/Tags.antt =====
-- The entity tag of a file tells its versions apart.
use http_serve.Base.{
  ℕ, ◌/◌, ◌%◌, ◌^◌, ◌≤◌, ◌≡◌, refl, ap, ◌↔◌, true, [], ◌∷◌, ◌++◌, arith, Bytes, codes, bytes_eq,
  bytes_eq_iff, u64_max, length, length-append, ◌+◌, ◌*◌,
}
use http_serve.Std.Num.{fmt_hex}
use http_serve.Std.Num.Texts.{
  IsText, append-IsText, fmt_hex-IsText, length-fmt_hex, length-fmt_hex-word,
}
use http_serve.Std.Num.Hex.{fmt_hex-injective}
use http_serve.Http.{SystemTime}
use http_serve.Etag.{weak_eq}
use http_serve.File.{fmt_etag}

-- The facts of a file that its tag tells, when it was modified at the Unix epoch or later.
pub record Version : Type 0 where
  pub inode : ℕ
  pub len : ℕ
  pub mtime : SystemTime

-- The widths of `st_ino`, `st_size` and a time's seconds.
abbrev pub IsVersion : Version → Type 0
IsVersion i = (i.inode ≤ u64_max) × (i.len ≤ u64_max) × (i.mtime / 10 ^ 9 ≤ u64_max)

abbrev pub tag_of : Version → Bytes
tag_of i = fmt_etag i.inode i.len i.mtime

-- behind the opening quote
abbrev numbers : ℕ → ℕ → ℕ → ℕ → Bytes
numbers a b c d =
    fmt_hex a
    ++ (codes ":"
        ++ (fmt_hex b ++ (codes ":" ++ (fmt_hex c ++ (codes ":" ++ (fmt_hex d ++ codes "\""))))))

numbers-injective :
    (a b c d a' b' c' d' : ℕ)
    → (a ≤ u64_max) × (b ≤ u64_max) × (c ≤ u64_max) × (d ≤ u64_max)
    → (a' ≤ u64_max) × (b' ≤ u64_max) × (c' ≤ u64_max) × (d' ≤ u64_max)
    → numbers a b c d ≡ numbers a' b' c' d'
    → (a ≡ a') × (b ≡ b') × (c ≡ c') × (d ≡ d')
numbers-injective a b c d a' b' c' d' h h' same =
    let (ea, rest) =
      fmt_hex-injective a a' b':' b':' _ _ (omega (arith, h.0)) (omega (arith, h'.0)) refl refl
        same in
    let (eb, rest') =
      fmt_hex-injective b b' b':' b':' _ _ (omega (arith, h.1)) (omega (arith, h'.1)) refl refl
        rest in
    let (ec, rest'') =
      fmt_hex-injective c c' b':' b':' _ _ (omega (arith, h.2)) (omega (arith, h'.2)) refl refl
        rest' in
    let (ed, _) =
      fmt_hex-injective d d' b'"' b'"' [] [] (omega (arith, h.3)) (omega (arith, h'.3)) refl refl
        rest'' in
    (ea, eb, ec, ed)

-- The entity tags of two versions of a file, of any inode, length and time of 64 bits that is not
-- before the epoch, match weakly just when the inode, the length and the modification time are the same, to the nanosecond.
pub fmt_etag-injective :
    (i j : Version)
    → IsVersion i
    → IsVersion j
    → (weak_eq (tag_of i) (tag_of j) ≡ true)
      ↔ ((i.inode ≡ j.inode) × (i.len ≡ j.len) × (i.mtime ≡ j.mtime))
unfolding weak_eq fmt_etag
fmt_etag-injective i j vi vj = (apart, together)
  where
    apart :
        bytes_eq (tag_of i) (tag_of j) ≡ true
        → (i.inode ≡ j.inode) × (i.len ≡ j.len) × (i.mtime ≡ j.mtime)
    apart e =
        let same : numbers i.inode i.len (i.mtime / 10 ^ 9) (i.mtime % 10 ^ 9)
            ≡ numbers j.inode j.len (j.mtime / 10 ^ 9) (j.mtime % 10 ^ 9) =
          ap tail ((bytes_eq_iff (tag_of i) (tag_of j)).0 e) in
        let (inodes, lens, secs, nanos) =
          numbers-injective i.inode i.len (i.mtime / 10 ^ 9) (i.mtime % 10 ^ 9) j.inode j.len
            (j.mtime / 10 ^ 9) (j.mtime % 10 ^ 9) (vi.0, vi.1, vi.2, omega arith)
            (vj.0, vj.1, vj.2, omega arith) same in
        (inodes, lens, omega arith)
      where
        tail : Bytes → Bytes
        tail [] = []
        tail (c ∷ s) = s

    together :
        (i.inode ≡ j.inode) × (i.len ≡ j.len) × (i.mtime ≡ j.mtime)
        → bytes_eq (tag_of i) (tag_of j) ≡ true
    together (inodes, lens, times) =
        (bytes_eq_iff (tag_of i) (tag_of j)).1 (rw (inodes, lens, times) refl)

-- `HEX_U64_LEN * 3 + HEX_U32_LEN + 5`
abbrev pub tag_capacity : ℕ
tag_capacity = 16 * 3 + 8 + 5

-- The entity tag of a file is visible ASCII, and fits in the 61 bytes that the code reserves for it.
pub fmt_etag-Fits : (i : Version) → IsText (tag_of i) × (length (tag_of i) ≤ tag_capacity)
unfolding fmt_etag
fmt_etag-Fits i =
    let a = fmt_hex i.inode in
    let b = fmt_hex i.len in
    let c = fmt_hex (i.mtime / 10 ^ 9) in
    let d = fmt_hex (i.mtime % 10 ^ 9) in
    let d' = d ++ codes "\"" in
    let c' = c ++ (codes ":" ++ d') in
    let b' = b ++ (codes ":" ++ c') in
    (
      append-IsText a (codes ":" ++ b') (fmt_hex-IsText i.inode) (
          append-IsText b (codes ":" ++ c') (fmt_hex-IsText i.len) (
            append-IsText c (codes ":" ++ d') (fmt_hex-IsText (i.mtime / 10 ^ 9))
              (append-IsText d (codes "\"") (fmt_hex-IsText (i.mtime % 10 ^ 9)) refl))),
      omega (
        arith,
        length-append a (codes ":" ++ b'),
        length-append b (codes ":" ++ c'),
        length-append c (codes ":" ++ d'),
        length-append d (codes "\""),
        length-fmt_hex i.inode,
        length-fmt_hex i.len,
        length-fmt_hex (i.mtime / 10 ^ 9),
        length-fmt_hex-word (i.mtime % 10 ^ 9) (omega arith),
      ),
    )
