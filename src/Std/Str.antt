-- ===== src/Std/Str.antt =====
-- Methods of `str` and `[u8]`, on byte strings.
pub mod Laws
use http_serve.Base.{
  ℕ, suc, Bool, true, false, ◌&&◌, ◌||◌, List, [], ◌∷◌, Option, none, some, Bytes, leb, ltb, ◌==◌,
  if◌then◌else◌, take, drop,
}

-- `s.strip_prefix(p)`
unfoldable pub strip_prefix : Bytes → Bytes → Option Bytes
strip_prefix [] s = some s
strip_prefix (x ∷ p) [] = none
strip_prefix (x ∷ p) (c ∷ s) = if x == c then strip_prefix p s else none

-- `s.starts_with(p)`
unfoldable pub starts_with : Bytes → Bytes → Bool
starts_with [] s = true
starts_with (x ∷ p) [] = false
starts_with (x ∷ p) (c ∷ s) = x == c && starts_with p s

-- `s.iter().position(|&b| b == c)`, `s.find(c)` and `memchr(c, s)`
unfoldable pub position : ℕ → Bytes → Option ℕ
position c [] = none
position c (x ∷ s) =
    if x == c then some 0 else elim (position c s) [ none ↦ none | some i ↦ some (suc i) ]

abbrev pub push_first : ℕ → List Bytes → List Bytes
push_first c [] = (c ∷ []) ∷ []
push_first c (p ∷ ps) = (c ∷ p) ∷ ps

-- `s.split(sep)`: at least one piece
unfoldable pub split : ℕ → Bytes → List Bytes
split sep [] = [] ∷ []
split sep (c ∷ s) = let rest = split sep s in if c == sep then [] ∷ rest else push_first c rest

-- `s.split_once(sep)`
unfoldable pub split_once : ℕ → Bytes → Option (Bytes × Bytes)
unfolding position
split_once sep s = elim (position sep s) [ none ↦ none | some i ↦ some (take i s, drop (suc i) s) ]

-- `s.trim_start_matches(p)`
unfoldable pub trim_start_matches : (ℕ → Bool) → Bytes → Bytes
trim_start_matches p [] = []
trim_start_matches p (c ∷ s) = if p c then trim_start_matches p s else c ∷ s

-- `s.trim_end_matches(p)`
unfoldable pub trim_end_matches : (ℕ → Bool) → Bytes → Bytes
trim_end_matches p [] = []
trim_end_matches p (c ∷ s) = elim (trim_end_matches p s) [
  | [] ↦ (if p c then [] else c ∷ [])
  | x ∷ r ↦ c ∷ x ∷ r
]

-- White space among the ASCII characters.
abbrev pub is_whitespace : ℕ → Bool
is_whitespace c = (leb 9 c && leb c 13) || c == 32

-- `s.trim()`, on ASCII text
unfoldable pub trim : Bytes → Bytes
unfolding trim_start_matches trim_end_matches
trim s = trim_end_matches is_whitespace (trim_start_matches is_whitespace s)

-- `s.ends_with(c)`
unfoldable pub ends_with : ℕ → Bytes → Bool
ends_with c [] = false
ends_with c (x ∷ []) = x == c
ends_with c (x ∷ y ∷ s) = ends_with c (y ∷ s)

-- `s.rfind(c)`
unfoldable pub rposition : ℕ → Bytes → Option ℕ
rposition c [] = none
rposition c (x ∷ s) = elim (rposition c s) [
  | none ↦ (if x == c then some 0 else none)
  | some i ↦ some (suc i)
]

-- `a <= b` on byte strings
unfoldable pub bytes_le : Bytes → Bytes → Bool
bytes_le [] b = true
bytes_le (x ∷ a) [] = false
bytes_le (x ∷ a) (y ∷ b) = let rest = bytes_le a b in ltb x y || (x == y && rest)
