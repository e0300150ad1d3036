-- ===== src/Std/Str/Laws.antt =====
-- Splitting and searching text whose parts lack a byte.
use http_serve.Base.{
  ℕ, List, [], ◌∷◌, ◌++◌, ◌≡◌, ◌≢◌, refl, arith, Bytes, All, Bool, some, ◌∙◌, ap, true, length,
}
use http_serve.Std.Str.{split, position, trim_start_matches, strip_prefix}

abbrev pub Lacks : ℕ → Bytes → Type 0
Lacks b = All (λ c. c ≢ b)

pub split-Lacks : (sep : ℕ) (p : Bytes) → Lacks sep p → split sep p ≡ p ∷ []
unfolding split
split-Lacks sep [] h = refl
split-Lacks sep (c ∷ p) h = ground (arith, split-Lacks sep p)

pub split-append :
    (sep : ℕ) (p rest : Bytes) → Lacks sep p → split sep (p ++ sep ∷ rest) ≡ p ∷ split sep rest
unfolding split
split-append sep [] rest h = ground arith
split-append sep (c ∷ p) rest h = ground (arith, split-append sep p rest)

-- `ps.join(sep)` for a list with at least one part
abbrev pub join : ℕ → Bytes → List Bytes → Bytes
join sep p [] = p
join sep p (q ∷ qs) = p ++ sep ∷ join sep q qs

pub split-join :
    (sep : ℕ) (p : Bytes) (ps : List Bytes)
    → Lacks sep p
    → All (Lacks sep) ps
    → split sep (join sep p ps) ≡ p ∷ ps
split-join sep p [] h hs = split-Lacks sep p h
split-join sep p (q ∷ qs) h hs =
    split-append sep p (join sep q qs) h ∙ ap (◌∷◌ p) (split-join sep q qs hs.0 hs.1)

pub position-append :
    (c : ℕ) (p rest : Bytes) → Lacks c p → position c (p ++ c ∷ rest) ≡ some (length p)
unfolding position
position-append c [] rest h = ground arith
position-append c (x ∷ p) rest h = ground (arith, position-append c p rest)

pub trim_start_matches-append :
    (p : ℕ → Bool) (s rest : Bytes)
    → All (λ c. p c ≡ true) s
    → trim_start_matches p (s ++ rest) ≡ trim_start_matches p rest
unfolding trim_start_matches
trim_start_matches-append p [] rest h = refl
trim_start_matches-append p (c ∷ s) rest h = rw h.0 (trim_start_matches-append p s rest h.1)

pub strip_prefix-append : (p s : Bytes) → strip_prefix p (p ++ s) ≡ some s
unfolding strip_prefix
strip_prefix-append [] s = refl
strip_prefix-append (c ∷ p) s = ground (arith, strip_prefix-append p s)
