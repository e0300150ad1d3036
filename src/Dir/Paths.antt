-- ===== src/Dir/Paths.antt =====
-- Which paths are accepted.
use http_serve.Base.{
  ◌==◌, ℕ, zero, suc, ◌+◌, ◌<◌, ◌≡◌, ◌≢◌, ◌↔◌, refl, sym, ap, ◌∙◌, Bool, true, false, Option, none,
  some, List, [], ◌∷◌, arith, if◌then◌else◌, Bytes, codes, bytes_eq, bytes_eq_iff, Result, ok, err,
  All, any, length, take, drop, length-drop,
}
use http_serve.Std.Str.{position, push_first, split}
use http_serve.Std.Str.Laws.{Lacks}
use http_serve.Dir.{slash, check_segments, check_at, starts_absolute, is_some, validate_path}

-- `split` in terms of `position`.
abbrev split_at : ℕ → Bytes → Option ℕ → List Bytes
split_at sep s none = take (length s) s ∷ []
split_at sep s (some n) = take n s ∷ split sep (drop (n + 1) s)

split-position-step :
    (sep c : ℕ) (s : Bytes) (b : Bool) (o : Option ℕ)
    → split sep s ≡ split_at sep s o
    → (if b then [] ∷ split sep s else push_first c (split sep s))
      ≡ split_at sep (c ∷ s) (if b then some 0 else elim o [ none ↦ none | some i ↦ some (suc i) ])
split-position-step sep c s true o e = refl
split-position-step sep c s false none e = ap (push_first c) e
split-position-step sep c s false (some n) e =
    let next : suc n + 1 ≡ suc (n + 1) = omega arith in ap (push_first c) e ∙ rw next refl

split-position : (sep : ℕ) (s : Bytes) → split sep s ≡ split_at sep s (position sep s)
unfolding split position
split-position sep [] = refl
split-position sep (c ∷ s) =
    split-position-step sep c s (c == sep) (position sep s) (split-position sep s)

abbrev is_dots : Bytes → Bool
is_dots s = bytes_eq s (codes "..")

-- The answer of the loop, given whether some segment is two dots.
abbrev dots_error : Bool → Result (Unit {0}) Bytes
dots_error b = if b then err (codes "path contains .. segment") else ok tt

check_at-split :
    (o : Option ℕ) (left : Bytes) (k : Bytes → Result (Unit {0}) Bytes)
    → ((n : ℕ)
        → o ≡ some n
        → k (drop (n + 1) left) ≡ dots_error (any is_dots (split slash (drop (n + 1) left))))
    → check_at o left k ≡ dots_error (any is_dots (split_at slash left o))
check_at-split none left k h = ground arith
check_at-split (some n) left k h = ground (arith, h n refl)

position-ne-nil : (sep n : ℕ) (left : Bytes) → position sep left ≡ some n → 0 < length left
unfolding position
position-ne-nil sep n [] e = cc
position-ne-nil sep n (c ∷ s) e = omega arith

check_segments-split :
    (fuel : ℕ) (left : Bytes)
    → length left < fuel
    → check_segments fuel left ≡ dots_error (any is_dots (split slash left))
unfolding check_segments
check_segments-split zero left lt = absurd (omega arith)
check_segments-split (suc fuel) left lt =
    check_at-split (position slash left) left (check_segments fuel) (λ n e.
      check_segments-split fuel (drop (n + 1) left)
        (omega (arith, length-drop {0} (n + 1) left, position-ne-nil slash n left e)))
    ∙ ap (λ ss. dots_error (any is_dots ss)) (sym (split-position slash left))

pub position-Lacks : (c : ℕ) (s : Bytes) → (is_some (position c s) ≡ false) ↔ Lacks c s
unfolding position
position-Lacks c [] = ((λ e. tt), (λ h. refl))
position-Lacks c (x ∷ s) = ground (arith, position-Lacks c s)

any-none : (ss : List Bytes) → (any is_dots ss ≡ false) ↔ All (λ s. s ≢ codes "..") ss
any-none [] = ((λ e. tt), (λ h. refl))
any-none (s ∷ ss) = ground (arith, bytes_eq_iff s (codes ".."), any-none ss)

-- A path is accepted exactly if it has no NUL byte, does not start with a slash, and none of its
-- segments between slashes is `..`.
pub validate_path_iff :
    (path : Bytes)
    → (validate_path path ≡ ok tt) ↔ (
        Lacks 0 path
        × (starts_absolute path ≡ false)
        × All (λ s. s ≢ codes "..") (split slash path))
unfolding validate_path
validate_path_iff path = ground (
  arith,
  position-Lacks 0 path,
  any-none (split slash path),
  check_segments-split (length path + 1) path (omega arith),
)
