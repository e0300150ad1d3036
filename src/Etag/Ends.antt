-- ===== src/Etag/Ends.antt =====
-- The loops over a list of entity tags end by the iterator's own `None`, whatever the text is.
use http_serve.Base.{
  ℕ, zero, suc, ◌+◌, ◌≤◌, ◌<◌, ◌≡◌, refl, Bool, Option, none, some, [], ◌∷◌, arith, Bytes, length,
  drop, length-drop,
}
use http_serve.Std.Str.{trim_start_matches}
use http_serve.Etag.{
  TagList, find_end, is_ows, skip_separator, next_at, next_from, next, round, each,
}

length-trim_start_matches : (p : ℕ → Bool) (s : Bytes) → length (trim_start_matches p s) ≤ length s
unfolding trim_start_matches
length-trim_start_matches p [] = omega arith
length-trim_start_matches p (c ∷ s) = ground (arith, length-trim_start_matches p s)

length-skip_separator : (s : Bytes) → length (skip_separator s) ≤ length s
unfolding skip_separator
length-skip_separator [] = omega arith
length-skip_separator (c ∷ s) = ground (arith, length-trim_start_matches is_ows s)

-- What a round leaves: fewer bytes behind an item, and no further item once there was none.
abbrev Goes : ℕ → Option Bytes × TagList → Type 0
Goes n (none, l) = (next l).0 ≡ none
Goes n (some item, l) = length l.remaining < n

next_at-Goes :
    (o : Option ℕ) (c : ℕ) (s : Bytes) (bad : Bool)
    → find_end (c ∷ s) ≡ o
    → Goes (suc (length s)) (next_at o (record { remaining = c ∷ s; corrupt = bad }))
unfolding next_at
next_at-Goes none c s bad e = unfold next next_from next_at in rw e
next_at-Goes (some end) c s bad e =
    let rest = drop (end + 1) (c ∷ s) in
    omega (arith, length-skip_separator rest, length-drop {0} (end + 1) (c ∷ s))

next_from-Goes :
    (s : Bytes) (bad : Bool)
    → Goes (length s) (next_from s (record { remaining = s; corrupt = bad }))
unfolding next_from
next_from-Goes [] bad = unfold next in refl
next_from-Goes (c ∷ s) bad = next_at-Goes (find_end (c ∷ s)) c s bad refl

next-Goes : (l : TagList) → Goes (length l.remaining) (next l)
unfolding next
next-Goes l = next_from-Goes l.remaining l.corrupt

module _ {S : Type 0} (body : S → Bytes → S) where
  round-finished :
      (n f : ℕ) (p : Option Bytes × TagList) (s : S)
      → Goes n p
      → n < suc f
      → ((s' : S) (l : TagList) → length l.remaining < f → (next (each body f s' l).1).0 ≡ none)
      → (next (round body p s (each body f)).1).0 ≡ none
  round-finished n f (none, l) s g lt rest = g
  round-finished n f (some item, l) s g lt rest = rest (body s item) l (omega arith)

  -- With fuel for one round more than there are bytes, the loop over the items of a header stops
  -- where the iterator has no further item, on every header and with every body.
  pub each-finished :
      (fuel : ℕ) (s : S) (l : TagList)
      → length l.remaining < fuel
      → (next (each body fuel s l).1).0 ≡ none
  unfolding each
  each-finished zero s l lt = absurd (omega arith)
  each-finished (suc f) s l lt =
      round-finished (length l.remaining) f (next l) s (next-Goes l) lt (each-finished f)
