-- ===== src/Etag/Items.antt =====
-- What the iterator over a list of entity tags yields, and that a loop over it ends.
use http_serve.Base.{
  ℕ, ◌+◌, ◌≡◌, ◌≢◌, Bool, true, false, Option, none, some, List, [], ◌∷◌, ◌++◌, arith, Bytes, All,
  length, length-append, zero, suc, ◌<◌, refl, ap, ◌∙◌, append_assoc, take-length-append,
  drop-length-append,
}
use http_serve.Std.Str.{trim_start_matches}
use http_serve.Std.Str.Laws.{Lacks, position-append, trim_start_matches-append}
use http_serve.Etag.{
  quote, TagList, find_end, is_ows, skip_separator, next_at, next_from, next, round, each, from,
}
use http_serve.Etag.Compare.{EntityTag, print_tag, print}

-- A tag, with a comma and white space behind it or nothing.
pub record TagItem : Type 0 where
  pub tag : EntityTag
  pub separator : Option Bytes

abbrev pub print_separator : Option Bytes → Bytes
print_separator none = []
print_separator (some ows) = b',' ∷ ows

abbrev pub IsSeparator : Option Bytes → Type 0
IsSeparator none = Unit
IsSeparator (some ows) = All (λ c. is_ows c ≡ true) ows

abbrev pub IsItem : TagItem → Type 0
IsItem i = Lacks quote i.tag.opaque × IsSeparator i.separator

-- The items, and a tail behind them.
abbrev pub print_items : List TagItem → Bytes → Bytes
print_items [] tail = tail
print_items (i ∷ is) tail = print i.tag ++ (print_separator i.separator ++ print_items is tail)

-- Text that a separator does not run into.
abbrev pub StartsClear : Bytes → Type 0
StartsClear [] = Unit
StartsClear (c ∷ s) = (is_ows c ≡ false) × (c ≢ b',')

-- A tail that is no entity tag, or is empty.
abbrev pub IsTail : Bytes → Type 0
IsTail s = StartsClear s × (s ≢ [] → find_end s ≡ none)

find_end-print_tag :
    (w : Bool) (s rest : Bytes)
    → Lacks quote s
    → (end : ℕ) × (find_end (print_tag w s ++ rest) ≡ some end) × (end + 1 ≡ length (print_tag w s))
unfolding find_end
find_end-print_tag true s rest h = (
  length s + 3,
  rw (append_assoc, position-append quote s rest h),
  omega (arith, length-append {0} s (quote ∷ [])),
)
find_end-print_tag false s rest h = (
  length s + 1,
  rw (append_assoc, position-append quote s rest h),
  omega (arith, length-append {0} s (quote ∷ [])),
)

-- The text from an entity tag on: `next` yields the tag and goes past the separator.
next_from-cons : (s : Bytes) (l : TagList) → s ≢ [] → next_from s l ≡ next_at (find_end s) l
unfolding next_from
next_from-cons [] l ne = absurd (ne refl)
next_from-cons (c ∷ s) l ne = refl

print_tag-ne-nil : (w : Bool) (s rest : Bytes) → print_tag w s ++ rest ≢ []
print_tag-ne-nil true s rest = λ e. cc
print_tag-ne-nil false s rest = λ e. cc

next-print_tag :
    (w : Bool) (s rest : Bytes) (bad : Bool)
    → Lacks quote s
    → next (record { remaining = print_tag w s ++ rest; corrupt = bad })
      ≡ (some (print_tag w s), record { remaining = skip_separator rest; corrupt = bad })
unfolding next next_at
next-print_tag w s rest bad h =
    let (end, found, at_end) = find_end-print_tag w s rest h in
    let l : TagList = record { remaining = print_tag w s ++ rest; corrupt = bad } in
    next_from-cons (print_tag w s ++ rest) l (print_tag-ne-nil w s rest)
    ∙ ap (λ o. next_at o l) found
    ∙ rw (at_end, take-length-append (print_tag w s) rest, drop-length-append (print_tag w s) rest)

trim_start_matches-clear : (s : Bytes) → StartsClear s → trim_start_matches is_ows s ≡ s
unfolding trim_start_matches
trim_start_matches-clear [] h = refl
trim_start_matches-clear (c ∷ s) h = rw h.0

skip_separator-print :
    (sep : Option Bytes) (s : Bytes)
    → IsSeparator sep
    → StartsClear s
    → skip_separator (print_separator sep ++ s) ≡ s
unfolding skip_separator
skip_separator-print none [] h clear = refl
skip_separator-print none (c ∷ s) h clear = ground arith
skip_separator-print (some ows) s h clear =
    trim_start_matches-append is_ows ows s h ∙ trim_start_matches-clear s clear

print_tag-clear : (w : Bool) (s rest : Bytes) → StartsClear (print_tag w s ++ rest)
print_tag-clear true s rest = (refl, λ e. omega arith)
print_tag-clear false s rest = (refl, λ e. omega arith)

print_items-clear :
    (is : List TagItem) (tail : Bytes) → StartsClear tail → StartsClear (print_items is tail)
print_items-clear [] tail h = h
print_items-clear (i ∷ is) tail h = print_tag-clear i.tag.weak i.tag.opaque _

-- At the tail the iterator stops; a tail that is not empty corrupts it.
abbrev pub is_junk : Bytes → Bool
is_junk [] = false
is_junk (c ∷ s) = true

next-tail :
    (tail : Bytes)
    → IsTail tail
    → next (record { remaining = tail; corrupt = false })
      ≡ (none, record { remaining = tail; corrupt = is_junk tail })
unfolding next next_from next_at
next-tail [] h = refl
next-tail (c ∷ s) h = rw (h.1 (λ e. cc))

module _ {S : Type 0} (body : S → Bytes → S) where
  abbrev pub each_tag : S → List TagItem → S
  each_tag s [] = s
  each_tag s (i ∷ is) = each_tag (body s (print i.tag)) is

  -- The loop runs its body on every tag in order, and the rest of the text decides how it ends.
  pub each-print_items :
      (is : List TagItem) (tail : Bytes) (fuel : ℕ) (s : S)
      → All IsItem is
      → IsTail tail
      → length is < fuel
      → each body fuel s (from (print_items is tail))
        ≡ (each_tag s is, record { remaining = tail; corrupt = is_junk tail })
  unfolding each
  each-print_items [] tail zero s h t lt = absurd (omega arith)
  each-print_items [] tail (suc f) s h t lt =
      ap (λ r. round body r s (each body f)) (next-tail tail t)
  each-print_items (i ∷ is) tail zero s h t lt = absurd (omega arith)
  each-print_items (i ∷ is) tail (suc f) s h t lt =
      let rest = print_items is tail in
      let clear = print_items-clear is tail t.0 in
      ap (λ r. round body r s (each body f))
        (next-print_tag i.tag.weak i.tag.opaque (print_separator i.separator ++ rest) false h.0.0)
      ∙ ap (λ r. each body f (body s (print i.tag)) (from r))
          (skip_separator-print i.separator rest h.0.1 clear)
      ∙ each-print_items is tail f (body s (print i.tag)) h.1 t (omega arith)
