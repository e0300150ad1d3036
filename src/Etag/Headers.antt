-- ===== src/Etag/Headers.antt =====
-- The answers of `none_match` and `any_match` on a header made of entity tags.
use http_serve.Base.{
  ◌+◌, ◌≤◌, ◌<◌, ◌≡◌, refl, ap, ◌∙◌, Bool, true, false, not, ◌&&◌, ◌||◌, none, some, List, [], ◌∷◌,
  ◌++◌, arith, if◌then◌else◌, Bytes, codes, bytes_eq, ok, err, All, length, length-append, any,
}
use http_serve.Http.{RequestHeaders, if_none_match, if_match}
use http_serve.Etag.{
  quote, each, none_match_item, any_match_item, none_match_end, any_match_end, none_match_value,
  any_match_value, none_match, any_match, none_match_header, any_match_header, from,
}
use http_serve.Etag.Compare.{EntityTag, print_tag, print, weak_eq-print, strong_eq-print}
use http_serve.Etag.Items.{
  TagItem, print_separator, print_items, IsItem, IsTail, is_junk, each_tag, each-print_items,
}

length-print_tag : (w : Bool) (s rest : Bytes) → length rest < length (print_tag w s ++ rest)
length-print_tag true s rest = omega (arith, length-append {0} (s ++ quote ∷ []) rest)
length-print_tag false s rest = omega (arith, length-append {0} (s ++ quote ∷ []) rest)

length-print_items : (is : List TagItem) (tail : Bytes) → length is ≤ length (print_items is tail)
length-print_items [] tail = omega arith
length-print_items (i ∷ is) tail =
    let rest = print_separator i.separator ++ print_items is tail in
    omega (
      arith,
      length-print_items is tail,
      length-append {0} (print_separator i.separator) (print_items is tail),
      length-print_tag i.tag.weak i.tag.opaque rest,
    )

print_tag-ne-star :
    (w : Bool) (s rest : Bytes) → bytes_eq (print_tag w s ++ rest) (codes "*") ≡ false
unfolding bytes_eq
print_tag-ne-star true s rest = refl
print_tag-ne-star false s rest = refl

pub print_items-ne-star :
    (i : TagItem) (is : List TagItem) (tail : Bytes)
    → bytes_eq (print_items (i ∷ is) tail) (codes "*") ≡ false
print_items-ne-star i is tail = print_tag-ne-star i.tag.weak i.tag.opaque _

abbrev pub matches_weakly : EntityTag → TagItem → Bool
matches_weakly e i = bytes_eq i.tag.opaque e.opaque

abbrev pub matches_strongly : EntityTag → TagItem → Bool
matches_strongly e i = not i.tag.weak && (not e.weak && bytes_eq i.tag.opaque e.opaque)

each_tag-none_match :
    (e : EntityTag) (is : List TagItem) (acc : Bool)
    → each_tag (none_match_item (print e)) acc is ≡ (acc && not (any (matches_weakly e) is))
each_tag-none_match e [] acc = ground arith
each_tag-none_match e (i ∷ is) acc =
    each_tag-none_match e is (none_match_item (print e) acc (print i.tag))
    ∙ unfold none_match_item in ground (arith, weak_eq-print i.tag e)

each_tag-any_match :
    (e : EntityTag) (is : List TagItem) (acc : Bool)
    → each_tag (any_match_item (print e)) acc is ≡ (acc || any (matches_strongly e) is)
each_tag-any_match e [] acc = ground arith
each_tag-any_match e (i ∷ is) acc =
    each_tag-any_match e is (any_match_item (print e) acc (print i.tag))
    ∙ unfold any_match_item in ground (arith, strong_eq-print i.tag e)

module _ (e : EntityTag) (req_hdrs : RequestHeaders) (i : TagItem) (is : List TagItem)
    (tail : Bytes) (items : All IsItem (i ∷ is)) (ends : IsTail tail) where
  abbrev value : Bytes
  value = print_items (i ∷ is) tail

  enough : length (i ∷ is) < length value + 1
  enough = omega (arith, length-print_items (i ∷ is) tail)

  -- `If-None-Match` with a list of entity tags, white space only behind its commas: the header is ignored if anything but a tag stands
  -- behind the last separator, and otherwise the answer is whether no tag matches weakly.
  pub none_match-print_items :
      req_hdrs if_none_match ≡ some (print_items (i ∷ is) tail)
      → none_match (some (print e)) req_hdrs
        ≡ (if is_junk tail then none else some (not (any (matches_weakly e) (i ∷ is))))
  unfolding none_match none_match_value
  none_match-print_items sent =
      ap (none_match_header (some (print e))) sent
      ∙ ap
          (λ b.
            if b
            then some false
            else none_match_end
                (each (none_match_item (print e)) (length value + 1) true (from value)))
          (print_items-ne-star i is tail)
      ∙ ap none_match_end (
          each-print_items (none_match_item (print e)) (i ∷ is) tail (length value + 1) true items
            ends enough)
      ∙ ap (λ b. if is_junk tail then none else some b) (each_tag-none_match e (i ∷ is) true)

  -- `If-Match` with a list of entity tags, white space only behind its commas: an error if anything but a tag stands behind the last
  -- separator, and otherwise whether some tag matches strongly.
  pub any_match-print_items :
      req_hdrs if_match ≡ some (print_items (i ∷ is) tail)
      → any_match (some (print e)) req_hdrs ≡ (
          if is_junk tail
          then err (codes "Unparseable If-Match header")
          else ok (any (matches_strongly e) (i ∷ is)))
  unfolding any_match any_match_value
  any_match-print_items sent =
      ap (any_match_header (some (print e))) sent
      ∙ ap
          (λ b.
            if b
            then ok true
            else any_match_end
                (each (any_match_item (print e)) (length value + 1) false (from value)))
          (print_items-ne-star i is tail)
      ∙ ap any_match_end (
          each-print_items (any_match_item (print e)) (i ∷ is) tail (length value + 1) false items
            ends enough)
      ∙ ap (λ b. if is_junk tail then err (codes "Unparseable If-Match header") else ok b)
          (each_tag-any_match e (i ∷ is) false)
