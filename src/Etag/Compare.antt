-- ===== src/Etag/Compare.antt =====
-- The two comparisons on entity tags as RFC 7232, section 2.3.2, writes them.
use http_serve.Base.{
  ◌≡◌, refl, ap, Bool, true, false, not, ◌&&◌, [], ◌∷◌, ◌++◌, arith, ◌==◌, Bytes, bytes_eq,
}
use http_serve.Etag.{weak_prefix, quote, weak_eq, strong_eq}

-- An entity tag: `"…"` or `W/"…"`.
pub record EntityTag : Type 0 where
  pub weak : Bool
  pub opaque : Bytes

abbrev pub quoted : Bytes → Bytes
quoted s = quote ∷ (s ++ quote ∷ [])

abbrev pub print_tag : Bool → Bytes → Bytes
print_tag true s = weak_prefix ++ quoted s
print_tag false s = quoted s

abbrev pub print : EntityTag → Bytes
print t = print_tag t.weak t.opaque

bytes_eq-append : (a b : Bytes) → bytes_eq (a ++ quote ∷ []) (b ++ quote ∷ []) ≡ bytes_eq a b
unfolding bytes_eq
bytes_eq-append [] [] = refl
bytes_eq-append [] (y ∷ []) = ground arith
bytes_eq-append [] (y ∷ z ∷ b) = ground arith
bytes_eq-append (x ∷ []) [] = ground arith
bytes_eq-append (x ∷ z ∷ a) [] = ground arith
bytes_eq-append (x ∷ a) (y ∷ b) = ap (◌&&◌ (x == y)) (bytes_eq-append a b)

weak_eq-print_tag :
    (v w : Bool) (a b : Bytes) → weak_eq (print_tag v a) (print_tag w b) ≡ bytes_eq a b
unfolding weak_eq bytes_eq
weak_eq-print_tag true true a b = bytes_eq-append a b
weak_eq-print_tag true false a b = bytes_eq-append a b
weak_eq-print_tag false true a b = bytes_eq-append a b
weak_eq-print_tag false false a b = bytes_eq-append a b

-- Weak comparison of two entity tags: the opaque tags match, whether weak or not.
pub weak_eq-print : (t u : EntityTag) → weak_eq (print t) (print u) ≡ bytes_eq t.opaque u.opaque
weak_eq-print t u = weak_eq-print_tag t.weak u.weak t.opaque u.opaque

strong_eq-print_tag :
    (v w : Bool) (a b : Bytes)
    → strong_eq (print_tag v a) (print_tag w b) ≡ (not v && (not w && bytes_eq a b))
unfolding strong_eq bytes_eq
strong_eq-print_tag true true a b = ground arith
strong_eq-print_tag true false a b = refl
strong_eq-print_tag false true a b = refl
strong_eq-print_tag false false a b = ground (arith, bytes_eq-append a b)

-- Strong comparison of two entity tags: neither is weak, and the opaque tags match.
pub strong_eq-print :
    (t u : EntityTag)
    → strong_eq (print t) (print u) ≡ (not t.weak && (not u.weak && bytes_eq t.opaque u.opaque))
strong_eq-print t u = strong_eq-print_tag t.weak u.weak t.opaque u.opaque
