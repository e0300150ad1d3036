-- ===== src/Tests/Etag.antt =====
-- src/etag.rs
use http_serve.Base.{
  ◌≡◌, refl, none, some, [], ◌∷◌, arith, codes, Bool, true, false, bytes_eq, ok, err,
}
use Prim.Native.String.{String}
use http_serve.Http.{RequestHeaders}
use http_serve.Etag.{weak_eq, strong_eq, none_match, any_match}
use http_serve.Etag.Compare.{EntityTag}
use http_serve.Etag.Items.{IsItem, TagItem}
use http_serve.Etag.Headers.{none_match-print_items, any_match-print_items}

abbrev tag : Bool → String → EntityTag
tag weak s = record { weak = weak; opaque = codes s }

-- the one header, whatever name is asked for
abbrev only : String → RequestHeaders
only s _ = some (codes s)

test_weak_eq :
    (weak_eq (codes "\"foo\"") (codes "\"foo\"") ≡ true)
    × (weak_eq (codes "W/\"foo\"") (codes "\"foo\"") ≡ true)
    × (weak_eq (codes "W/\"foo\"") (codes "\"bar\"") ≡ false)
    × (strong_eq (codes "\"foo\"") (codes "\"foo\"") ≡ true)
    × (strong_eq (codes "W/\"foo\"") (codes "W/\"foo\"") ≡ false)
unfolding weak_eq strong_eq bytes_eq
test_weak_eq = (refl, refl, refl, refl, refl)

test_none_match :
    (none_match (some (codes "\"foo\"")) (λ _. none) ≡ none)
    × (none_match (some (codes "\"foo\"")) (only "*") ≡ some false)
    × (none_match (some (codes "\"foo\"")) (only "W/\"foo\"") ≡ some false)
    × (none_match (some (codes "\"quux\"")) (only "\"foo\", \"bar\"") ≡ some true)
    × (none_match (some (codes "\"quux\"")) (only "\"quux") ≡ none)
unfolding none_match
test_none_match = (refl, refl, refl, refl, refl)

test_any_match :
    (any_match (some (codes "\"foo\"")) (only "W/\"foo\"") ≡ ok false)
    × (any_match (some (codes "\"foo\"")) (only "\"bar\" ,\"foo\"")
        ≡ err (codes "Unparseable If-Match header"))
    × (any_match none (only "\"foo\"") ≡ ok false)
unfolding any_match
test_any_match = (refl, refl, refl)

abbrev pub first : TagItem
first = record { tag = tag false "foo"; separator = some (codes " ") }

abbrev pub second : TagItem
second = record { tag = tag true "bar"; separator = none }

pub first-IsItem : IsItem first
first-IsItem = ((omega arith, (omega arith, (omega arith, tt))), (refl, tt))

pub second-IsItem : IsItem second
second-IsItem = ((omega arith, (omega arith, (omega arith, tt))), tt)

none_match-print_items_example :
    none_match (some (codes "\"bar\"")) (only "\"foo\", W/\"bar\"") ≡ some false
unfolding bytes_eq
none_match-print_items_example =
    none_match-print_items (tag false "bar") (only "\"foo\", W/\"bar\"") first (second ∷ []) []
      (first-IsItem, (second-IsItem, tt)) (tt, (λ e. absurd (e refl))) refl

any_match-print_items_example :
    any_match (some (codes "\"bar\"")) (only "\"foo\", W/\"bar\"") ≡ ok false
unfolding bytes_eq
any_match-print_items_example =
    any_match-print_items (tag false "bar") (only "\"foo\", W/\"bar\"") first (second ∷ []) []
      (first-IsItem, (second-IsItem, tt)) (tt, (λ e. absurd (e refl))) refl
