-- ===== src/Tests/Negotiation.antt =====
-- src/lib.rs
use http_serve.Base.{◌≡◌, refl, none, some, [], ◌∷◌, arith, codes, true, false, bytes_eq}
use Prim.Native.String.{String}
use http_serve.Tests.Http.{ascii_to_str}
use http_serve.Tests.Serving.{crates}
use http_serve.Std.Num.{from_str}
use http_serve.Http.{RequestHeaders}
use http_serve.Negotiation.{parse_qvalue, should_gzip}
use http_serve.Negotiation.Accepts.{should_gzip-join}
use http_serve.Negotiation.Grammar.{Coded, IsCoded, weighted, zero_point, one_point}

test_parse_qvalue :
    (parse_qvalue (codes "1") ≡ some 1000)
    × (parse_qvalue (codes "1.000") ≡ some 1000)
    × (parse_qvalue (codes "1.001") ≡ none)
    × (parse_qvalue (codes "0.") ≡ some 0)
    × (parse_qvalue (codes "0.5") ≡ some 500)
    × (parse_qvalue (codes "0.801") ≡ some 801)
    × (parse_qvalue (codes "0.1234") ≡ none)
    × (parse_qvalue (codes "0.+1") ≡ some 10)
unfolding parse_qvalue from_str
test_parse_qvalue = (refl, refl, refl, refl, refl, refl, refl, refl)

abbrev pub accepting : String → RequestHeaders
accepting s _ = some (codes s)

test_should_gzip :
    (should_gzip crates (λ _. none) ≡ false)
    × (should_gzip crates (accepting "gzip") ≡ true)
    × (should_gzip crates (accepting "gzip;q=0.001") ≡ true)
    × (should_gzip crates (accepting "gzip;q=0") ≡ false)
    × (should_gzip crates (accepting "identity;q=0.5, gzip;q=0.4") ≡ false)
    × (should_gzip crates (accepting "*") ≡ true)
    × (should_gzip crates (accepting "gzip;q=0.5, identity;q=0.5, *;q=0") ≡ true)
unfolding should_gzip ascii_to_str from_str
test_should_gzip = (refl, refl, refl, refl, refl, refl, refl)

-- `identity;q=0.5`
abbrev identity_part : Coded
identity_part = record {
  before = [];
  coding = codes "identity";
  after = [];
  weight = weighted [] (zero_point (codes "5")) [];
}

-- ` gzip ; q=1.00`
abbrev gzip_part : Coded
gzip_part = record {
  before = codes " ";
  coding = codes "gzip";
  after = codes " ";
  weight = weighted (codes " ") (one_point 2) [];
}

identity_part-IsCoded : IsCoded identity_part
identity_part-IsCoded = ground arith

gzip_part-IsCoded : IsCoded gzip_part
gzip_part-IsCoded = ground arith

should_gzip-join_example : should_gzip crates (accepting "identity;q=0.5, gzip ; q=1.00") ≡ true
unfolding ascii_to_str bytes_eq
should_gzip-join_example =
    should_gzip-join crates (accepting "identity;q=0.5, gzip ; q=1.00")
      (codes "identity;q=0.5, gzip ; q=1.00") identity_part (gzip_part ∷ []) refl refl
      (identity_part-IsCoded, (gzip_part-IsCoded, tt))
