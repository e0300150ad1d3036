-- ===== src/Tests/Fuzz.antt =====
-- fuzz/fuzz_targets
use http_serve.Base.{
  ◌≡◌, refl, ◌∙◌, ap, append_assoc, none, some, [], ◌∷◌, ◌++◌, codes, ℕ, ◌≤◌, ◌*◌, ◌^◌,
}
use http_serve.Http.{HttpCrates}
use http_serve.Tests.Serving.{crates}
use http_serve.Fuzz.ServeNonempty.{Req, get, finished, request, fuzz_target}
use http_serve.Fuzz.Ends.{InsertKeeps, proper_end, fuzz_target-ends}

-- With the date that the target reads.
abbrev fuzz_crates : HttpCrates
fuzz_crates = record crates { parse_http_date = λ s. some (784111777 * 10 ^ 9) }

fuzz_crates-InsertKeeps : InsertKeeps fuzz_crates
fuzz_crates-InsertKeeps name k value v h other (before, after, e) = (
  before,
  after ++ (name, value) ∷ [],
  ap (λ x. x ++ (name, value) ∷ []) e ∙ append_assoc before _ _,
)

abbrev two_parts : Req
two_parts = record {
  verb = get;
  if_unmodified_since = none;
  if_modified_since = none;
  range = some (codes "bytes=0-9,-0");
  if_range = some (codes "\"foo\"");
}

test_fuzz_target : fuzz_target (λ n. n) (λ n. n) 10 fuzz_crates some 5 two_parts ≡ finished
unfolding fuzz_target http_serve.Etag.any_match http_serve.Etag.none_match
    http_serve.Tests.Http.ascii_to_str http_serve.Std.Num.from_str http_serve.Prepare.part_header
    http_serve.Std.Num.fmt_decimal
test_fuzz_target = refl

fuzz_target-ends_example :
    (enough : ℕ) × ((n : ℕ)
      → enough ≤ n
      → fuzz_target (λ k. k) (λ k. k) n fuzz_crates some 5 two_parts
        ≡ proper_end (λ k. k) (λ k. k) (request some two_parts))
fuzz_target-ends_example =
    fuzz_target-ends (λ k. k) (λ k. k) fuzz_crates fuzz_crates-InsertKeeps (784111777 * 10 ^ 9) refl
      some 5 two_parts
