-- ===== src/Fuzz/ShouldGzip.antt =====
-- fuzz/fuzz_targets/should_gzip.rs
use http_serve.Base.{Bool, Option, none, some, Bytes}
use http_serve.Http.{HttpCrates, RequestHeaders, accept_encoding}
use http_serve.Negotiation.{should_gzip}

-- The map with that header only.
abbrev only_accept_encoding : Option Bytes → RequestHeaders
only_accept_encoding value accept_encoding = value
only_accept_encoding value _ = none

-- `from_bytes` is `HeaderValue::from_bytes`. There is nothing to see of the result.
abbrev target_on : HttpCrates → Option Bytes → Option Bool
target_on crates none = none
target_on crates (some value) = some (should_gzip crates (only_accept_encoding (some value)))

unfoldable pub fuzz_should_gzip : HttpCrates → (Bytes → Option Bytes) → Bytes → Option Bool
unfolding should_gzip
fuzz_should_gzip crates from_bytes bytes = target_on crates (from_bytes bytes)
