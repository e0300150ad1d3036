-- ===== src/Tests/Http.antt =====
use http_serve.Base.{
  ℕ, Bool, true, ◌&&◌, ◌||◌, Option, none, some, [], ◌∷◌, ltb, leb, ◌==◌, if◌then◌else◌, Bytes,
}

-- Concrete functions for what the `http` crate does.
-- `HeaderValue::to_str`: visible ASCII and tabs
abbrev is_visible : ℕ → Bool
is_visible c = (leb 32 c && ltb c 127) || c == 9

all_visible : Bytes → Bool
all_visible [] = true
all_visible (c ∷ s) = is_visible c && all_visible s

unfoldable pub ascii_to_str : Bytes → Option Bytes
unfolding all_visible
ascii_to_str s = if all_visible s then some s else none
