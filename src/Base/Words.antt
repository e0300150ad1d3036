-- ===== src/Base/Words.antt =====
-- Machine words. A `u64` is a number below 2^64; `usize` is no wider.
use Prim.Native.Nat.{ℕ, ◌+◌, ◌-◌, ◌%◌, ◌^◌, ◌≤◌}
use mathlib.Core.Path.{◌≡◌}
use native.Mathlib.Omega.{arith}
use mathlib.Core.Option.{Option, none, some}
use http_serve.Base.Tests.{ltb, if◌then◌else◌}

abbrev pub u64_max : ℕ
u64_max = 2 ^ 64 - 1

abbrev pub u16_max : ℕ
u16_max = 2 ^ 16 - 1

-- `a + b`, which wraps in a release build (a debug build panics where it wraps).
abbrev pub wrapping_add : ℕ → ℕ → ℕ
wrapping_add a b = (a + b) % 2 ^ 64

-- `a - b`, likewise.
abbrev pub wrapping_sub : ℕ → ℕ → ℕ
wrapping_sub a b = (a + 2 ^ 64 - b) % 2 ^ 64

abbrev pub checked_add : ℕ → ℕ → Option ℕ
checked_add a b = if ltb u64_max (a + b) then none else some (a + b)

abbrev pub checked_sub : ℕ → ℕ → Option ℕ
checked_sub a b = if ltb a b then none else some (a - b)

pub wrapping_sub_lem : (a b : ℕ) → b ≤ a → a ≤ u64_max → wrapping_sub a b ≡ a - b
wrapping_sub_lem a b h fits = omega arith
