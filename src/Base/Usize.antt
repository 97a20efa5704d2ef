-- ===== src/Base/Usize.antt =====
-- `usize` and `u64` arithmetic as a release build performs it: every result is taken modulo 2 ^ 64.
use Prim.Native.Nat.{ℕ, ◌+◌, ◌-◌, ◌*◌, ◌%◌, ◌^◌, ◌<◌, ◌≤◌}
use mathlib.Core.Path.{◌≡◌}
use mathlib.Core.Option.{Option, none, some}
use native.Mathlib.Omega.{arith}
use corrosios.Base.Tests.{ltb, if◌then◌else◌}

abbrev pub usize_mod : ℕ
usize_mod = 2 ^ 64

abbrev pub wadd : ℕ → ℕ → ℕ
wadd a b = (a + b) % usize_mod

abbrev pub wsub : ℕ → ℕ → ℕ
wsub a b = (a + usize_mod - b) % usize_mod

abbrev pub wmul : ℕ → ℕ → ℕ
wmul a b = a * b % usize_mod

-- `a << k`, for k below 64.
abbrev pub wshl : ℕ → ℕ → ℕ
wshl a k = a * 2 ^ k % usize_mod

abbrev pub checked_add : ℕ → ℕ → Option ℕ
checked_add a b = if ltb (a + b) usize_mod then some (a + b) else none

pub wadd_exact : (a b : ℕ) → a + b < usize_mod → wadd a b ≡ a + b
wadd_exact a b h = omega arith

pub wsub_exact : (a b : ℕ) → b ≤ a → a < usize_mod → wsub a b ≡ a - b
wsub_exact a b h k = omega arith
