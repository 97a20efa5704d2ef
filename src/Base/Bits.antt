-- ===== src/Base/Bits.antt =====
-- Powers of two.
use Prim.Native.Nat.{ℕ, ◌+◌, ◌^◌, ◌<◌, ◌≤◌}
use mathlib.Core.Path.{◌≡◌}
use native.Mathlib.Omega.{arith}
use native.Mathlib.Nat.{one-le-pow, pow-le-pow_right}
use native.Mathlib.Numerals.{towards_suc}

pub pow-pos : (k : ℕ) → 0 < 2 ^ k
pow-pos k = one-le-pow k 2 (omega arith)

pub pow-double : (k : ℕ) → 2 ^ (k + 1) ≡ 2 ^ k + 2 ^ k
pow-double k = simp towards_suc (omega arith)

pub pow_mono : (i j : ℕ) → i ≤ j → 2 ^ i ≤ 2 ^ j
pow_mono i j h = pow-le-pow_right (omega arith) h
