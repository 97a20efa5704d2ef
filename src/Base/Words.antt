-- ===== src/Base/Words.antt =====
-- Bitwise operations on words, digit by digit.
use Prim.Native.Nat.{ℕ, zero, suc, ◌+◌, ◌*◌, ◌/◌, ◌%◌, ◌^◌, ◌<◌}
use mathlib.Core.Path.{◌≡◌, refl}
use native.Mathlib.Omega.{arith}
use native.Mathlib.Nat.{mul_assoc, pow-suc}
use native.Mathlib.Decide.{ℕ_discrete}
use corrosios.Base.Tests.{◌==◌, if◌then◌else◌}

abbrev pub or_digit : ℕ → ℕ → ℕ
or_digit a b = if a == 0 then b else 1

abbrev pub clear_digit : ℕ → ℕ → ℕ
clear_digit a b = if b == 0 then a else 0

-- The digits of the two words, from the lowest on, put together by `f`.
unfoldable pub digitwise : (ℕ → ℕ → ℕ) → ℕ → ℕ → ℕ → ℕ
digitwise f zero a b = 0
digitwise f (suc width) a b = digitwise f width (a / 2) (b / 2) * 2 + f (a % 2) (b % 2)

-- `a | b` and `a & !b` on `u64`.
abbrev pub or64 : ℕ → ℕ → ℕ
or64 a b = digitwise or_digit 64 a b

abbrev pub clear64 : ℕ → ℕ → ℕ
clear64 a b = digitwise clear_digit 64 a b

times_double : (m k : ℕ) → m * 2 ^ suc k ≡ m * 2 ^ k * 2
times_double m k =
    let e : 2 ^ suc k ≡ 2 ^ k * 2 = pow-suc 2 k in rw e (omega (arith, mul_assoc m (2 ^ k) 2))

-- The low `k` digits and those above them are put together separately.
pub digitwise_split :
    (f : ℕ → ℕ → ℕ) (k w al ah bl bh : ℕ)
    → al < 2 ^ k
    → bl < 2 ^ k
    → digitwise f (k + w) (ah * 2 ^ k + al) (bh * 2 ^ k + bl)
      ≡ digitwise f w ah bh * 2 ^ k + digitwise f k al bl
unfolding digitwise
digitwise_split f zero w al ah bl bh p q =
    let x : ah * 2 ^ 0 + al ≡ ah = omega arith in
    let y : bh * 2 ^ 0 + bl ≡ bh = omega arith in
    let z : 0 + w ≡ w = omega arith in rw (x, y, z) (omega arith)
digitwise_split f (suc k) w al ah bl bh p q =
    let n : suc k + w ≡ suc (k + w) = omega arith in
    let s : 2 ^ suc k ≡ 2 ^ k * 2 = pow-suc 2 k in
    let x : (ah * 2 ^ suc k + al) / 2 ≡ ah * 2 ^ k + al / 2 = omega (arith, times_double ah k) in
    let y : (bh * 2 ^ suc k + bl) / 2 ≡ bh * 2 ^ k + bl / 2 = omega (arith, times_double bh k) in
    let u : (ah * 2 ^ suc k + al) % 2 ≡ al % 2 = omega (arith, times_double ah k) in
    let v : (bh * 2 ^ suc k + bl) % 2 ≡ bl % 2 = omega (arith, times_double bh k) in
    rw (n, x, y, u, v)
      (omega (
        arith,
        digitwise_split f k w (al / 2) (ah) (bl / 2) bh (omega arith) (omega arith),
        times_double (digitwise f w ah bh) k,
      ))

-- A word is unchanged by zero.
pub digitwise-zero_right :
    (f : ℕ → ℕ → ℕ) (w a : ℕ) → f 0 0 ≡ 0 → f 1 0 ≡ 1 → a < 2 ^ w → digitwise f w a 0 ≡ a
unfolding digitwise
digitwise-zero_right f zero a p q h = omega arith
digitwise-zero_right f (suc w) a p q h =
    let s : 2 ^ suc w ≡ 2 ^ w * 2 = pow-suc 2 w in
    let z : 0 / 2 ≡ 0 = refl in
    elim (ℕ_discrete (a % 2) 0) [
      | yes even ↦ rw (even) (omega (arith, p, digitwise-zero_right f w (a / 2) p q (omega arith)))
      | no odd ↦
          let one : a % 2 ≡ 1 = omega arith in
          rw (one) (omega (arith, q, digitwise-zero_right f w (a / 2) p q (omega arith)))
    ]

pub digitwise-zero_left :
    (f : ℕ → ℕ → ℕ) (w b : ℕ) → f 0 0 ≡ 0 → f 0 1 ≡ 1 → b < 2 ^ w → digitwise f w 0 b ≡ b
unfolding digitwise
digitwise-zero_left f zero b p q h = omega arith
digitwise-zero_left f (suc w) b p q h =
    let s : 2 ^ suc w ≡ 2 ^ w * 2 = pow-suc 2 w in
    elim (ℕ_discrete (b % 2) 0) [
      | yes even ↦ rw even (omega (arith, p, digitwise-zero_left f w (b / 2) p q (omega arith)))
      | no odd ↦
          let one : b % 2 ≡ 1 = omega arith in
          rw one (omega (arith, q, digitwise-zero_left f w (b / 2) p q (omega arith)))
    ]
