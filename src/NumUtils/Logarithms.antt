-- ===== src/NumUtils/Logarithms.antt =====
-- `log2` and `log2_ceil` are the rounded binary logarithms.
use corrosios.Base.{
  ℕ, zero, suc, ◌+◌, ◌-◌, ◌*◌, ◌/◌, ◌^◌, ◌≤◌, ◌<◌, ◌≡◌, refl, arith, usize_mod, inl, inr, ◌==◌,
  Bool-cases, leb, ◌%◌, ap, subst, sym, dec_lt, wadd, wsub,
}
use corrosios.Base.Bits.{pow-double, pow_mono}
use native.Mathlib.Nat.{pow-suc, div-add-mod', mul-mod_left}
use corrosios.NumUtils.{bit_length, leading_zeros, log2, log2_ceil, zeros_below, trailing_zeros}

bit_length-le : (w v : ℕ) → bit_length w v ≤ w
unfolding bit_length
bit_length-le zero v = omega arith
bit_length-le (suc w) v = ground (arith, bit_length-le w (v / 2))

bit_length_zero : (w : ℕ) → bit_length w 0 ≡ 0
unfolding bit_length
bit_length_zero zero = refl
bit_length_zero (suc w) = refl

half_below : (v w : ℕ) → v < 2 ^ suc w → v / 2 < 2 ^ w
half_below v w h = omega (arith, pow-suc 2 w)

-- A positive value has one digit more than the exponent of its leading power of two.
bit_length_bounds :
    (w v : ℕ)
    → v < 2 ^ w
    → 0 < v
    → (n : ℕ) × (bit_length w v ≡ n + 1) × (2 ^ n ≤ v) × (v < 2 ^ (n + 1))
unfolding bit_length
bit_length_bounds zero v h p = absurd (omega arith)
bit_length_bounds (suc w) v h p = elim (Bool-cases (v / 2 == 0)) [
  | inl small ↦
      let e : v ≡ 1 = ground arith in
      (0, rw e (ground (arith, bit_length_zero w)), omega arith, omega arith)
  | inr large ↦
      let (n, e, lo, hi) = bit_length_bounds w (v / 2) (half_below v w h) (ground arith) in
      (n + 1, ground arith, omega (arith, pow-double n), omega (arith, pow-double (n + 1)))
]

log2_of_length : (val n : ℕ) → bit_length 64 val ≡ n + 1 → log2 val ≡ n
unfolding log2 leading_zeros
log2_of_length val n e = omega (arith, bit_length-le 64 val)

-- For 0 < val < 2 ^ 64, `log2 val` is the exponent of the greatest power of two that is at most
-- `val`, and it is below 64.
pub log2_bounds :
    (val : ℕ)
    → 0 < val
    → val < usize_mod
    → (log2 val < 64) × (2 ^ log2 val ≤ val) × (val < 2 ^ (log2 val + 1))
log2_bounds val p h =
    let (n, e, lo, hi) = bit_length_bounds 64 val h p in
    let e' : log2 val ≡ n = log2_of_length val n e in
    rw e' (omega (arith, bit_length-le 64 val), lo, hi)

-- A smaller power of two has a smaller exponent.
exponent_lt : (n k : ℕ) → 2 ^ n < 2 ^ k → n < k
exponent_lt n k h = elim (dec_lt n k) [
  | yes lt ↦ lt
  | no ge ↦ absurd (omega (arith, pow_mono k n (omega arith)))
]

ceil_of_pred :
    (val : ℕ)
    → 1 < val
    → val < usize_mod
    → (n : ℕ) × (wadd (log2 (wsub val 1)) 1 ≡ n + 1) × (2 ^ n < val) × (val ≤ 2 ^ (n + 1))
ceil_of_pred val p h =
    let pred : wsub val 1 ≡ val - 1 = omega arith in
    let (small, lo, hi) = log2_bounds (val - 1) (omega arith) (omega arith) in
    (log2 (val - 1), rw pred (omega arith), omega arith, omega arith)

-- For 0 < val < 2 ^ 64, `2 ^ log2_ceil val` is the least power of two that is at least `val`.
log2_ceil_least :
    (val : ℕ)
    → 0 < val
    → val < usize_mod
    → (val ≤ 2 ^ log2_ceil val) × ((k : ℕ) → val ≤ 2 ^ k → log2_ceil val ≤ k)
unfolding log2_ceil
log2_ceil_least val p h = elim (Bool-cases (leb val 1)) [
  | inl one ↦ rw one (ground arith, λ k le. omega arith)
  | inr more ↦
      let (n, e, lo, hi) = ceil_of_pred val (ground arith) h in
      rw (more, e) (hi, λ k le. omega (arith, exponent_lt n k (omega arith)))
]

-- 2 to the number of trailing zeros divides the value.
zeros_below_divides : (w v : ℕ) → v % 2 ^ zeros_below w v ≡ 0
unfolding zeros_below
zeros_below_divides zero v = omega arith
zeros_below_divides (suc w) v = elim (Bool-cases (v % 2 == 0)) [
  | inl even ↦
      rw even (twice v (zeros_below w (v / 2)) (ground arith) (zeros_below_divides w (v / 2)))
  | inr odd ↦ rw odd (omega arith)
]
  where
    twice : (v n : ℕ) → v % 2 ≡ 0 → v / 2 % 2 ^ n ≡ 0 → v % 2 ^ (n + 1) ≡ 0
    twice v n e h =
        let q : v ≡ v / 2 / 2 ^ n * 2 ^ (n + 1) =
          omega (
            arith,
            div-add-mod' (v / 2) (2 ^ n),
            ap (λ (t : ℕ). v / 2 / 2 ^ n * t) (pow-double n),
          ) in
        subst (λ t. t % 2 ^ (n + 1) ≡ 0) (sym q) (mul-mod_left (v / 2 / 2 ^ n) (2 ^ (n + 1)))

pub trailing_zeros_divides : (v : ℕ) → v % 2 ^ trailing_zeros v ≡ 0
unfolding trailing_zeros
trailing_zeros_divides v = zeros_below_divides 64 v
