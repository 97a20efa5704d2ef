-- ===== src/NumUtils/Rounding.antt =====
-- `align_down`, `align_up` and `div_ceil` round to the nearest multiple on their side.
use native.Mathlib.Nat.{
  div-mul-le_self, lt-div-mul-add, mul-mod_left, le-div_iff_mul-le, mul-le-mul_right,
  div-lt_iff_lt-mul, add-mul,
}
use corrosios.Base.{ℕ, ◌+◌, ◌-◌, ◌*◌, ◌/◌, ◌%◌, ◌≤◌, ◌<◌, ◌≡◌, arith, usize_mod, wsub}
use corrosios.NumUtils.{align_down, align_up, div_ceil}

-- Rounding down gives the greatest multiple that is not above the value.
align_down_bounds :
    (val align : ℕ)
    → 0 < align
    → (align_down val align % align ≡ 0)
      × (align_down val align ≤ val)
      × (val < align_down val align + align)
unfolding align_down
align_down_bounds val align h =
    (mul-mod_left (val / align) align, div-mul-le_self val align, lt-div-mul-add h)

align_down-greatest :
    (val align q : ℕ) → 0 < align → q * align ≤ val → q * align ≤ align_down val align
unfolding align_down
align_down-greatest val align q h le = mul-le-mul_right align ((le-div_iff_mul-le h).1 le)

wrap_exact : (s : ℕ) → 0 < s → s ≤ usize_mod → wsub (s % usize_mod) 1 ≡ s - 1
wrap_exact s p h = omega arith

-- A multiple of `align` that lies within `align` of the value is not below its rounding.
align_down-le_multiple :
    (val align q : ℕ) → 0 < align → val < q * align + align → align_down val align ≤ q * align
unfolding align_down
align_down-le_multiple val align q h lt =
    mul-le-mul_right align
      (lt_add_one_le ((div-lt_iff_lt-mul h).1 (omega (arith, add-mul q 1 align))))
  where
    lt_add_one_le : {a b : ℕ} → a < b + 1 → a ≤ b
    lt_add_one_le p = omega arith

align_up-eq-align_down :
    (val align : ℕ)
    → 0 < align
    → val + align ≤ usize_mod
    → align_up val align ≡ align_down (val + align - 1) align
unfolding align_up
align_up-eq-align_down val align h fits = rw (wrap_exact (val + align) (omega arith) fits)

-- Where `val + align` does not exceed `2 ^ 64`, rounding up gives the least multiple that is not
-- below the value: it is a multiple, it is at least `val`, it is less than `val + align`, and every
-- multiple that is at least `val` is at least as large.
pub align_up-least :
    (val align : ℕ)
    → 0 < align
    → val + align ≤ usize_mod
    → (align_up val align % align ≡ 0)
      × (val ≤ align_up val align)
      × (align_up val align < val + align)
      × ((q : ℕ) → val ≤ q * align → align_up val align ≤ q * align)
align_up-least val align h fits =
    let (whole, below, near) = align_down_bounds (val + align - 1) align h in
    rw (align_up-eq-align_down val align h fits) (
      whole,
      omega arith,
      omega arith,
      λ q le. align_down-le_multiple (val + align - 1) align q h (omega arith),
    )

-- The quotient rounded up is the least number of pieces that cover the value.
pub div_ceil_covers :
    (val divisor : ℕ)
    → 0 < divisor
    → val + divisor ≤ usize_mod
    → (val ≤ div_ceil val divisor * divisor) × (div_ceil val divisor * divisor < val + divisor)
unfolding div_ceil
div_ceil_covers val divisor h fits =
    let e = wrap_exact (val + divisor) (omega arith) fits in
    rw e (
      omega (
        arith,
        div-mul-le_self (val + divisor - 1) divisor,
        lt-div-mul-add {a = val + divisor - 1} h,
      ))
