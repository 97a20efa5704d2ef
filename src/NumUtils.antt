-- ===== src/NumUtils.antt =====
-- lib/num-utils/src/lib.rs: alignment, rounding division and binary logarithms of `usize`.
-- An alignment or a divisor of 0, at which the source panics, is outside the model.
pub mod Rounding
pub mod Logarithms
use corrosios.Base.{
  ℕ, zero, suc, ◌+◌, ◌-◌, ◌*◌, ◌/◌, ◌%◌, ◌^◌, arith, leb, ◌==◌, if◌then◌else◌, wadd, wsub,
}

unfoldable pub align_down : ℕ → ℕ → ℕ
align_down val align = val / align * align

unfoldable pub align_up : ℕ → ℕ → ℕ
unfolding align_down
align_up val align = align_down (wsub (wadd val align) 1) align

unfoldable pub div_ceil : ℕ → ℕ → ℕ
div_ceil val divisor = wsub (wadd val divisor) 1 / divisor

-- The number of binary digits of a value below `2 ^ width`.
unfoldable pub bit_length : ℕ → ℕ → ℕ
bit_length zero val = 0
bit_length (suc width) val =
    let rest = bit_length width (val / 2) in if val == 0 then 0 else rest + 1

-- `usize::leading_zeros`
unfoldable pub leading_zeros : ℕ → ℕ
leading_zeros val = 64 - bit_length 64 val

-- The subtractions are those of `u32`.
unfoldable pub log2 : ℕ → ℕ
log2 val = ((64 + 2 ^ 32 - leading_zeros val) % 2 ^ 32 + 2 ^ 32 - 1) % 2 ^ 32

unfoldable pub log2_ceil : ℕ → ℕ
log2_ceil val = if leb val 1 then 0 else wadd (log2 (wsub val 1)) 1

-- The number of trailing zero digits among the lowest `width`.
unfoldable pub zeros_below : ℕ → ℕ → ℕ
zeros_below zero val = 0
zeros_below (suc width) val =
    let rest = zeros_below width (val / 2) in if val % 2 == 0 then rest + 1 else 0

-- `usize::trailing_zeros`: 64 at 0.
unfoldable pub trailing_zeros : ℕ → ℕ
trailing_zeros val = zeros_below 64 val
