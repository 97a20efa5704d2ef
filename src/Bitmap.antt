-- ===== src/Bitmap.antt =====
-- lib/bitmap/src/lib.rs: a bitmap over a slice of bytes. A byte is a number below 256, and an index
-- beyond the slice panics (`none`).
pub mod Laws
pub mod Search
pub mod Taken
use Prim.Native.Nat.{bit_and, bit_or, bit_xor}
use corrosios.Base.{
  ℕ, zero, suc, ◌+◌, ◌-◌, ◌*◌, ◌/◌, ◌%◌, ◌^◌, Option, none, some, Bool, true, false, List, ◌==◌,
  if◌then◌else◌, not, get_elem?, set, ◌>>=◌,
}
use corrosios.NumUtils.{div_ceil}

unfoldable pub bytes_required : ℕ → ℕ
bytes_required size = div_ceil size 8

pub record Bitmap : Type 0 where
  pub bytes : List ℕ

-- The byte and the bit within it.
abbrev split_index : ℕ → ℕ × ℕ
split_index index = (index / 8, index % 8)

-- `((byte >> bit) & 1) != 0`
abbrev pub test_bit : ℕ → ℕ → Bool
test_bit byte bit = not (bit_and (byte / 2 ^ bit) 1 == 0)

unfoldable pub get : Bitmap → ℕ → Option Bool
get b index = do
  let (byte, bit) = split_index index
  v ← get_elem? b.bytes byte
  some (test_bit v bit)

-- `self.bytes_mut()[byte] = f(self.bytes()[byte])`
abbrev pub modify : (ℕ → ℕ) → Bitmap → ℕ → Option Bitmap
modify f b byte = do v ← get_elem? b.bytes byte; some (record { bytes = set b.bytes byte (f v) })

-- `|= 1 << bit`
abbrev pub or_bit : ℕ → ℕ → ℕ
or_bit bit v = bit_or v (2 ^ bit)

-- `&= !(1u8 << bit)`
abbrev pub clear_bit : ℕ → ℕ → ℕ
clear_bit bit v = bit_and v (255 - 2 ^ bit)

-- `^= 1 << bit`
abbrev pub xor_bit : ℕ → ℕ → ℕ
xor_bit bit v = bit_xor v (2 ^ bit)

unfoldable pub set_bit : Bitmap → ℕ → Option Bitmap
set_bit b index = let (byte, bit) = split_index index in modify (or_bit bit) b byte

unfoldable pub unset : Bitmap → ℕ → Option Bitmap
unset b index = let (byte, bit) = split_index index in modify (clear_bit bit) b byte

unfoldable pub toggle : Bitmap → ℕ → Option Bitmap
toggle b index = let (byte, bit) = split_index index in modify (xor_bit bit) b byte

-- `(index..index + rounds).find(|i| !self.get(i))`
unfoldable pub find_zero : ℕ → Bitmap → ℕ → Option (Option ℕ)
find_zero zero b index = some none
find_zero (suc rounds) b index =
    let rest = find_zero rounds b (index + 1) in
    get b index >>= λ v. if v then rest else some (some index)

unfoldable pub first_zero : Bitmap → ℕ → Option (Option ℕ)
first_zero b limit = find_zero limit b 0
