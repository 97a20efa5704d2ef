-- ===== src/Tests/Bits.antt =====
-- lib/bitmap/src/lib.rs and lib/num-utils/src/lib.rs: the theorems at a bitmap of two bytes and at
-- small numbers.
use corrosios.Base.{ℕ, ◌≡◌, refl, arith, Option, some, [], ◌∷◌}
use corrosios.Bitmap.{Bitmap, first_zero, find_zero, get}
use corrosios.Bitmap.Laws.{IsBytes}
use corrosios.Bitmap.Search.{IsFirstZero, first_zero-IsFirstZero}

-- The ten lowest bits are set.
abbrev ten : Bitmap
ten = record { bytes = 255 ∷ 3 ∷ [] }

ten-IsBytes : IsBytes ten
ten-IsBytes = (omega arith, (omega arith, tt))

first_zero-IsFirstZero_example :
    (r : Option ℕ) × (first_zero ten 16 ≡ some r) × IsFirstZero ten 0 16 r
first_zero-IsFirstZero_example = first_zero-IsFirstZero ten 16 (omega arith)

ten-first_zero : first_zero ten 16 ≡ some (some 10)
unfolding first_zero find_zero get
ten-first_zero = refl
