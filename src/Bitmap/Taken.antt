-- ===== src/Bitmap/Taken.antt =====
-- lib/bitmap/src/lib.rs: how many of a bitmap's lowest bits are set.
use corrosios.Base.{
  ℕ, zero, suc, ◌+◌, ◌<◌, ◌≤◌, ◌≡◌, refl, arith, Bool, true, false, ◌==◌, to_nat, if◌then◌else◌,
  Bool-cases, inl, inr, replicate,
}
use corrosios.Bitmap.{Bitmap}
use corrosios.Bitmap.Laws.{bit, bit-zeros}

abbrev pub taken : Bitmap → ℕ → ℕ
taken b zero = 0
taken b (suc n) = to_nat (bit b n) + taken b n

pub taken-full : (b : Bitmap) (n : ℕ) → ((j : ℕ) → j < n → bit b j ≡ true) → taken b n ≡ n
taken-full b zero h = refl
taken-full b (suc n) h =
    rw (h n (omega arith)) (omega (arith, taken-full b n (λ j lt. h j (omega arith))))

pub taken-le : (b : Bitmap) (n : ℕ) → taken b n ≤ n
taken-le b zero = omega arith
taken-le b (suc n) = elim (Bool-cases (bit b n)) [
  | inl set ↦ rw set (omega (arith, taken-le b n))
  | inr clear ↦ rw clear (omega (arith, taken-le b n))
]

pub taken-zeros : (k n : ℕ) → taken (record { bytes = replicate k 0 }) n ≡ 0
taken-zeros k zero = refl
taken-zeros k (suc n) = rw (bit-zeros k n) (omega (arith, taken-zeros k n))

-- The bit at an index is written.
abbrev pub IsWritten : Bitmap → Bitmap → ℕ → Bool → Type 0
IsWritten b b' i v = (j : ℕ) → bit b' j ≡ (if i == j then v else bit b j)

taken-same :
    (b b' : Bitmap) (i n : ℕ) (v : Bool) → IsWritten b b' i v → n ≤ i → taken b' n ≡ taken b n
taken-same b b' i zero v w le = refl
taken-same b b' i (suc n) v w le =
    let other : (i == n) ≡ false = ground arith in
    let same : bit b' n ≡ bit b n = rw other at (w n) in
    rw same (omega (arith, taken-same b b' i n v w (omega arith)))

-- A write below the limit changes the number by what it changes the bit.
pub taken-write :
    (b b' : Bitmap) (i n : ℕ) (v : Bool)
    → IsWritten b b' i v
    → i < n
    → taken b' n + to_nat (bit b i) ≡ taken b n + to_nat v
taken-write b b' i zero v w lt = absurd (omega arith)
taken-write b b' i (suc n) v w lt = elim (Bool-cases (i == n)) [
  | inl here ↦
      let e : i ≡ n = ground arith in
      let after : bit b' n ≡ v = rw here at (w n) in
      rw (after, e) (omega (arith, taken-same b b' i n v w (omega (arith, e))))
  | inr other ↦
      let same : bit b' n ≡ bit b n = rw other at (w n) in
      rw same (omega (arith, taken-write b b' i n v w (ground arith)))
]
