-- ===== src/Bitmap/Search.antt =====
-- lib/bitmap/src/lib.rs: `first_zero` finds the least index whose bit is clear.
use corrosios.Base.{
  ℕ, zero, suc, ◌+◌, ◌≤◌, ◌<◌, ◌≡◌, refl, Option, none, some, true, false, ◌>>=◌, arith, ℕ_discrete,
  Bool-cases, inl, inr,
}
use corrosios.Bitmap.{Bitmap, find_zero, first_zero}
use corrosios.Bitmap.Laws.{size, bit, get-eq-bit}

-- What a search for the first zero from `index` over `rounds` bits may answer.
abbrev pub IsFirstZero : Bitmap → ℕ → ℕ → Option ℕ → Type 0
IsFirstZero b index rounds none = (j : ℕ) → index ≤ j → j < index + rounds → bit b j ≡ true
IsFirstZero b index rounds (some i) =
    (index ≤ i)
    × (i < index + rounds)
    × (bit b i ≡ false)
    × ((j : ℕ) → index ≤ j → j < i → bit b j ≡ true)

IsFirstZero-step :
    (b : Bitmap) (index rounds : ℕ) (r : Option ℕ)
    → bit b index ≡ true
    → IsFirstZero b (index + 1) rounds r
    → IsFirstZero b index (suc rounds) r
IsFirstZero-step b index rounds none here h = λ j lo hi. elim (ℕ_discrete index j) [
  | yes e ↦ rw (← e) here
  | no ne ↦ h j (omega arith) (omega arith)
]
IsFirstZero-step b index rounds (some i) here h = (
  omega (arith, h.0),
  omega (arith, h.1),
  h.2,
  λ j lo hi. elim (ℕ_discrete index j) [ yes e ↦ rw (← e) here | no ne ↦ h.3 j (omega arith) hi ],
)

find_zero_lem :
    (rounds : ℕ) (b : Bitmap) (index : ℕ)
    → index + rounds ≤ size b
    → (r : Option ℕ) × (find_zero rounds b index ≡ some r) × IsFirstZero b index rounds r
unfolding find_zero
find_zero_lem zero b index h = (none, refl, λ j lo hi. absurd (omega arith))
find_zero_lem (suc rounds) b index h = elim (Bool-cases (bit b index)) [
  | inl one ↦
      let (r, e, p) = find_zero_lem rounds b (index + 1) (omega arith) in
      (
        r,
        rw (get-eq-bit b index (omega arith), one, ◌>>=◌) e,
        IsFirstZero-step b index rounds r one p,
      )
  | inr nil ↦ (
    some index,
    rw (get-eq-bit b index (omega arith), nil, ◌>>=◌),
    (omega arith, omega arith, nil, λ j lo hi. absurd (omega arith)),
  )
]

-- For a limit within the slice, `first_zero` answers with the least index below the limit whose bit
-- is clear, or with none where every bit below the limit is set.
pub first_zero-IsFirstZero :
    (b : Bitmap) (limit : ℕ)
    → limit ≤ size b
    → (r : Option ℕ) × (first_zero b limit ≡ some r) × IsFirstZero b 0 limit r
unfolding first_zero
first_zero-IsFirstZero b limit h = find_zero_lem limit b 0 (omega arith)
