-- ===== src/Mm/Pt/Finish.antt =====
-- kernel/kernel/src/mm/pt.rs: a walk from the root that is done has passed its whole range.
use corrosios.Base.{ℕ, ◌+◌, ◌%◌, ◌^◌, ◌≤◌, ◌≡◌, arith}
use corrosios.NumUtils.Rounding.{align_up-least}
use corrosios.Mm.Pt.{new_pointer, done, failed, panicked, stuck, Walked}
use corrosios.Mm.Pt.Walks.{IsPointer, Ends, level_stop}

-- The end of a walk over `size` pages: where it is done, the pointer is at the end of the range; where
-- it stops earlier, the pointer is in the range; it never runs out of fuel; and its states are related.
abbrev pub Finishes {ℓ} : {S : Type ℓ} → (S → S → Type 0) → ℕ → S → Walked S → Type 0
Finishes R size s (done, p', s') = (p'.offset ≡ size) × R s s'
Finishes R size s (failed e, p', s') = (p'.offset ≤ size) × R s s'
Finishes R size s (panicked, p', s') = (p'.offset ≤ size) × R s s'
Finishes R size s (stuck, p', s') = ⊥

-- A range that the root table covers: it crosses no multiple of 2 ^ 36 pages.
pub record IsRange (base size : ℕ) : Type 0 where
  pub covered : base % 2 ^ 36 + size ≤ 2 ^ 36
  pub small : base + size ≤ 2 ^ 52

pub range-IsPointer : (base size : ℕ) → IsRange base size → IsPointer (new_pointer base size)
range-IsPointer base size r = record { inside = omega arith; small = r.small }

root_stop : (base size : ℕ) → IsRange base size → level_stop 3 (new_pointer base size) ≡ base + size
root_stop base size r =
    let (whole, above, _, _) =
      align_up-least (base + 0 + 1) (2 ^ 36) (omega arith) (omega (arith, r.small)) in
    omega (arith, r.covered)

pub Ends-Finishes {ℓ} :
    {S : Type ℓ} (R : S → S → Type 0) (base size : ℕ) (s : S) (r : Walked S)
    → IsRange base size
    → Ends R (new_pointer base size) s (level_stop 3 (new_pointer base size)) r
    → Finishes R size s r
Ends-Finishes R base size s (done, q, t) range (m, reaches, kept) =
    (omega (arith, root_stop base size range, m.same_base, m.same_size, m.inside), kept)
Ends-Finishes R base size s (failed e, q, t) range (m, reaches, kept) =
    (omega (arith, m.same_size, m.inside), kept)
Ends-Finishes R base size s (panicked, q, t) range (m, reaches, kept) =
    (omega (arith, m.same_size, m.inside), kept)
Ends-Finishes R base size s (stuck, q, t) range (m, reaches, kept) = absurd reaches
