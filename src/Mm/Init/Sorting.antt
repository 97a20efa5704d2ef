-- ===== src/Mm/Init/Sorting.antt =====
-- kernel/kernel/src/mm/init.rs: the sorted reserved ranges, and what is reported of the usable ones then.
use corrosios.Base.{ℕ, ◌+◌, ◌≤◌, ◌≡◌, refl, arith, List, [], ◌∷◌, ltb, to_nat, Bool-cases, inl, inr}
use corrosios.Mm.Usable.Carving.{in_range, reports_of}
use corrosios.Mm.Init.{insert_range, sort_reserved_ranges}

-- The starts do not fall from `lo` on.
abbrev Sorted : ℕ → List (ℕ × ℕ) → Type 0
Sorted lo [] = Unit {0}
Sorted lo ((start, end) ∷ rs) = (lo ≤ start) × Sorted start rs

insert_range-Sorted :
    (lo from to : ℕ) (rs : List (ℕ × ℕ))
    → lo ≤ from
    → Sorted lo rs
    → Sorted lo (insert_range (from, to) rs)
insert_range-Sorted lo from to [] le s = (le, tt)
insert_range-Sorted lo from to ((start, end) ∷ rs) le (first, s) =
    elim (Bool-cases (ltb start from)) [
      | inl later ↦ rw later (first, insert_range-Sorted start from to rs (ground arith) s)
      | inr here ↦ rw here (le, (ground arith, s))
    ]

insert_range-reports_of :
    (x from to : ℕ) (rs : List (ℕ × ℕ))
    → reports_of x (insert_range (from, to) rs) ≡ to_nat (in_range from to x) + reports_of x rs
insert_range-reports_of x from to [] = refl
insert_range-reports_of x from to ((start, end) ∷ rs) = elim (Bool-cases (ltb start from)) [
  | inl later ↦ rw later (omega (arith, insert_range-reports_of x from to rs))
  | inr here ↦ rw here refl
]

-- Sorting leaves the ranges, as far as the frames in them go, and puts them in the order of their starts.
sort_reserved_ranges-Sorted :
    (rs : List (ℕ × ℕ))
    → Sorted 0 (sort_reserved_ranges rs)
      × ((x : ℕ) → reports_of x (sort_reserved_ranges rs) ≡ reports_of x rs)
unfolding sort_reserved_ranges
sort_reserved_ranges-Sorted [] = (tt, λ x. refl)
sort_reserved_ranges-Sorted ((from, to) ∷ rs) =
    let (sorted, same) = sort_reserved_ranges-Sorted rs in
    (
      insert_range-Sorted 0 from to (sort_reserved_ranges rs) (omega arith) sorted,
      λ x. omega (arith, insert_range-reports_of x from to (sort_reserved_ranges rs), same x),
    )
