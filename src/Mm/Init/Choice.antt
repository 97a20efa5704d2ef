-- ===== src/Mm/Init/Choice.antt =====
-- kernel/kernel/src/mm/init.rs: the largest range, for the boot heap, and the highest usable frame.
use corrosios.Base.{
  ℕ, ◌≤◌, ◌≡◌, refl, arith, some, List, [], ◌∷◌, ltb, wsub, ◌⊎◌, inl, inr, Bool-cases,
}
use corrosios.Mm.Init.{
  MemoryRange, iter_early_usable_ranges, largest_of, largest_early_usable_range,
}

abbrev Among : ℕ × ℕ → List (ℕ × ℕ) → Type 0
Among r [] = ⊥
Among r (q ∷ rs) = (q ≡ r) ⊎ Among r rs

abbrev pub pages_of : ℕ × ℕ → ℕ
pages_of (start, end) = wsub end start

abbrev NoneLarger : ℕ → List (ℕ × ℕ) → Type 0
NoneLarger n [] = Unit {0}
NoneLarger n (r ∷ rs) = (pages_of r ≤ n) × NoneLarger n rs

NoneLarger-le : (m n : ℕ) (rs : List (ℕ × ℕ)) → m ≤ n → NoneLarger m rs → NoneLarger n rs
NoneLarger-le m n [] le h = tt
NoneLarger-le m n (r ∷ rs) le (first, h) = (omega arith, NoneLarger-le m n rs le h)

-- The range that the loop ends with: it was there or it is reported, and none is larger.
record IsMost (cur : ℕ × ℕ) (rs : List (ℕ × ℕ)) : Type 0 where
  chosen : ℕ × ℕ
  is : largest_of (some cur) rs ≡ some chosen
  from : (cur ≡ chosen) ⊎ Among chosen rs
  not_less : pages_of cur ≤ pages_of chosen
  most : NoneLarger (pages_of chosen) rs

largest_of-IsMost : (cur : ℕ × ℕ) (rs : List (ℕ × ℕ)) → IsMost cur rs
largest_of-IsMost cur [] = record {
  chosen = cur;
  is = refl;
  from = inl refl;
  not_less = omega arith;
  most = tt;
}
largest_of-IsMost (cur_start, cur_end) ((start, end) ∷ rs) =
    elim (Bool-cases (ltb (wsub cur_end cur_start) (wsub end start))) [
      | inl more ↦
          let l : IsMost (start, end) rs = largest_of-IsMost (start, end) rs in
          record {
            chosen = l.chosen;
            is = rw more l.is;
            from = inr l.from;
            not_less = ground (arith, l.not_less);
            most = (l.not_less, l.most);
          }
      | inr less ↦
          let l : IsMost (cur_start, cur_end) rs = largest_of-IsMost (cur_start, cur_end) rs in
          record {
            chosen = l.chosen;
            is = rw less l.is;
            from = elim l.from [ inl same ↦ inl same | inr later ↦ inr (inr later) ];
            not_less = l.not_less;
            most = (ground (arith, l.not_less), l.most);
          }
    ]

-- Where the early usable ranges are reported and there is one, the range chosen for the boot heap is one
-- of them, and none has more pages.
largest_early_usable_range-most :
    (mem_map : List MemoryRange) (reserved : List (ℕ × ℕ)) (r : ℕ × ℕ) (rs : List (ℕ × ℕ))
    → iter_early_usable_ranges mem_map reserved ≡ some (r ∷ rs)
    → (chosen : ℕ × ℕ) × (largest_early_usable_range mem_map reserved ≡ some chosen)
      × Among chosen (r ∷ rs)
      × NoneLarger (pages_of chosen) (r ∷ rs)
unfolding largest_early_usable_range
largest_early_usable_range-most mem_map reserved r rs e =
    let l : IsMost r rs = largest_of-IsMost r rs in
    (
      l.chosen,
      rw e l.is,
      elim l.from [ inl same ↦ inl same | inr later ↦ inr later ],
      (l.not_less, l.most),
    )
