-- ===== src/Mm/Vm/Tree/Edges.antt =====
-- kernel/kernel/src/mm/vm/aspace/tree.rs: `alloc_spot_dynamic` in an empty slice, at the edges of what
-- its arithmetic allows for.
use corrosios.Base.{
  ℕ, ◌+◌, ◌≤◌, ◌<◌, ◌≡◌, refl, ◌∙◌, arith, Option, some, [], ◌∷◌, ltb, usize_mod, wsub, wshl,
  Bool-cases, inl, inr,
}
use corrosios.Err.{Outcome, ok, err, out_of_resources, ok_or, ◌>>=◌}
use corrosios.NumUtils.{align_up}
use corrosios.NumUtils.Rounding.{align_up-least}
use corrosios.Mm.Vm.BTreeMap.{insert}
use corrosios.Mm.Vm.Tree.{SliceChild, gaps_of, iter_gaps, fit_gap, alloc_spot_dynamic, new_slice}

-- The search of an empty slice is the one of its whole range.
new_slice-fit :
    (p : Option ℕ) (start pages align_order page_count : ℕ) (f : ℕ → Outcome SliceChild)
    → alloc_spot_dynamic (new_slice p start pages) align_order page_count f ≡ (
        ok_or (fit_gap (wshl 1 align_order) page_count start pages) out_of_resources >>= λ g.
        (f g >>= λ child. ok (
          child,
          record {
            start = start;
            page_count = pages;
            inner = some (record { parent = p; children = (g, child) ∷ [] });
          },
        )))
unfolding alloc_spot_dynamic iter_gaps gaps_of new_slice insert
new_slice-fit p start pages align_order page_count f = refl

-- An empty slice refuses a child of its own size, and every larger one.
pub alloc_spot_dynamic-refuses :
    (p : Option ℕ) (start pages page_count : ℕ) (f : ℕ → Outcome SliceChild)
    → start + pages < usize_mod
    → pages ≤ page_count
    → alloc_spot_dynamic (new_slice p start pages) 0 page_count f ≡ err out_of_resources
unfolding fit_gap
alloc_spot_dynamic-refuses p start pages page_count f small le =
    new_slice-fit p start pages 0 page_count f
    ∙ (let (_, above, below, _) = align_up-least start 1 (omega arith) (omega arith) in
        let same : align_up start 1 ≡ start = omega arith in
        let all : wsub pages (wsub start start) ≡ pages = omega arith in
        rw (same, all)
          (elim (Bool-cases (ltb page_count pages)) [
            | inl more ↦ absurd (ground arith)
            | inr less ↦ rw less refl
          ]))
