-- ===== src/Mm/Vm/Tree/Fixed.antt =====
-- kernel/kernel/src/mm/vm/aspace/tree.rs: what `alloc_spot_fixed` answers, on every branch, and the
-- removal of a child.
use corrosios.Base.{
  ℕ, ◌+◌, ◌≤◌, ◌<◌, ◌≡◌, refl, arith, some, true, List, [], ◌∷◌, ltb, ◌||◌, usize_mod, wadd,
  Bool-cases, Option-cases, inl, inr, ◌⊎◌,
}
use corrosios.Err.{invalid_argument, resource_overlap, Outcome, ok, err, fail_if, ◌>>◌}
use corrosios.Mm.Vm.BTreeMap.{insert, last_below, first_from}
use corrosios.Mm.Vm.Tree.{
  SliceChild, child_start, child_pages, prev_overlaps, next_overlaps, SliceInner, Slice,
  with_children, alloc_spot_fixed,
}
use corrosios.Mm.Vm.Tree.Tiles.{Tiles, end_exact, insert-Tiles}

-- An attached slice in good order: it ends below 2 ^ 64, and its children tile it.
pub record IsTiled (s : Slice) (i : SliceInner) : Type 0 where
  pub attached : s.inner ≡ some i
  pub small : s.start + s.page_count < usize_mod
  pub tiles : Tiles s.start (s.start + s.page_count) i.children

-- Some entry of the list overlaps `start..start + pages`.
abbrev Overlaps : ℕ → ℕ → List (ℕ × SliceChild) → Type 0
Overlaps start pages [] = ⊥
Overlaps start pages ((k, c) ∷ cs) =
    ((k < start + pages) × (start < k + child_pages c)) ⊎ Overlaps start pages cs

prev-Overlaps :
    (lo hi start pages : ℕ) (cs : List (ℕ × SliceChild))
    → Tiles lo hi cs
    → hi < usize_mod
    → 0 < pages
    → prev_overlaps (last_below start cs) start ≡ true
    → Overlaps start pages cs
unfolding last_below
prev-Overlaps lo hi start pages [] t small pos h = absurd (ground arith)
prev-Overlaps lo hi start pages ((k, c) ∷ cs) t small pos h = elim (Bool-cases (ltb k start)) [
  | inl below ↦ elim (Option-cases (last_below start cs)) [
    | inl last ↦ inl (ground (arith, end_exact lo hi k c cs t small))
    | inr ((j, w), more) ↦ inr (
        prev-Overlaps (k + child_pages c) hi start pages cs t.3 small pos
          (ground (arith, more, below)))
  ]
  | inr beyond ↦ absurd (ground arith)
]

next-Overlaps :
    (lo hi start pages : ℕ) (cs : List (ℕ × SliceChild))
    → Tiles lo hi cs
    → next_overlaps (first_from start cs) (start + pages) ≡ true
    → Overlaps start pages cs
unfolding first_from
next-Overlaps lo hi start pages [] t h = absurd (ground arith)
next-Overlaps lo hi start pages ((k, c) ∷ cs) t h = elim (Bool-cases (ltb k start)) [
  | inl below ↦ inr (next-Overlaps (k + child_pages c) hi start pages cs t.3 (rw below at h))
  | inr beyond ↦ inl (ground arith)
]

-- The answers of `alloc_spot_fixed` for a child of `pages` pages at `start`: it is inserted, and the
-- children tile the slice as before; or the range leaves the slice; or it overlaps a child.
abbrev pub Fixes : Slice → SliceInner → ℕ → ℕ → SliceChild → Outcome Slice → Type 0
Fixes s i start pages child (ok s') =
    (s' ≡ with_children s i (insert start child i.children))
    × Tiles s.start (s.start + s.page_count) (insert start child i.children)
Fixes s i start pages child (err invalid_argument) =
    (start < s.start) ⊎ (s.start + s.page_count < start + pages)
Fixes s i start pages child (err resource_overlap) = Overlaps start pages i.children
Fixes s i start pages child r = ⊥

-- The part of `alloc_spot_fixed` behind the checks of the range.
fixed_neighbours :
    (s : Slice) (i : SliceInner) (start pages : ℕ) (child : SliceChild)
    → IsTiled s i
    → start ≡ child_start child
    → pages ≡ child_pages child
    → 0 < pages
    → s.start ≤ start
    → start + pages ≤ s.start + s.page_count
    → Fixes s i start pages child (
        fail_if (prev_overlaps (last_below start i.children) start) resource_overlap
        >> (fail_if (next_overlaps (first_from start i.children) (start + pages)) resource_overlap
            >> ok (with_children s i (insert start child i.children))))
fixed_neighbours s i start pages child inv e f pos low high =
    elim (Bool-cases (prev_overlaps (last_below start i.children) start)) [
      | inl prev ↦ rw prev (
          prev-Overlaps s.start (s.start + s.page_count) start pages i.children inv.tiles inv.small
            pos prev)
      | inr prev ↦
          rw prev (elim (Bool-cases (next_overlaps (first_from start i.children) (start + pages))) [
            | inl next ↦ rw next (
                next-Overlaps s.start (s.start + s.page_count) start pages i.children inv.tiles
                  next)
            | inr next ↦ rw next (
              refl,
              insert-Tiles s.start (s.start + s.page_count) start child i.children inv.tiles
                  inv.small e (omega arith) low (omega arith) prev (rw f at next),
            )
          ])
    ]

-- In an attached slice in good order, for a child of at least one page at its own start,
-- `alloc_spot_fixed` either inserts the child, and the children tile the slice as before; or answers
-- INVALID_ARGUMENT, and the range does not lie in the slice; or answers RESOURCE_OVERLAP, and the
-- range overlaps a child. No other answer occurs.
pub alloc_spot_fixed-Fixes :
    (s : Slice) (i : SliceInner) (start pages : ℕ) (child : SliceChild)
    → IsTiled s i
    → start ≡ child_start child
    → pages ≡ child_pages child
    → 0 < pages
    → Fixes s i start pages child (alloc_spot_fixed s start pages child)
unfolding alloc_spot_fixed
alloc_spot_fixed-Fixes s i start pages child inv e f pos =
    elim (Bool-cases (ltb (start + pages) usize_mod)) [
      | inr wraps ↦ rw wraps (inr (ground (arith, inv.small)))
      | inl fits ↦
          let end : wadd s.start s.page_count ≡ s.start + s.page_count = omega (arith, inv.small) in
          rw (fits, end)
            (elim (Bool-cases (ltb start s.start || ltb (s.start + s.page_count) (start + pages))) [
              | inl outside ↦ rw outside (ground arith)
              | inr inside ↦
                  rw (inside, inv.attached)
                    (fixed_neighbours s i start pages child inv e f pos (ground arith)
                      (ground arith))
            ])
    ]
