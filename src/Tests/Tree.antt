-- ===== src/Tests/Tree.antt =====
-- kernel/kernel/src/mm/vm/aspace/tree.rs: a slice of 100 pages from page 16 on, with a mapping of 8
-- pages and a subslice of 32.
use corrosios.Base.{ℕ, ◌≡◌, refl, arith, none, some, List, [], ◌∷◌, wshl, inl, inr}
use corrosios.Err.{Outcome, ok}
use corrosios.NumUtils.{align_up, align_down}
use corrosios.Mm.Vm.BTreeMap.{last_below}
use corrosios.Mm.Vm.Tree.{
  SliceChild, subslice, mapping, child_start, child_pages, SliceInner, Slice, alloc_spot_fixed,
  alloc_spot_dynamic, get_child,
}
use corrosios.Mm.Vm.Tree.Fixed.{IsTiled, Fixes, alloc_spot_fixed-Fixes}
use corrosios.Mm.Vm.Tree.Gaps.{AllPadded, Allots, alloc_spot_dynamic-Allots}
use corrosios.Mm.Vm.Tree.Lookup.{get_child-first_page}

abbrev children : List (ℕ × SliceChild)
children = (20, mapping 1 20 8) ∷ (32, subslice 2 32 32) ∷ []

abbrev inner : SliceInner
inner = record { parent = none; children = children }

abbrev slice : Slice
slice = record { start = 16; page_count = 100; inner = some inner }

slice-IsTiled : IsTiled slice inner
slice-IsTiled = record {
  attached = refl;
  small = omega arith;
  tiles = (refl, omega arith, omega arith, (refl, omega arith, omega arith, omega arith));
}

alloc_spot_fixed-Fixes_example :
    Fixes slice inner 64 8 (mapping 3 64 8) (alloc_spot_fixed slice 64 8 (mapping 3 64 8))
alloc_spot_fixed-Fixes_example =
    alloc_spot_fixed-Fixes slice inner 64 8 (mapping 3 64 8) slice-IsTiled refl refl (omega arith)

get_child-first_page_example : get_child inner 20 ≡ none
get_child-first_page_example = get_child-first_page slice inner 20 slice-IsTiled (inl refl)

found_40 : get_child inner 40 ≡ some (subslice 2 32 32)
unfolding get_child last_below
found_40 = refl

abbrev build : ℕ → ℕ → Outcome SliceChild
build pages g = ok (mapping 3 g pages)

build_lem :
    (pages g : ℕ) (c : SliceChild)
    → build pages g ≡ ok c
    → (g ≡ child_start c) × (pages ≡ child_pages c)
build_lem pages g (subslice id start count) e = absurd (ground arith)
build_lem pages g (mapping id start count) e = (cc, cc)

padded : AllPadded (wshl 1 2) 10 16 116 children
unfolding align_up align_down
padded = (
  inr (omega arith, omega arith),
  (inr (omega arith, omega arith), inr (omega arith, omega arith)),
)

alloc_spot_dynamic-Allots_example :
    Allots slice inner (wshl 1 2) 10 (build 10) (alloc_spot_dynamic slice 2 10 (build 10))
alloc_spot_dynamic-Allots_example =
    alloc_spot_dynamic-Allots slice inner 2 10 (build 10) slice-IsTiled (omega arith) (omega arith)
      padded (build_lem 10)
