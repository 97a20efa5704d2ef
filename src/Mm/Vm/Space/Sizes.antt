-- ===== src/Mm/Vm/Space/Sizes.antt =====
-- kernel/kernel/src/mm/vm/aspace.rs: how many pages `map` asks of the slice.
use corrosios.Base.{
  ℕ, ◌+◌, ◌-◌, ◌≤◌, ◌<◌, ◌≡◌, refl, arith, true, false, ltb, ◌||◌, checked_add, some, usize_mod,
}
use corrosios.Err.{err, invalid_argument}
use corrosios.Mm.Types.{Protection}
use corrosios.Mm.Vm.Tree.{Slice, slice_end, fixed, alloc_spot, alloc_spot_fixed}
use corrosios.Mm.Vm.Space.{VmObject, AddrSpace, map_object}

-- Pages of an object that lie in the object, asked for at pages that lie in the slice, are refused with
-- INVALID_ARGUMENT, where the object has more pages than there are in the slice from the first on.
pub map_object-refuses :
    {A : Type 0} (objects : ℕ → VmObject) (a : AddrSpace A)
    (slice start page_count object_offset object : ℕ) (prot : Protection)
    → object_offset + page_count ≤ (objects object).page_count
    → (a.store.slices slice).start ≤ start
    → start + page_count ≤ (a.store.slices slice).start + (a.store.slices slice).page_count
    → (a.store.slices slice).start + (a.store.slices slice).page_count
      < start + (objects object).page_count
    → start + (objects object).page_count < usize_mod
    → map_object objects a slice (fixed start) page_count object_offset object prot
      ≡ (a, err invalid_argument)
unfolding map_object alloc_spot alloc_spot_fixed
map_object-refuses objects a slice start page_count object_offset object prot inside from to over
      small =
    let total = (objects object).page_count in
    let v : Slice = a.store.slices slice in
    let first : (ltb total object_offset || ltb (total - object_offset) page_count) ≡ false =
      ground arith in
    let end : checked_add start total ≡ some (start + total) = ground arith in
    let last : (ltb start v.start || ltb (slice_end v) (start + total)) ≡ true = ground arith in
    rw (first, end, last) refl
