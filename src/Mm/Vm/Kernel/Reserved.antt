-- ===== src/Mm/Vm/Kernel/Reserved.antt =====
-- kernel/kernel/src/mm/vm/kernel_aspace.rs: what is reserved in the kernel's address space.
use corrosios.Base.{
  ℕ, ◌+◌, ◌-◌, ◌≤◌, ◌<◌, ◌≡◌, refl, arith, none, some, true, false, List, [], ◌∷◌, ltb, ◌||◌, ◌==◌,
  wadd, ◌^◌, if◌then◌else◌,
}
use corrosios.Err.{◌>>=◌, ok}
use corrosios.Mm.Physmap.{phys_map_base, phys_map_max_pages}
use corrosios.Mm.Kimage.{Image, total_pages}
use corrosios.Mm.Pt.{Tables}
use corrosios.Mm.Vm.BTreeMap.{insert, last_below, first_from}
use corrosios.Mm.Vm.Tree.{
  SliceChild, subslice, child_start, child_pages, Slice, new_slice, fixed, alloc_spot,
  alloc_spot_fixed,
}
use corrosios.Mm.Vm.Store.{MappingCell, set_slice, add_slice}
use corrosios.Mm.Vm.Store.Shape.{attached}
use corrosios.Mm.Vm.Space.{AddrSpace, new, create_subslice}
use corrosios.Mm.Vm.Kernel.{kernel_aspace_base, kernel_aspace_end, reserve_kernel}

-- The root slice of the kernel's address space with these children.
abbrev pub root_with : List (ℕ × SliceChild) → Slice
root_with cs = attached none kernel_aspace_base (kernel_aspace_end - kernel_aspace_base) cs

-- A kernel image behind the map of physical memory, in the kernel's address space.
pub record IsHigh (k : Image) : Type 0 where
  pub behind : phys_map_base + phys_map_max_pages ≤ k.virt_base
  pub some_pages : k.virt_base < k.virt_end
  pub inside : k.virt_end ≤ kernel_aspace_end

reserve_physmap :
    (child : SliceChild)
    → alloc_spot_fixed (root_with []) phys_map_base phys_map_max_pages child
      ≡ ok (root_with ((phys_map_base, child) ∷ []))
unfolding alloc_spot_fixed last_below first_from insert
reserve_physmap child = refl

reserve_image :
    (k : Image) (p child : SliceChild)
    → IsHigh k
    → child_start p ≡ phys_map_base
    → child_pages p ≡ phys_map_max_pages
    → alloc_spot_fixed (root_with ((phys_map_base, p) ∷ [])) k.virt_base (total_pages k) child
      ≡ ok (root_with ((phys_map_base, p) ∷ (k.virt_base, child) ∷ []))
unfolding alloc_spot_fixed last_below first_from insert
reserve_image k p child is at pages =
    let total : total_pages k ≡ k.virt_end - k.virt_base =
      omega (arith, is.some_pages, is.inside) in
    let short : ltb (k.virt_base + (k.virt_end - k.virt_base)) (2 ^ 64) ≡ true =
      ground (arith, is.some_pages, is.inside) in
    let end : k.virt_base + (k.virt_end - k.virt_base) ≡ k.virt_end =
      omega (arith, is.some_pages) in
    let range : (ltb k.virt_base kernel_aspace_base || ltb kernel_aspace_end k.virt_end) ≡ false =
      ground (arith, is.behind, is.inside) in
    let below : ltb phys_map_base k.virt_base ≡ true = ground (arith, is.behind) in
    let free : ltb k.virt_base (wadd phys_map_base phys_map_max_pages) ≡ false =
      ground (arith, is.behind) in
    let after : ltb k.virt_base phys_map_base ≡ false = ground (arith, is.behind) in
    let other : (phys_map_base == k.virt_base) ≡ false = ground (arith, is.behind) in
    rw (total, short, end, range, below, at, pages, free, after, other) refl

create_fixed :
    {A : Type 0} (a : AddrSpace A) (slice start pages : ℕ) (v v' : Slice)
    → a.store.slices slice ≡ v
    → alloc_spot_fixed v start pages (subslice a.store.next_id start pages) ≡ ok v'
    → create_subslice a slice (fixed start) pages ≡ (
      record a {
        store = (add_slice (set_slice a.store slice v') (new_slice (some slice) start pages)).1;
      },
      ok a.store.next_id,
    )
unfolding create_subslice alloc_spot
create_fixed a slice start pages v v' held made = rw (held, made) refl

-- The kernel's new address space with what is reserved in it: the map of physical memory, and behind it
-- the kernel image.
abbrev pub reserved_children : Image → List (ℕ × SliceChild)
reserved_children k =
    (phys_map_base, subslice 1 phys_map_base phys_map_max_pages)
    ∷ (k.virt_base, subslice 2 k.virt_base (total_pages k))
    ∷ []

-- For a kernel image that lies behind the map of physical memory in the kernel's address space, the new
-- address space is made and both ranges are reserved without a panic. The root slice spans the kernel's
-- part of the addresses and has the two as its only children; they are attached to it and empty.
pub reserve_kernel-new :
    {A : Type 0} (unused : ℕ → Slice) (no_mapping : ℕ → MappingCell) (k : Image) (tables : Tables)
    (frames : A)
    → IsHigh k
    → (a : AddrSpace A) × ((new unused no_mapping kernel_aspace_base kernel_aspace_end tables frames
          >>= reserve_kernel k)
        ≡ ok a)
      × (a.store.slices a.root_slice ≡ root_with (reserved_children k))
      × (a.store.slices 1 ≡ attached (some a.root_slice) phys_map_base phys_map_max_pages [])
      × (a.store.slices 2 ≡ attached (some a.root_slice) k.virt_base (total_pages k) [])
unfolding new new_slice reserve_kernel
reserve_kernel-new {A = A} unused no_mapping k tables frames is =
    let slices0 : ℕ → Slice = λ u. if 0 == u then root_with [] else unused u in
    let a0 : AddrSpace A = record {
      store = record { slices = slices0; mappings = no_mapping; next_id = 1 };
      root_slice = 0;
      tables = tables;
      frames = frames;
      flushes = [];
    } in
    let p : SliceChild = subslice 1 phys_map_base phys_map_max_pages in
    let v1 : Slice = root_with ((phys_map_base, p) ∷ []) in
    let a1 : AddrSpace A = record a0 {
      store =
          (add_slice (set_slice a0.store 0 v1)
            (new_slice (some 0) phys_map_base phys_map_max_pages)).1;
    } in
    let one : create_subslice a0 0 (fixed phys_map_base) phys_map_max_pages ≡ (a1, ok 1) =
      create_fixed a0 0 phys_map_base phys_map_max_pages (root_with []) v1 refl
        (reserve_physmap p) in
    let v2 : Slice = root_with (reserved_children k) in
    let a2 : AddrSpace A = record a1 {
      store =
          (add_slice (set_slice a1.store 0 v2) (new_slice (some 0) k.virt_base (total_pages k))).1;
    } in
    let two : create_subslice a1 0 (fixed k.virt_base) (total_pages k) ≡ (a2, ok 2) =
      create_fixed a1 0 k.virt_base (total_pages k) v1 v2 refl
        (reserve_image k p (subslice 2 k.virt_base (total_pages k)) is refl refl) in
    (a2, rw (one, two) refl, refl, refl, refl)
