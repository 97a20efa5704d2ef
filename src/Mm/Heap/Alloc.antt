-- ===== src/Mm/Heap/Alloc.antt =====
-- kernel/kernel/src/mm/heap.rs: the allocator over all classes, and what the kernel calls. The bytes
-- of memory are a function of the address. The lock around each class is not modelled.
use corrosios.Base.{
  ℕ, ◌+◌, ◌-◌, Option, none, some, List, min, ltb, leb, ◌==◌, ◌&&◌, if◌then◌else◌, wshl, get_elem?,
}
use corrosios.Err.{Outcome, ok, expect, ◌>>=◌}
use corrosios.Mm.Early.{Layout}
use corrosios.Mm.Heap.{
  SizeClassMeta, new_meta, page_size, get_effective_size, raw_page_order, allocator_classes,
  get_size_class, usable_size,
}
use corrosios.Mm.Heap.Slab.{
  Slab, SizeClassInner, alloc_virt_pages, free_virt_pages, allocate_object, deallocate_object,
}

-- The partial slabs of each class, the memory of slabs, the bytes, and the frame allocator.
pub record Heap {ℓ} (P : Type ℓ) : Type ℓ where
  pub partials : ℕ → List ℕ
  pub slabs : ℕ → Slab
  pub memory : ℕ → ℕ
  pub frames : P

-- `copy_from_nonoverlapping`
unfoldable copy : (ℕ → ℕ) → ℕ → ℕ → ℕ → ℕ → ℕ
copy memory src dst count =
    λ a. if leb dst a && ltb a (dst + count) then memory (a - dst + src) else memory a

module _ {ℓ} {P : Type ℓ} where
  -- The class's state, and the heap with another one.
  abbrev class_of : Heap P → ℕ → SizeClassInner P
  class_of h i = record { partial_slabs = h.partials i; slabs = h.slabs; frames = h.frames }

  abbrev with_class : Heap P → ℕ → SizeClassInner P → Heap P
  with_class h i c = record h {
    partials = λ j. if i == j then c.partial_slabs else h.partials j;
    slabs = c.slabs;
    frames = c.frames;
  }

module _ {ℓ} {P : Type ℓ} (slab_header_size : ℕ) (pmm_allocate : ℕ → P → Outcome (Option ℕ × P))
    (pmm_deallocate : ℕ → ℕ → P → Outcome P) where
  abbrev meta_of : ℕ → Outcome SizeClassMeta
  meta_of i = expect (get_elem? allocator_classes i) >>= λ (size, slab_order).
      new_meta slab_header_size size slab_order

  -- `SizeClass::allocate` and `SizeClass::deallocate`
  unfoldable class_allocate : ℕ → Heap P → Outcome (Option ℕ × Heap P)
  class_allocate i h = do
    m ← meta_of i
    (ptr, c) ← allocate_object pmm_allocate m (class_of h i)
    ok (ptr, with_class h i c)

  unfoldable class_deallocate : ℕ → ℕ → Heap P → Outcome (Heap P)
  class_deallocate i ptr h = do
    m ← meta_of i
    c ← deallocate_object pmm_deallocate m ptr (class_of h i)
    ok (with_class h i c)

  -- The address with the length of the slice.
  unfoldable allocate_size : ℕ → Heap P → Outcome (Option (ℕ × ℕ) × Heap P)
  allocate_size effective_size h = elim (get_size_class effective_size) [
    | some c ↦ do
      (ptr, h') ← class_allocate (c.0) h
      ok (elim ptr [ none ↦ none | some a ↦ some (a, c.1) ], h')
    | none ↦ do
      let order = raw_page_order effective_size
      (ptr, f) ← alloc_virt_pages pmm_allocate order h.frames
      ok (
        elim ptr [ none ↦ none | some a ↦ some (a, wshl page_size order) ],
        record h { frames = f },
      )
  ]

  unfoldable deallocate_size : ℕ → ℕ → Heap P → Outcome (Heap P)
  deallocate_size ptr effective_size h = elim (get_size_class effective_size) [
    | some c ↦ class_deallocate (c.0) ptr h
    | none ↦ do
      f ← free_virt_pages pmm_deallocate ptr (raw_page_order effective_size) h.frames
      ok (record h { frames = f })
  ]

  -- `allocate` and `deallocate`
  abbrev allocate_layout : Layout → Heap P → Outcome (Option (ℕ × ℕ) × Heap P)
  allocate_layout layout h = allocate_size (get_effective_size layout) h

  abbrev deallocate_layout : ℕ → Layout → Heap P → Outcome (Heap P)
  deallocate_layout ptr layout h = deallocate_size ptr (get_effective_size layout) h

  -- `resize` once there is new memory.
  unfoldable move_object :
      ℕ → Layout → Layout → Option (ℕ × ℕ) → Heap P → Outcome (Option (ℕ × ℕ) × Heap P)
  move_object ptr old_layout new_layout none h = ok (none, h)
  move_object ptr old_layout new_layout (some new_ptr) h = do
    let moved = copy h.memory ptr (new_ptr.0) (min old_layout.size new_layout.size)
    h' ← deallocate_size ptr (get_effective_size old_layout) (record h { memory = moved })
    ok (some new_ptr, h')

  unfoldable resize : ℕ → Layout → Layout → Heap P → Outcome (Option (ℕ × ℕ) × Heap P)
  resize ptr old_layout new_layout h =
      let old_usable_size = usable_size (get_effective_size old_layout) in
      let new_usable_size = usable_size (get_effective_size new_layout) in
      let moved = allocate_size (get_effective_size new_layout) h >>= λ (p, h').
      move_object ptr old_layout new_layout p h' in
      if old_usable_size == new_usable_size then ok (some (ptr, old_usable_size), h) else moved
