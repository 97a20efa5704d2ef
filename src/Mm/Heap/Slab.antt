-- ===== src/Mm/Heap/Slab.antt =====
-- kernel/kernel/src/mm/heap.rs, `SizeClassInner`: objects of one size in slabs. A slab is known by the
-- address of its header. The list of partial slabs is the list of their addresses; its links are
-- another library's. `HeapAllocError` is the answer `none`. The functions of pmm.rs on its state are
-- parameters.
use corrosios.Base.{
  ℕ, ◌/◌, Option, none, some, Bool, false, List, [], ◌∷◌, ltb, ◌==◌, ◌&&◌, ◌||◌, not, if◌then◌else◌,
  wadd, wsub, wmul, replicate,
}
use corrosios.Err.{Outcome, ok, expect, ensure, ◌>>=◌, ◌>>◌}
use corrosios.NumUtils.{align_down}
use corrosios.Bitmap.{Bitmap, first_zero, set_bit, unset}
use corrosios.Mm.Types.{containing_page, page_offset, page_addr}
use corrosios.Mm.Physmap.{pfn_to_physmap, physmap_to_pfn}
use corrosios.Mm.Pmm.Level.{unlink}
use corrosios.Mm.Heap.{SizeClassMeta, slab_size, first_object_offset, bitmap_bytes}

-- The header's counter and the bitmap behind the header.
pub record Slab : Type 0 where
  pub allocated : ℕ
  pub objects : Bitmap

-- `SizeClassInner`, with the memory that the slabs are in and the state of the frame allocator.
pub record SizeClassInner {ℓ} (P : Type ℓ) : Type ℓ where
  pub partial_slabs : List ℕ
  pub slabs : ℕ → Slab
  pub frames : P

unfoldable pub slab_header_from_obj : ℕ → ℕ → Outcome ℕ
slab_header_from_obj obj order =
    let base_addr = align_down obj (slab_size order) in
    ensure (not (base_addr == 0)) >> ok base_addr

abbrev is_linked : ℕ → List ℕ → Bool
is_linked slab [] = false
is_linked slab (x ∷ xs) = (x == slab) || is_linked slab xs

module _ {ℓ} {P : Type ℓ} where
  abbrev pub write_slab : SizeClassInner P → ℕ → Slab → SizeClassInner P
  write_slab s slab v = record s { slabs = λ a. if slab == a then v else s.slabs a }

  unfoldable pub take_partial_slab : SizeClassInner P → Option (ℕ × SizeClassInner P)
  take_partial_slab s = elim s.partial_slabs [
    | [] ↦ none
    | slab ∷ rest ↦ some (slab, record s { partial_slabs = rest })
  ]

  abbrev pub push_front : SizeClassInner P → ℕ → SizeClassInner P
  push_front s slab = record s { partial_slabs = slab ∷ s.partial_slabs }

  -- `allocate` with a slab.
  unfoldable pub take_object :
      SizeClassMeta → ℕ → SizeClassInner P → Outcome (Option ℕ × SizeClassInner P)
  take_object m slab s = do
    let header = s.slabs slab
    let next_allocated = wadd header.allocated 1
    let s1 = if ltb next_allocated m.objects_per_slab then push_front s slab else s
    found ← expect (first_zero header.objects m.objects_per_slab)
    offset ← expect found
    b ← expect (set_bit header.objects offset)
    ok (
      some (wadd slab (wadd (first_object_offset m) (wmul offset m.size))),
      write_slab s1 slab (record { allocated = next_allocated; objects = b }),
    )

  unfoldable pub return_object :
      SizeClassMeta → ℕ → ℕ → SizeClassInner P → Outcome (SizeClassInner P)
  return_object m slab ptr s = do
    let header = s.slabs slab
    let next_allocated = wsub header.allocated 1
    let s1 =
        if (header.allocated == m.objects_per_slab) && ltb next_allocated m.objects_per_slab
        then push_front s slab
        else s
    b ← expect (unset header.objects (wsub (wsub ptr slab) (first_object_offset m) / m.size))
    ok (write_slab s1 slab (record { allocated = next_allocated; objects = b }))

module _ {ℓ} {P : Type ℓ} (pmm_allocate : ℕ → P → Outcome (Option ℕ × P)) where
  unfoldable pub alloc_virt_pages : ℕ → P → Outcome (Option ℕ × P)
  alloc_virt_pages order f = do
    (pfn, f') ← pmm_allocate order f
    ok (elim pfn [ none ↦ none | some n ↦ some (page_addr (pfn_to_physmap n)) ], f')

  unfoldable pub alloc_slab :
      SizeClassMeta → SizeClassInner P → Outcome (Option ℕ × SizeClassInner P)
  alloc_slab m s = do
    (slab, f) ← alloc_virt_pages m.slab_order s.frames
    let s' = record s { frames = f }
    ok (
      slab,
      elim slab [
        | none ↦ s'
        | some a ↦
            write_slab s' a
              (record { allocated = 0; objects = record { bytes = replicate (bitmap_bytes m) 0 } })
      ],
    )

  -- `take_partial_slab` or else `alloc_slab`.
  unfoldable pub find_slab :
      SizeClassMeta → SizeClassInner P → Outcome (Option ℕ × SizeClassInner P)
  find_slab m s = elim (take_partial_slab s) [
    | some (slab, s') ↦ ok (some slab, s')
    | none ↦ alloc_slab m s
  ]

  unfoldable pub allocate_object :
      SizeClassMeta → SizeClassInner P → Outcome (Option ℕ × SizeClassInner P)
  allocate_object m s = find_slab m s >>= λ (slab, s'). elim slab [
    | none ↦ ok (none, s')
    | some a ↦ take_object m a s'
  ]

module _ {ℓ} {P : Type ℓ} (pmm_deallocate : ℕ → ℕ → P → Outcome P) where
  unfoldable pub free_virt_pages : ℕ → ℕ → P → Outcome P
  free_virt_pages vaddr order f = do
    ensure (page_offset vaddr == 0)
    pfn ← physmap_to_pfn (containing_page vaddr)
    pmm_deallocate pfn order f

  -- The empty slab goes back to the frame allocator.
  unfoldable pub free_slab : SizeClassMeta → ℕ → SizeClassInner P → Outcome (SizeClassInner P)
  free_slab m slab s = do
    partial ←
        (if ltb 1 m.objects_per_slab
          then ensure (is_linked slab s.partial_slabs) >> expect (unlink slab s.partial_slabs)
          else ok s.partial_slabs)
    f ← free_virt_pages slab m.slab_order s.frames
    ok (record s { partial_slabs = partial; frames = f })

  unfoldable pub deallocate_object :
      SizeClassMeta → ℕ → SizeClassInner P → Outcome (SizeClassInner P)
  deallocate_object m ptr s = do
    slab ← slab_header_from_obj ptr m.slab_order
    let empty = free_slab m slab s
    let rest = return_object m slab ptr s
    if wsub ((s.slabs slab).allocated) 1 == 0 then empty else rest
