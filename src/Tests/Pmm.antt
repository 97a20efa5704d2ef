-- ===== src/Tests/Pmm.antt =====
-- kernel/kernel/src/mm/pmm.rs and early.rs: a manager of sixteen frames.
use corrosios.Base.{ℕ, ◌+◌, ◌≤◌, ◌≡◌, refl, arith, Option, some, [], ◌∷◌, ◌++◌, replicate}
use corrosios.NumUtils.{
  align_down, align_up, div_ceil, bit_length, leading_zeros, log2, zeros_below, trailing_zeros,
}
use corrosios.Bitmap
use corrosios.Bitmap.{Bitmap, bytes_required}
use corrosios.Mm.Early.{BootHeap, Layout, alloc_phys}
use corrosios.Mm.Early.Heap.{IsHeap, IsLayout, Answers, alloc_phys-Answers}
use corrosios.Mm.Pmm.Level
use corrosios.Mm.Pmm.Level.{BuddyLevel, unlink, pop_front, pop_free}
use corrosios.Mm.Pmm.Defs
use corrosios.Mm.Pmm.Defs.{
  PhysManager, order_count, splitmap_index, buddy_of, parent_of, on_level, find_free, split_down,
  take_block, allocate, merge_up, deallocate, next_order, add_blocks, add_free_range,
  free_pages_from, free_pages, splitmap_bytes, new_levels, new,
}
use corrosios.Mm.Pmm.Cover.{cover}
use corrosios.Mm.Pmm.Moves.{Inv, Frees, IsAllocated}
use corrosios.Mm.Pmm.Deallocate.{deallocate-Frees}
use corrosios.Mm.Pmm.Allocate.{Allocates, allocate-Allocates}
use corrosios.Mm.Pmm.FreeRange.{add_free_range-Frees}
use corrosios.Mm.Pmm.Create.{needed, new-Inv}
use corrosios.Mm.Pmm.Count.{total, free_pages-eq-total}

abbrev boot : BootHeap
boot = record { base = 0; cur = 0; end = 100 }

boot-IsHeap : IsHeap boot
boot-IsHeap = record { low = omega arith; high = omega arith; small = omega arith }

abbrev page : Layout
page = record { size = 24; align = 16 }

page-IsLayout : IsLayout boot page
page-IsLayout = record { positive = omega arith; fits = omega arith; sized = omega arith }

alloc_phys-Answers_example : Answers boot page (alloc_phys boot page)
alloc_phys-Answers_example = alloc_phys-Answers boot page boot-IsHeap page-IsLayout

abbrev empty : BuddyLevel
empty = record { free_list = []; free_blocks = 0; splitmap = record { bytes = 0 ∷ [] } }

-- The manager that `new` makes for sixteen frames.
abbrev fresh : PhysManager
fresh = record { total_pages = 0; levels = replicate 16 empty }

boot_room : 0 + needed order_count 0 16 ≤ 100
unfolding splitmap_bytes bytes_required div_ceil
boot_room = omega arith

new-fresh : new 16 boot ≡ some (fresh, record boot { cur = 0 + needed order_count 0 16 })
unfolding new new_levels splitmap_bytes bytes_required div_ceil alloc_phys align_up align_down
new-fresh = refl

new-Inv_example :
    (m : PhysManager) × (new 16 boot ≡ some (m, record boot { cur = 0 + needed order_count 0 16 }))
    × Inv 16 m
    × ((x : ℕ) → cover m x ≡ 0)
new-Inv_example = new-Inv 16 boot (omega arith) boot-IsHeap boot_room

fresh-Inv : Inv 16 fresh
fresh-Inv =
    let (m, e, inv, bare) = new-Inv 16 boot (omega arith) boot-IsHeap boot_room in
    let f : m ≡ fresh = cc (e, new-fresh) in rw f at inv

fresh-IsAllocated : (start pages : ℕ) → IsAllocated fresh start pages
unfolding cover
fresh-IsAllocated start pages x = ground arith

deallocate-Frees_example : Frees 16 fresh 4 4 (deallocate fresh 4 2)
deallocate-Frees_example =
    deallocate-Frees 16 fresh 4 2 fresh-Inv (omega arith) (omega arith, omega arith)
      (fresh-IsAllocated 4 4)

add_free_range-Frees_example : Frees 16 fresh 0 16 (add_free_range fresh 0 16)
add_free_range-Frees_example =
    add_free_range-Frees 16 fresh 0 16 (omega arith) (omega arith) (omega arith) fresh-Inv
      (fresh-IsAllocated 0 16)

-- All sixteen frames, as one block of order 4.
abbrev full : PhysManager
full = record {
  total_pages = 16;
  levels =
      replicate 4 empty
      ++ (record { free_list = 0 ∷ []; free_blocks = 1; splitmap = record { bytes = 1 ∷ [] } }
          ∷ replicate 11 empty);
}

freed_full : add_free_range fresh 0 16 ≡ some full
unfolding add_free_range add_blocks next_order deallocate merge_up on_level Defs.toggle_parent_split
    Defs.is_parent_split Defs.push_free Defs.remove_free Level.toggle_parent_split
    Level.is_parent_split Level.push_free Level.remove_free splitmap_index buddy_of parent_of log2
    leading_zeros bit_length trailing_zeros zeros_below Bitmap.toggle Bitmap.get
freed_full = refl

full-Inv : Inv 16 full
full-Inv =
    let (m, e, inv, covers) = add_free_range-Frees_example in
    let f : m ≡ full = cc (e, freed_full) in rw f at inv

allocate-Allocates_example :
    (r : Option ℕ) × (m' : PhysManager) × (allocate full 1 ≡ some (r, m'))
    × Allocates 16 full 1 r m'
allocate-Allocates_example = allocate-Allocates 16 full 1 full-Inv

free_pages-eq-total_example : free_pages full ≡ total 16 (cover full)
free_pages-eq-total_example = free_pages-eq-total 16 full (omega arith) full-Inv
