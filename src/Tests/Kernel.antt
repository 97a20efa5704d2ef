-- ===== src/Tests/Kernel.antt =====
-- kernel/kernel/src/mm: a kernel stack in an address space of 100 pages, the kernel's address space with
-- an image of 64 pages, a lazy object of 4 pages, and bytes that cross a page.
use corrosios.Base.{
  ℕ, ◌+◌, ◌-◌, ◌<◌, ◌≡◌, refl, arith, Option, none, some, true, false, List, [], ◌∷◌, ◌==◌,
  if◌then◌else◌, ltb, ◌%◌, digitwise, usize_mod,
}
use corrosios.NumUtils.{align_up, align_down}
use corrosios.Err.{◌>>=◌, ok, panic}
use corrosios.Mm.Types.{cached, uncached, containing_page, page_offset}
use corrosios.Mm.Kimage.{Image, total_pages}
use corrosios.Mm.Physmap.{phys_map_base, phys_map_max_pages}
use corrosios.Mm.Init.{MemoryRange, ranges_where, early_usable_ranges}
use corrosios.Mm.Vm.Tree.{
  mapping, Slice, new_slice, aligned, fixed, alloc_spot, alloc_spot_fixed, alloc_spot_dynamic,
  iter_gaps, gaps_of, fit_gap,
}
use corrosios.Mm.Vm.Store.{MappingCell, new_mapping}
use corrosios.Mm.Vm.Store.Shape.{attached}
use corrosios.Mm.Vm.Store.Rounds.{detached}
use corrosios.Mm.Vm.Commit.{
  CommitType, commit_read, commit_write, commit_range, do_commit, commit_loop,
}
use corrosios.Mm.Vm.Object.{frame_box}
use corrosios.Mm.Vm.Object.Lazy
use corrosios.Mm.Vm.Object.Phys
use corrosios.Mm.Vm.Object.Lazy.{LazyVmObject}
use corrosios.Mm.Vm.Object.Keeping.{provide_all, provide_page-again}
use corrosios.Mm.Vm.Space.{
  AddrSpace, AddrSpaceOps, FrameSource, VmObject, new, create_subslice, map_object, map_committed,
  commit, pt_map,
}
use corrosios.Mm.Vm.BTreeMap.{insert, last_below, first_from}
use corrosios.Mm.Pt.{
  walk_level, walk_loop, max_virt, next_table, set, clear_table, covers_level_entry,
  can_use_level_page,
}
use corrosios.Mm.Pt.Map.{map, map_level, map_step, map_terminal, with_next_table, created}
use corrosios.Mm.Types.{pt_index}
use corrosios.Mm.Mmu.{
  flags_from_perms, pat_selector_to_pte_bits, make_terminal_pte, make_intermediate_pte,
  get_pte_frame, pte_is_present, pte_is_terminal, supports_page_size,
}
use corrosios.Mm.Vm.Kernel.{kernel_aspace_base, kernel_aspace_end, reserve_kernel}
use corrosios.Mm.Vm.Kernel.Reserved.{root_with, reserved_children, reserve_kernel-new}
use corrosios.Mm.Kmap.{iomap_object, read_write, new_stack, provide_page-iomap_object}
use corrosios.Mm.Kmap.Stack.{new_stack-guards}

abbrev take : List ℕ → List ℕ × Option ℕ
take [] = ([], none)
take (f ∷ fs) = (fs, some f)

abbrev give : List ℕ → ℕ → List ℕ
give fs f = f ∷ fs

-- Page 2 of a lazy object, and then pages 0, 2 and 3.
abbrev lazy : LazyVmObject
lazy = record { page_count = 4; frames = none ∷ none ∷ none ∷ none ∷ [] }

abbrev calls : List (ℕ × CommitType)
calls = (0, commit_read) ∷ (2, commit_write) ∷ (3, commit_read) ∷ []

provided : (Lazy.provide_page take give 2 commit_read (lazy, 70 ∷ 71 ∷ 72 ∷ 73 ∷ [])).1 ≡ ok 70
unfolding Lazy.provide_page frame_box
provided = refl

provide_page-again_example :
    let later =
      provide_all take give calls
        (Lazy.provide_page take give 2 commit_read (lazy, 70 ∷ 71 ∷ 72 ∷ 73 ∷ [])).0 in
    Lazy.provide_page take give 2 commit_write later ≡ (later, ok 70)
provide_page-again_example =
    provide_page-again take give (lazy, 70 ∷ 71 ∷ 72 ∷ 73 ∷ []) 2 70 commit_read commit_write calls
      provided

-- Two bytes, the last of a page and the first of the next.
provide_page-iomap_object_example :
    Phys.provide_page
      (iomap_object 4095 2 uncached)
      (containing_page (4095 + 2 - 1) - containing_page 4095)
      commit_read
    ≡ (if ltb (page_offset 4095 + (2 - 1) % 4096) 4096
        then ok (containing_page (4095 + 2 - 1))
        else panic)
provide_page-iomap_object_example =
    provide_page-iomap_object 4095 2 uncached commit_read (omega arith) (omega arith)

-- An image at frame 512, whose pages begin behind the map of physical memory.
abbrev image : Image
image = record { phys_base = 512; virt_base = 4503582447501312; virt_end = 4503582447501376 }

-- Usable memory from frame 300 on, with the image in it.
abbrev mem_map : List MemoryRange
mem_map =
    record { start_page = 0; page_count = 160; kind = 0 }
    ∷ record { start_page = 300; page_count = 1000; kind = 1 }
    ∷ []

early_usable : early_usable_ranges mem_map ≡ (300, 1300) ∷ []
unfolding ranges_where
early_usable = refl

abbrev unused : ℕ → Slice
unused u = detached 0 0

abbrev no_mapping : ℕ → MappingCell
no_mapping m =
    new_mapping 0 0 0 0 0 (record { can_read = false; can_write = false; can_execute = false })

reserve_kernel-new_example :
    (a : AddrSpace (List ℕ)) × ((new unused no_mapping kernel_aspace_base kernel_aspace_end
          (λ t i. 0)
          []
        >>= reserve_kernel image)
      ≡ ok a)
    × (a.store.slices a.root_slice ≡ root_with (reserved_children image))
    × (a.store.slices 1 ≡ attached (some a.root_slice) phys_map_base phys_map_max_pages [])
    × (a.store.slices 2 ≡ attached (some a.root_slice) image.virt_base (total_pages image) [])
reserve_kernel-new_example =
    reserve_kernel-new unused no_mapping image (λ t i. 0) []
      (record { behind = omega arith; some_pages = omega arith; inside = omega arith })

-- An address space of 100 pages with no children, and an object of 8 pages in adjacent frames.
abbrev space : AddrSpace (List ℕ)
space = record {
  store = record {
    slices = λ u. if 0 == u then attached none 16 100 [] else detached 0 0;
    mappings = no_mapping;
    next_id = 1;
  };
  root_slice = 0;
  tables = λ t i. 0;
  frames = 7 ∷ 8 ∷ 9 ∷ [];
  flushes = [];
}

abbrev ops : AddrSpaceOps
ops = record {
  root_pt = 5;
  can_cull_pt = λ pt level. true;
  base_perms = record {
    p_read = false;
    p_write = false;
    p_execute = false;
    p_user = false;
    p_global = true;
  };
}

abbrev source : FrameSource (List ℕ)
source = record { allocate = take; deallocate = give }

abbrev objects : ℕ → VmObject
objects n = record { page_count = 8; provide_page = λ k t. ok (1000 + k); cache_mode = cached }

abbrev with_slice : AddrSpace (List ℕ)
with_slice = (create_subslice space 0 (aligned 0) 9).0

abbrev with_stack : AddrSpace (List ℕ)
with_stack = (map_committed ops source objects with_slice 1 (fixed 17) 8 0 6 read_write).0

start_small : (with_slice.store.slices 1).start + 9 < usize_mod
unfolding create_subslice alloc_spot alloc_spot_dynamic iter_gaps gaps_of fit_gap align_up
    align_down new_slice insert
start_small = omega arith

returned : new_stack ops source 1 objects space 6 ≡ some (with_stack, ok 1)
unfolding new_stack map_committed map_object commit commit_range do_commit commit_loop
    create_subslice alloc_spot alloc_spot_fixed alloc_spot_dynamic iter_gaps gaps_of fit_gap
    align_up align_down new_slice insert last_below first_from pt_map map map_level map_step
    map_terminal with_next_table created walk_level walk_loop max_virt next_table set clear_table
    covers_level_entry can_use_level_page pt_index flags_from_perms pat_selector_to_pte_bits
    make_terminal_pte make_intermediate_pte get_pte_frame pte_is_present pte_is_terminal
    supports_page_size digitwise
returned = refl

new_stack-guards_example :
    (start : ℕ) × (m : ℕ) × (with_stack.store.slices 1
      ≡ attached (some 0) start 9 ((start + 1, mapping m (start + 1) 8) ∷ []))
new_stack-guards_example =
    new_stack-guards ops source 1 6 1 objects space with_stack refl returned start_small
