-- ===== src/Tests/Space.antt =====
-- kernel/kernel/src/mm/vm/aspace.rs: an address space of 100 pages from page 16 on, with a mapping of 8
-- pages and a subslice of 32 that has a mapping of 4 pages.
use corrosios.Base.{
  ℕ, ◌+◌, ◌≤◌, ◌≡◌, refl, sym, arith, Option, none, some, true, false, List, [], ◌∷◌, ◌==◌,
  if◌then◌else◌, count, inl, inr,
}
use corrosios.Err.{ok, err, panic, invalid_argument}
use corrosios.Mm.Types.{read, cached, Protection}
use corrosios.Mm.Vm.BTreeMap
use corrosios.NumUtils.{align_up, align_down}
use corrosios.Mm.Types.{pt_index}
use corrosios.Mm.Mmu.{pte_is_present}
use corrosios.Mm.Pt.{walk_level, walk_loop, max_virt, next_table}
use corrosios.Mm.Pt.Update.{unmap, walk_update, update_step, update_next}
use corrosios.Mm.Pt.Cull.{cull_tables, cull_level, cull_step, cull_next}
use corrosios.Mm.Vm.Tree.{subslice, mapping, Slice, fixed, remove_child}
use corrosios.Mm.Vm.Store.{Store, MappingCell, new_mapping, get_mapping, detach_children}
use corrosios.Mm.Vm.Store.Shape.{
  node, Kids, no_kids, mapping_kid, slice_kid, attached, entries, ids, IsNested, Holds, depth, Maps,
}
use corrosios.Mm.Vm.Store.Finding.{Answers, get_mapping-Answers}
use corrosios.Mm.Vm.Store.Rounds.{detached}
use corrosios.Mm.Vm.Store.Detaching.{DetachesTree, detach_children-DetachesTree}
use corrosios.Mm.Vm.Space.{
  AddrSpace, AddrSpaceOps, FrameSource, VmObject, flush_specific, do_unmap, flush_and_cull, fault,
  unmap_mapping, unmap_slice, map_object,
}
use corrosios.Mm.Vm.Space.Faults.{IsReady, Serves, fault-Serves}
use corrosios.Mm.Vm.Space.Unmapping.{Unmaps, unmap_mapping-twice, unmap_slice-Unmaps}
use corrosios.Mm.Vm.Space.Sizes.{map_object-refuses}

abbrev below : Kids
below = mapping_kid 1 40 4 no_kids

abbrev kids : Kids
kids = mapping_kid 0 20 8 (slice_kid (node 1 32 32 below) no_kids)

abbrev prot : Protection
prot = record { can_read = true; can_write = false; can_execute = false }

abbrev slices : ℕ → Slice
slices u =
    if 0 == u
    then attached none 16 100 (entries kids)
    else if 1 == u
    then attached (some 0) 32 32 (entries below)
    else detached 0 0

abbrev mappings : ℕ → MappingCell
mappings m = if 0 == m then new_mapping 0 20 8 0 3 prot else new_mapping 1 40 4 2 3 prot

abbrev store : Store
store = record { slices = slices; mappings = mappings; next_id = 2 }

abbrev space : AddrSpace (List ℕ)
space = record {
  store = store;
  root_slice = 0;
  tables = λ table index. 0;
  frames = 7 ∷ 8 ∷ 9 ∷ [];
  flushes = [];
}

abbrev ops : AddrSpaceOps
ops = record {
  root_pt = 5;
  can_cull_pt = λ pt level. true;
  base_perms = record {
    p_read = false;
    p_write = false;
    p_execute = false;
    p_user = true;
    p_global = false;
  };
}

abbrev take : List ℕ → List ℕ × Option ℕ
take [] = ([], none)
take (f ∷ fs) = (fs, some f)

abbrev source : FrameSource (List ℕ)
source = record { allocate = take; deallocate = λ fs f. f ∷ fs }

-- Every object has 10 pages, in frames from 1000 on.
abbrev objects : ℕ → VmObject
objects n = record {
  page_count = 10;
  provide_page = λ k commit_type. ok (1000 + k);
  cache_mode = cached;
}

kids-IsNested : IsNested (node 0 16 100 kids)
unfolding IsNested
kids-IsNested = (
  omega arith,
  (refl, omega arith, omega arith, (refl, omega arith, omega arith, omega arith)),
  ((omega arith, (refl, omega arith, omega arith, omega arith), tt), tt),
)

store-Holds : Holds store none (node 0 16 100 kids)
unfolding Holds
store-Holds = (refl, ((refl, tt), tt))

-- A page of the mapping in the subslice.
get_mapping-Answers_example : Answers 41 (node 0 16 100 kids) (get_mapping 2 store 0 41)
unfolding depth
get_mapping-Answers_example =
    get_mapping-Answers store none 41 0 16 100 2 kids kids-IsNested store-Holds (omega arith)

apart : (u : ℕ) → count u (ids (node 0 16 100 kids)) ≤ 1
unfolding ids
apart u = ground arith

detach_children-DetachesTree_example :
    DetachesTree store (node 0 16 100 kids) (detach_children 5 store 0)
detach_children-DetachesTree_example =
    detach_children-DetachesTree store none 0 16 100 0 kids store-Holds apart

ready : (m : ℕ) → Maps 41 m (node 0 16 100 kids) → IsReady store 41 m
unfolding Maps
ready m (inl (here, from, before)) = absurd (omega arith)
ready m (inr (inl (from, before, inl (here, from', before')))) = rw (sym here) (record {
  inner = record { parent = 1; prot = prot };
  held = refl;
  from = omega arith;
  small = omega arith;
})
ready m (inr (inl (from, before, inr h))) = absurd h
ready m (inr (inr h)) = absurd h

-- A read of a page of the mapping in the subslice.
fault-Serves_example :
    Serves ops source objects space 41 read
      (node 0 16 100 kids)
      (fault ops source objects 2 space 41 read)
unfolding depth
fault-Serves_example =
    fault-Serves ops source objects space none 41 16 100 2 kids read kids-IsNested store-Holds
      (omega arith) (omega arith) ready

-- The mapping of 8 pages, unmapped.
abbrev unmapped : AddrSpace (List ℕ)
unmapped = record space {
  store = record store {
    slices = λ u. if 0 == u then attached none 16 100 ((32, subslice 1 32 32) ∷ []) else slices u;
  };
  flushes = flush_specific [] ∷ [];
}

unmapped_is : unmap_mapping ops source space 0 ≡ (unmapped, ok tt)
unfolding unmap_mapping do_unmap flush_and_cull remove_child BTreeMap.remove unmap walk_update
    update_step update_next walk_level walk_loop max_virt next_table align_up align_down
    pte_is_present pt_index cull_tables cull_level cull_step cull_next
unmapped_is = refl

unmap_mapping-twice_example : unmap_mapping ops source unmapped 0 ≡ (unmapped, panic)
unmap_mapping-twice_example =
    unmap_mapping-twice ops source space unmapped 0 16 116 (record { parent = 0; prot = prot })
      (record { parent = none; children = entries kids }) refl refl
      (refl, omega arith, omega arith, (refl, omega arith, omega arith, omega arith)) unmapped_is

subslice-Holds : Holds store (some 0) (node 1 32 32 below)
unfolding Holds
subslice-Holds = (refl, tt)

subslice_apart : (u : ℕ) → count u (ids (node 1 32 32 below)) ≤ 1
unfolding ids
subslice_apart u = ground arith

root_outside : count 0 (ids (node 1 32 32 below)) ≡ 0
unfolding ids
root_outside = refl

subslice_there : BTreeMap.remove 32 (entries kids) ≡ some ((20, mapping 0 20 8) ∷ [])
unfolding BTreeMap.remove
subslice_there = refl

-- The subslice.
unmap_slice-Unmaps_example :
    Unmaps store 0
      (attached none 16 100 ((20, mapping 0 20 8) ∷ []))
      (ids (node 1 32 32 below))
      (unmap_slice ops source 2 space 1)
unmap_slice-Unmaps_example =
    unmap_slice-Unmaps ops source space 1 32 32 0 0 16 100 none below (entries kids)
      ((20, mapping 0 20 8) ∷ []) subslice-Holds subslice_apart root_outside refl subslice_there

-- Two pages of an object of 10, at the last two pages of the slice.
map_object-refuses_example :
    map_object objects space 0 (fixed 114) 2 3 5 prot ≡ (space, err invalid_argument)
map_object-refuses_example =
    map_object-refuses objects space 0 114 2 3 5 prot (omega arith) (omega arith) (omega arith)
      (omega arith) (omega arith)
