-- ===== src/Mm/Vm/Space.antt =====
-- kernel/kernel/src/mm/vm/aspace.rs: the operations of `AddrSpace`. A handle is the number of its slice or
-- mapping. The allocator of frames, the objects and what `AddrSpaceOps` answers are parameters; the
-- requests to flush the TLB are kept in order. An operation that runs out of rounds is `none`.
pub mod Faults
pub mod Sizes
pub mod Unmapping
use corrosios.Base.{
  ℕ, zero, suc, ◌+◌, ◌-◌, Option, none, some, Bool, true, false, List, [], ◌∷◌, ◌++◌, ◌==◌, ltb,
  leb, ◌||◌, if◌then◌else◌, wsub,
}
use corrosios.Err.{
  Error, invalid_argument, invalid_state, out_of_memory, Outcome, ok, err, panic, ok_or, expect,
  ensure, fail_if, ◌>>=◌, ◌>>◌,
}
use corrosios.Mm.Types.{AccessType, CacheMode, Protection, PageTablePerms}
use corrosios.Mm.Pt.{
  MappingPointer, new_pointer, Walk, done, failed, panicked, stuck, Walked, Tables,
}
use corrosios.Mm.Pt.Map.{map}
use corrosios.Mm.Pt.Update.{unmap}
use corrosios.Mm.Pt.Cull.{cull_tables}
use corrosios.Mm.Vm.Gather.{PendingInvalidationGather, specific, all, add_tlb_flush}
use corrosios.Mm.Vm.Commit.{CommitType, Mapping, CommitRange, fault_range, commit_range, do_commit}
use corrosios.Mm.Vm.Tree.{
  SliceChild, subslice, mapping, child_start, Slice, new_slice, MapBase, alloc_spot, remove_child,
}
use corrosios.Mm.Vm.Store.{
  Store, MappingInner, MappingCell, set_slice, add_slice, new_mapping, add_mapping, slice_parent,
  mapping_parent, get_mapping, detach_children,
}

pub data TlbFlush : Type 0 where
  flush_specific : List ℕ → TlbFlush
  flush_all : TlbFlush

abbrev as_tlb_flush : PendingInvalidationGather → TlbFlush
as_tlb_flush (specific pages) = flush_specific pages
as_tlb_flush all = flush_all

-- What a `VmObject` answers.
pub record VmObject : Type 0 where
  pub page_count : ℕ
  pub provide_page : ℕ → CommitType → Outcome ℕ
  pub cache_mode : CacheMode

-- An address space with the page tables and the frames that it works on.
pub record AddrSpace (A : Type 0) : Type 0 where
  pub store : Store
  pub root_slice : ℕ
  pub tables : Tables
  pub frames : A
  pub flushes : List TlbFlush

-- The end of a walk as the code sees it. A walk is not `stuck`.
abbrev pub walk_outcome : Walk → Outcome (Unit {0})
walk_outcome done = ok tt
walk_outcome (failed e) = err e
walk_outcome panicked = panic
walk_outcome stuck = panic

-- What an operation does with the outcome of a part of it that changes nothing where it fails.
abbrev pub answer : {A S B : Type 0} → S → Outcome A → (A → S × Outcome B) → S × Outcome B
answer s (ok a) k = k a
answer s (err e) k = (s, err e)
answer s panic k = (s, panic)

abbrev pub answer_opt :
    {A S B : Type 0} → S → Option (Outcome A) → (A → S × Outcome B) → Option (S × Outcome B)
answer_opt s none k = none
answer_opt s (some r) k = some (answer s r k)

-- `AddrSpace::new`, with the number 0 for the root slice.
unfoldable pub new :
    {A : Type 0} → (ℕ → Slice) → (ℕ → MappingCell) → ℕ → ℕ → Tables → A → Outcome (AddrSpace A)
new unused no_mapping start end tables frames = do
  ensure (leb start end)
  let s : Store = record { slices = unused; mappings = no_mapping; next_id = 0 }
  let added = add_slice s (new_slice none start (wsub end start))
  ok (record {
    store = added.1;
    root_slice = added.0;
    tables = tables;
    frames = frames;
    flushes = [];
  })

module _ {A : Type 0} where
  unfoldable pub create_subslice : AddrSpace A → ℕ → MapBase → ℕ → AddrSpace A × Outcome ℕ
  create_subslice a slice base page_count =
      let id = a.store.next_id in
      answer a
        (alloc_spot (a.store.slices slice) base page_count
          (λ start. ok (subslice id start page_count)))
        (λ (child, v).
          let made =
            add_slice (set_slice a.store slice v)
              (new_slice (some slice) (child_start child) page_count) in
          (record a { store = made.1 }, ok made.0))

  unfoldable pub map_object :
      (ℕ → VmObject) → AddrSpace A → ℕ → MapBase → ℕ → ℕ → ℕ → Protection → AddrSpace A × Outcome ℕ
  map_object objects a slice base page_count object_offset object prot =
      let total_page_count = (objects object).page_count in
      let id = a.store.next_id in
      if ltb total_page_count object_offset || ltb (total_page_count - object_offset) page_count
      then (a, err invalid_argument)
      else answer a
          (alloc_spot (a.store.slices slice) base total_page_count
            (λ start. ok (mapping id start page_count)))
          (λ (child, v).
            let made =
              add_mapping (set_slice a.store slice v)
                (new_mapping slice (child_start child) page_count object object_offset prot) in
            (record a { store = made.1 }, ok made.0))

-- The trait `AddrSpaceOps` but its `flush`.
pub record AddrSpaceOps : Type 0 where
  pub root_pt : ℕ
  pub can_cull_pt : ℕ → ℕ → Bool
  pub base_perms : PageTablePerms

-- `pmm::allocate(0)` and `pmm::deallocate(_, 0)`.
pub record FrameSource (A : Type 0) : Type 0 where
  pub allocate : A → A × Option ℕ
  pub deallocate : A → ℕ → A

module _ {A : Type 0} (ops : AddrSpaceOps) (source : FrameSource A) where
  -- `AspacePageTableAlloc::allocate`
  abbrev pub allocate_table : A → A × Outcome ℕ
  allocate_table frames =
      let (frames', pfn) = source.allocate frames in (frames', ok_or pfn out_of_memory)

  -- The `cull` of `AspaceCullTables`.
  abbrev cull_table : A → ℕ → ℕ → A
  cull_table frames pt level = source.deallocate frames pt

  unfoldable pub pt_map :
      ℕ → ℕ → ℕ → PageTablePerms → CacheMode → Tables × A → (Tables × A) × Outcome (Unit {0})
  pt_map base size pfn perms cache_mode s =
      let (w, p, s') =
        map allocate_table pfn perms cache_mode ops.root_pt (new_pointer base size) s in
      (s', walk_outcome w)

  -- What `do_unmap` does after the unmapping. An error of it is a panic.
  unfoldable pub flush_and_cull :
      AddrSpace A
      → ℕ
      → ℕ
      → Walked (Tables × PendingInvalidationGather)
      → AddrSpace A × Outcome (Unit {0})
  flush_and_cull a start page_count (done, p, (t, g)) =
      let (w, q, (t', frames)) =
        cull_tables (λ c. ops.can_cull_pt) cull_table ops.root_pt start page_count (t, a.frames) in
      (
        record a { tables = t'; frames = frames; flushes = a.flushes ++ (as_tlb_flush g ∷ []) },
        ok tt,
      )
  flush_and_cull a start page_count (failed e, p, (t, g)) = (record a { tables = t }, panic)
  flush_and_cull a start page_count (panicked, p, (t, g)) = (record a { tables = t }, panic)
  flush_and_cull a start page_count (stuck, p, (t, g)) = (record a { tables = t }, panic)

  unfoldable pub do_unmap : AddrSpace A → ℕ → ℕ → AddrSpace A × Outcome (Unit {0})
  do_unmap a start page_count =
      flush_and_cull a start page_count
        (unmap add_tlb_flush ops.root_pt (new_pointer start page_count) (a.tables, specific []))

  unfoldable pub unmap_slice : ℕ → AddrSpace A → ℕ → Option (AddrSpace A × Outcome (Unit {0}))
  unmap_slice rounds a slice =
      let v = a.store.slices slice in
      let removed : Outcome Store = (do
        found ← slice_parent a.store slice
        parent ← ok_or found invalid_argument
        v' ← remove_child (a.store.slices parent) v.start
        ok (set_slice a.store parent v')) in
      elim removed [
        | ok s ↦
            answer_opt a (detach_children rounds s slice)
              (λ s'. do_unmap (record a { store = s' }) v.start v.page_count)
        | err e ↦ some (a, err e)
        | panic ↦ some (a, panic)
      ]

  unfoldable pub unmap_mapping : AddrSpace A → ℕ → AddrSpace A × Outcome (Unit {0})
  unmap_mapping a id =
      let m = a.store.mappings id in
      let removed : Outcome Store = (do
        parent ← mapping_parent a.store id
        v' ← remove_child (a.store.slices parent) m.start
        ok (set_slice a.store parent v')) in
      answer a removed (λ s. do_unmap (record a { store = s }) m.start m.page_count)

  -- The drop of an address space.
  unfoldable pub drop : ℕ → AddrSpace A → Option (Outcome (AddrSpace A))
  drop rounds a = elim (detach_children rounds a.store a.root_slice) [
    | none ↦ none
    | some r ↦ some (r >>= λ s. ok (record a { store = s }))
  ]

  module _ (objects : ℕ → VmObject) where
    -- A mapping as committing sees it.
    abbrev pub mapping_view : Store → ℕ → Mapping
    mapping_view s id =
        let m = s.mappings id in
        record {
          start = m.start;
          page_count = m.page_count;
          object_offset = m.object_offset;
          provide_page = (objects m.object).provide_page;
          cache_mode = (objects m.object).cache_mode;
          prot = elim m.inner [ none ↦ none | some i ↦ some i.prot ];
        }

    -- `do_commit` on the tables and frames of an address space.
    abbrev pub commit_in : AddrSpace A → Outcome CommitRange → AddrSpace A × Outcome (Unit {0})
    commit_in a range =
        let (s, r) = do_commit pt_map ops.base_perms range (a.tables, a.frames) in
        (record a { tables = s.0; frames = s.1 }, r)

    unfoldable pub fault :
        ℕ → AddrSpace A → ℕ → AccessType → Option (AddrSpace A × Outcome (Unit {0}))
    fault rounds a vpn access_type = elim (get_mapping rounds a.store a.root_slice vpn) [
      | none ↦ none
      | some found ↦
          some (
            commit_in a
              (fault_range vpn access_type (found >>= λ id. ok (mapping_view a.store id))))
    ]

    unfoldable pub commit : AddrSpace A → ℕ → ℕ → ℕ → AddrSpace A × Outcome (Unit {0})
    commit a id offset page_count =
        commit_in a (commit_range (mapping_view a.store id) offset page_count)

    -- A mapping whose commit fails stays in its slice.
    unfoldable pub map_committed :
        AddrSpace A → ℕ → MapBase → ℕ → ℕ → ℕ → Protection → AddrSpace A × Outcome ℕ
    map_committed a slice base page_count object_offset object prot =
        let (a', made) = map_object objects a slice base page_count object_offset object prot in
        elim made [
          | ok id ↦ let (a'', r) = commit a' id 0 page_count in (a'', r >>= λ _. ok id)
          | err e ↦ (a', err e)
          | panic ↦ (a', panic)
        ]
