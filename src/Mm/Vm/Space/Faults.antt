-- ===== src/Mm/Vm/Space/Faults.antt =====
-- kernel/kernel/src/mm/vm/aspace.rs: what a page fault does.
use corrosios.Base.{
  ℕ, ◌+◌, ◌-◌, ◌≤◌, ◌<◌, ◌≡◌, refl, ap, ◌⊎◌, arith, Option, none, some, if◌then◌else◌, wadd, wsub,
  usize_mod, Bool-cases, inl, inr,
}
use corrosios.Err.{Outcome, ok, err, panic, bad_address, no_perms, Outcome-cases}
use corrosios.Mm.Types.{AccessType, Protection}
use corrosios.Mm.Vm.Commit.{
  get_commit_type, access_allowed, perms_for_prot, fault_range, do_commit, commit_loop,
}
use corrosios.Mm.Vm.Store.{Store, MappingCell, MappingInner, get_mapping}
use corrosios.Mm.Vm.Store.Shape.{SliceTree, node, Kids, Holds, IsNested, Maps, depth}
use corrosios.Mm.Vm.Store.Finding.{Answers, get_mapping-Answers}
use corrosios.Mm.Vm.Space.{
  commit_in, VmObject, AddrSpace, AddrSpaceOps, FrameSource, answer, pt_map, fault, mapping_view,
}

module _ {A : Type 0} (ops : AddrSpaceOps) (source : FrameSource A) (objects : ℕ → VmObject) where
  -- The page at `vpn` of the mapping with its frame put into the page table.
  abbrev page_in :
      AddrSpace A → ℕ → MappingCell → Protection → AccessType → AddrSpace A × Outcome (Unit {0})
  page_in a vpn m prot access_type =
      let object = objects m.object in
      answer a (object.provide_page (vpn - m.start + m.object_offset) (get_commit_type access_type))
        (λ pfn.
          let (s, r) =
            pt_map ops source vpn 1 pfn (perms_for_prot ops.base_perms prot) object.cache_mode
              (a.tables, a.frames) in
          (record a { tables = s.0; frames = s.1 }, r))

  one_page :
      (a : AddrSpace A) (vpn m : ℕ) (access_type : AccessType) (i : MappingInner)
      → (a.store.mappings m).inner ≡ some i
      → (a.store.mappings m).start ≤ vpn
      → vpn - (a.store.mappings m).start + (a.store.mappings m).object_offset + 1 < usize_mod
      → vpn + 1 < usize_mod
      → commit_in ops source objects a
          (fault_range vpn access_type (ok (mapping_view ops source objects a.store m)))
        ≡ (if access_allowed access_type i.prot
            then page_in a vpn (a.store.mappings m) i.prot access_type
            else (a, err no_perms))
  unfolding fault_range do_commit commit_loop
  one_page a vpn m access_type i held from small page =
      let c : MappingCell = a.store.mappings m in
      let offset : wsub vpn c.start ≡ vpn - c.start = omega arith in
      let count : wadd (vpn - c.start) 1 - (vpn - c.start) ≡ 1 = omega arith in
      let at : wadd (vpn - c.start) c.object_offset ≡ vpn - c.start + c.object_offset =
        omega arith in
      let back : wadd c.start (vpn - c.start) ≡ vpn = omega arith in
      elim (Bool-cases (access_allowed access_type i.prot)) [
        | inr refused ↦ rw (held, refused) refl
        | inl allowed ↦
            rw (held, allowed, offset, count, at, back)
              (elim (Outcome-cases (
                (objects c.object).provide_page (vpn - c.start + c.object_offset)
                  (get_commit_type access_type))) [
                    | inl (pfn, e) ↦ rw e refl
                    | inr (inl (e, f)) ↦ rw f refl
                    | inr (inr f) ↦ rw f refl
                  ])
      ]

-- An attached mapping in which the page is a page of the object that has a number.
pub record IsReady (s : Store) (vpn m : ℕ) : Type 0 where
  pub inner : MappingInner
  pub held : (s.mappings m).inner ≡ some inner
  pub from : (s.mappings m).start ≤ vpn
  pub small : vpn - (s.mappings m).start + (s.mappings m).object_offset + 1 < usize_mod

-- What a fault at the page does: no mapping of the tree has the page, and the answer is BAD_ADDRESS, or
-- one has it, and what the protection allows is paged in, and what it does not is NO_PERMS.
abbrev pub Serves :
    {A : Type 0}
    → AddrSpaceOps
    → FrameSource A
    → (ℕ → VmObject)
    → AddrSpace A
    → ℕ
    → AccessType
    → SliceTree
    → Option (AddrSpace A × Outcome (Unit {0}))
    → Type 0
Serves ops source objects a vpn access_type t r =
    ((r ≡ some (a, err bad_address)) × ((m : ℕ) → ¬ Maps vpn m t))
    ⊎ ((m : ℕ) × Maps vpn m t
        × (i : MappingInner) × ((a.store.mappings m).inner ≡ some i)
        × (r
            ≡ some (
                if access_allowed access_type i.prot
                then page_in ops source objects a vpn (a.store.mappings m) i.prot access_type
                else (a, err no_perms))))

module _ {A : Type 0} (ops : AddrSpaceOps) (source : FrameSource A) (objects : ℕ → VmObject) where
  fault_found :
      (a : AddrSpace A) (vpn rounds : ℕ) (access_type : AccessType) (t : SliceTree)
      (found : Option (Outcome ℕ))
      → get_mapping rounds a.store a.root_slice vpn ≡ found
      → Answers vpn t found
      → vpn + 1 < usize_mod
      → ((m : ℕ) → Maps vpn m t → IsReady a.store vpn m)
      → Serves ops source objects a vpn access_type t
          (fault ops source objects rounds a vpn access_type)
  unfolding fault fault_range do_commit
  fault_found a vpn rounds access_type t (some (ok m)) e answers page ready =
      let maps : Maps vpn m t = (answers m).1 refl in
      let r : IsReady a.store vpn m = ready m maps in
      inr (
        m,
        maps,
        r.inner,
        r.held,
        rw (fault, e)
            (ap some
              (one_page ops source objects a vpn m access_type r.inner r.held r.from r.small page)),
      )
  fault_found a vpn rounds access_type t (some (err x)) e (bad, never) page ready =
      inl (rw (fault, e, bad) refl, never)
  fault_found a vpn rounds access_type t (some panic) e answers page ready = absurd answers
  fault_found a vpn rounds access_type t none e answers page ready = absurd answers

  -- Where the root slice is the root of a tree of slices in good order, and the mappings that have the
  -- page are attached, `fault`, with as many rounds as the tree is deep, does one of three things. No
  -- mapping has the page behind the first pages of itself and of the slices on the way, and the answer
  -- is BAD_ADDRESS; or its protection does not allow the access, and the answer is NO_PERMS; or the
  -- frame that the object provides for the page is mapped at the page with the permissions of the
  -- mapping, and what the object or the page tables answer is the answer. The slices stay as they are.
  pub fault-Serves :
      (a : AddrSpace A) (parent : Option ℕ) (vpn start pages rounds : ℕ) (ks : Kids)
      (access_type : AccessType)
      → IsNested (node a.root_slice start pages ks)
      → Holds a.store parent (node a.root_slice start pages ks)
      → depth (node a.root_slice start pages ks) ≤ rounds
      → vpn + 1 < usize_mod
      → ((m : ℕ) → Maps vpn m (node a.root_slice start pages ks) → IsReady a.store vpn m)
      → Serves ops source objects a vpn access_type
          (node a.root_slice start pages ks)
          (fault ops source objects rounds a vpn access_type)
  fault-Serves a parent vpn start pages rounds ks access_type nested holds deep page ready =
      fault_found a vpn rounds access_type (node a.root_slice start pages ks)
        (get_mapping rounds a.store a.root_slice vpn) refl
        (get_mapping-Answers a.store parent vpn a.root_slice start pages rounds ks nested holds
          deep)
        page ready
