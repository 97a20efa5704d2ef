-- ===== src/Mm/Vm/Kernel.antt =====
-- kernel/kernel/src/mm/vm/kernel_aspace.rs, vm/low_aspace.rs and vm.rs: the kernel's address space, and where
-- a page fault goes. The steps of the processor (root of the tables, flushes) are not modelled.
pub mod Reserved
use corrosios.Base.{
  ℕ, zero, suc, ◌+◌, ◌-◌, Option, none, some, Bool, true, false, List, [], ◌∷◌, ltb, if◌then◌else◌,
  wsub,
}
use corrosios.Err.{Error, invalid_state, bad_address, Outcome, ok, err, panic, ◌>>=◌}
use corrosios.Mm.Types.{AccessType, PageTablePerms, containing_page}
use corrosios.Mm.Physmap.{phys_map_base, phys_map_max_pages}
use corrosios.Mm.Kimage.{Image, total_pages}
use corrosios.Mm.Pt.{new_pointer, Tables}
use corrosios.Mm.Pt.Update.{protect}
use corrosios.Mm.Vm.Tree.{Slice, fixed}
use corrosios.Mm.Vm.Store.{MappingCell}
use corrosios.Mm.Vm.Space.{
  AddrSpace, AddrSpaceOps, FrameSource, VmObject, new, create_subslice, fault, walk_outcome,
}

abbrev pub kernel_aspace_base : ℕ
kernel_aspace_base = 4503565267632128

abbrev pub kernel_aspace_end : ℕ
kernel_aspace_end = 4503599627370496

abbrev low_aspace_base : ℕ
low_aspace_base = 512

abbrev low_aspace_end : ℕ
low_aspace_end = 34359738368

-- `expect`
abbrev pub expected {ℓ} : {A : Type ℓ} → Outcome A → Outcome A
expected (ok a) = ok a
expected (err e) = panic
expected panic = panic

-- The sections of the kernel image: their first page and how many they have.
pub record Sections : Type 0 where
  pub code_pages : ℕ × ℕ
  pub rodata_pages : ℕ × ℕ
  pub data_pages : ℕ × ℕ

abbrev perms_global : Bool → Bool → Bool → PageTablePerms
perms_global read write execute = record {
  p_read = read;
  p_write = write;
  p_execute = execute;
  p_user = false;
  p_global = true;
}

-- `protect` with a `NoopGather`.
unfoldable pub protect_range : ℕ → ℕ × ℕ → PageTablePerms → Tables → Outcome Tables
protect_range root (base, size) perms t =
    let (w, p, (t', g)) =
      protect (λ (u : Unit {0}) vpn. tt) perms root (new_pointer base size) (t, tt) in
    expected (walk_outcome w) >>= λ _. ok t'

unfoldable pub protect_kimage : ℕ → Sections → Tables → Outcome Tables
protect_kimage root s t = do
  t1 ← protect_range root s.code_pages (perms_global false false true) t
  t2 ← protect_range root s.rodata_pages (perms_global true false false) t1
  protect_range root s.data_pages (perms_global true true false) t2

abbrev is_low_addr : ℕ → Bool
is_low_addr addr = ltb (containing_page addr) low_aspace_end

module _ {A : Type 0} where
  -- The two reservations of `init` in the root slice.
  unfoldable pub reserve_kernel : Image → AddrSpace A → Outcome (AddrSpace A)
  reserve_kernel k a =
      let (a1, physmap) = create_subslice a a.root_slice (fixed phys_map_base) phys_map_max_pages in
      expected physmap >>= λ _.
      let (a2, image) = create_subslice a1 a1.root_slice (fixed k.virt_base) (total_pages k) in
      expected image >>= λ _. ok a2

  unfoldable pub init :
      (ℕ → Slice) → (ℕ → MappingCell) → ℕ → Image → Sections → Tables → A → Outcome (AddrSpace A)
  init unused no_mapping root k s tables frames = do
    a ← expected (new unused no_mapping kernel_aspace_base kernel_aspace_end tables frames)
    a' ← reserve_kernel k a
    t ← protect_kimage root s a'.tables
    ok (record a' { tables = t })

  -- `page_fault`, with the address space of the current thread, if there are a thread and a space.
  unfoldable page_fault :
      (ops : AddrSpaceOps)
      → (source : FrameSource A) → (objects : ℕ → VmObject) → ℕ
      → Option (Option (AddrSpace A))
      → ℕ
      → AccessType
      → Option (Option (AddrSpace A) × Outcome (Unit {0}))
  page_fault ops source objects rounds none addr access_type =
      some (none, if is_low_addr addr then err invalid_state else err bad_address)
  page_fault ops source objects rounds (some none) addr access_type = some (none, err bad_address)
  page_fault ops source objects rounds (some (some a)) addr access_type =
      if is_low_addr addr
      then elim (fault ops source objects rounds a (containing_page addr) access_type) [
        | none ↦ none
        | some (a', r) ↦ some (some a', r)
      ]
      else some (some a, err bad_address)
