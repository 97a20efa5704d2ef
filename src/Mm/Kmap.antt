-- ===== src/Mm/Kmap.antt =====
-- kernel/kernel/src/mm/kmap.rs: mappings in the kernel's address space. The space is an argument, and so
-- is the number that a new object gets.
pub mod Stack
use corrosios.Base.{
  ℕ, ◌+◌, ◌-◌, ◌*◌, ◌/◌, ◌%◌, ◌^◌, ◌≤◌, ◌<◌, ◌≡◌, arith, Option, none, some, Bool, true, false,
  List, [], ◌∷◌, ◌==◌, ltb, leb, ◌&&◌, if◌then◌else◌, wadd, wsub, length, usize_mod, refl,
  Bool-cases, inl, inr,
}
use corrosios.Err.{Error, Outcome, ok, err, panic, expect, ◌>>=◌}
use corrosios.NumUtils.{div_ceil}
use corrosios.NumUtils.Rounding.{align_up-least}
use corrosios.Mm.Types.{CacheMode, cached, Protection, containing_page, page_offset, page_addr}
use corrosios.Mm.Heap.{to_page_count}
use corrosios.Mm.Vm.Commit.{CommitType}
use corrosios.Mm.Vm.Tree.{fixed, aligned, slice_end}
use corrosios.Mm.Vm.Object.Eager
use corrosios.Mm.Vm.Object.Phys
use corrosios.Mm.Vm.Object.Eager.{EagerVmObject}
use corrosios.Mm.Vm.Object.Phys.{PhysVmObject}
use corrosios.Mm.Vm.Space.{
  VmObject, AddrSpace, AddrSpaceOps, FrameSource, create_subslice, map_committed, unmap_slice,
  unmap_mapping,
}

abbrev phys_object : PhysVmObject → VmObject
phys_object o = record {
  page_count = o.page_count;
  provide_page = Phys.provide_page o;
  cache_mode = o.cache_mode;
}

abbrev eager_object : EagerVmObject → VmObject
eager_object o = record {
  page_count = Eager.page_count o;
  provide_page = Eager.provide_page o;
  cache_mode = cached;
}

abbrev with_object : (ℕ → VmObject) → ℕ → VmObject → ℕ → VmObject
with_object objects id v n = if id == n then v else objects n

-- The object of `iomap`.
unfoldable pub iomap_object : ℕ → ℕ → CacheMode → PhysVmObject
iomap_object base len cache_mode = record {
  base = containing_page base;
  page_count = to_page_count len;
  cache_mode = cache_mode;
}

abbrev stack_pages : ℕ
stack_pages = 8

abbrev pub read_write : Protection
read_write = record { can_read = true; can_write = true; can_execute = false }

pub record IoMapping : Type 0 where
  pub mapping : ℕ
  pub page_offset : ℕ
  pub len : ℕ

module _ {A : Type 0} (ops : AddrSpaceOps) (source : FrameSource A) where
  unfoldable kmap : (ℕ → VmObject) → AddrSpace A → ℕ → Protection → AddrSpace A × Outcome ℕ
  kmap objects a object prot =
      map_committed ops source objects a a.root_slice (aligned 0) (objects object).page_count 0
        object prot

  unfoldable iomap :
      (ℕ → VmObject)
      → AddrSpace A
      → (object base len : ℕ) → Protection
      → CacheMode
      → AddrSpace A × Outcome IoMapping
  iomap objects a object base len prot cache_mode =
      let all = with_object objects object (phys_object (iomap_object base len cache_mode)) in
      let (a', made) = kmap all a object prot in
      (a', made >>= λ id. ok (record { mapping = id; page_offset = page_offset base; len = len }))

  abbrev io_addr : AddrSpace A → IoMapping → ℕ
  io_addr a m = wadd (page_addr ((a.store.mappings m.mapping).start)) m.page_offset

  -- The drop of a `KernelMapping`.
  unfoldable drop_mapping : AddrSpace A → ℕ → AddrSpace A × Outcome (Unit {0})
  drop_mapping a id =
      let (a', r) = unmap_mapping ops source a id in
      (a', elim r [ ok u ↦ ok u | err e ↦ panic | panic ↦ panic ])

  -- The drop of a `KernelStack`.
  unfoldable pub drop_stack : ℕ → AddrSpace A → ℕ → Option (AddrSpace A × Outcome (Unit {0}))
  drop_stack rounds a slice = elim (unmap_slice ops source rounds a slice) [
    | none ↦ none
    | some (a', r) ↦ some (a', elim r [ ok u ↦ ok u | err e ↦ panic | panic ↦ panic ])
  ]

  -- The error is returned once the stack is dropped.
  abbrev pub dropped_err :
      Option (AddrSpace A × Outcome (Unit {0})) → Error → Option (AddrSpace A × Outcome ℕ)
  dropped_err none e = none
  dropped_err (some (a, r)) e = some (a, r >>= λ _. err e)

  -- What `KernelStack::new` returns once the stack exists, which is dropped on an error.
  abbrev pub stack_made : ℕ → ℕ → AddrSpace A × Outcome ℕ → Option (AddrSpace A × Outcome ℕ)
  stack_made rounds slice (a, ok id) = some (a, ok slice)
  stack_made rounds slice (a, panic) = some (a, panic)
  stack_made rounds slice (a, err e) = dropped_err (drop_stack rounds a slice) e

  -- `KernelStack::new` with the object of its pages.
  unfoldable pub new_stack : ℕ → (ℕ → VmObject) → AddrSpace A → ℕ → Option (AddrSpace A × Outcome ℕ)
  new_stack rounds objects a object =
      let (a', made) = create_subslice a a.root_slice (aligned 0) (stack_pages + 1) in
      elim made [
        | ok slice ↦ stack_made rounds slice (
            map_committed ops source objects a' slice
              (fixed (wadd ((a'.store.slices slice).start) 1)) stack_pages 0 object read_write)
        | err e ↦ some (a', err e)
        | panic ↦ some (a', panic)
      ]

  abbrev stack_top : AddrSpace A → ℕ → ℕ
  stack_top a slice = page_addr (slice_end (a.store.slices slice))

  abbrev stack_bottom : AddrSpace A → ℕ → ℕ
  stack_bottom a slice = page_addr ((a.store.slices slice).start)

  unfoldable guard_page_contains : AddrSpace A → ℕ → ℕ → Bool
  guard_page_contains a slice addr =
      let bottom = (a.store.slices slice).start in
      leb (page_addr bottom) addr && ltb addr (page_addr (wadd bottom 1))

pages_of : (len : ℕ) → 0 < len → len + 4096 < usize_mod → to_page_count len ≡ (len + 4095) / 4096
unfolding to_page_count div_ceil
pages_of len some_bytes small = omega arith

-- For at least one byte, in a range that does not wrap: the object of `iomap` provides the frame of the
-- last byte exactly where the offset of `base` in its page and the offset of byte `len - 1`, counted
-- from the beginning of a page, add up to less than the page size. Elsewhere the object ends before that
-- frame, and `provide_page` panics.
pub provide_page-iomap_object :
    (base len : ℕ) (cache_mode : CacheMode) (commit_type : CommitType)
    → 0 < len
    → base + len + 4096 < usize_mod
    → Phys.provide_page
        (iomap_object base len cache_mode)
        (containing_page (base + len - 1) - containing_page base)
        commit_type
      ≡ (if ltb (page_offset base + (len - 1) % 4096) 4096
          then ok (containing_page (base + len - 1))
          else panic)
unfolding Phys.provide_page iomap_object containing_page page_offset
provide_page-iomap_object base len cache_mode commit_type some_bytes small =
    let pages : to_page_count len ≡ (len + 4095) / 4096 = pages_of len some_bytes (omega arith) in
    elim (Bool-cases (ltb (base % 4096 + (len - 1) % 4096) 4096)) [
      | inl within ↦
          let first : ltb ((base + len - 1) / 4096 - base / 4096) (to_page_count len) ≡ true =
            ground (arith, pages) in
          let frame : wadd (base / 4096) ((base + len - 1) / 4096 - base / 4096)
              ≡ (base + len - 1) / 4096 =
            omega arith in
          rw (within, first, frame) refl
      | inr over ↦
          let behind : ltb ((base + len - 1) / 4096 - base / 4096) (to_page_count len) ≡ false =
            ground (arith, pages) in
          rw (over, behind) refl
    ]
