-- ===== src/Mm/Early.antt =====
-- kernel/kernel/src/mm/early.rs: the two bump allocators used before the frame allocator runs. An
-- address or a frame number is a number. `none` is the panic of an exhausted heap.
pub mod Heap
use corrosios.Base.{
  ℕ, ◌+◌, ◌-◌, Option, none, some, Bool, ltb, leb, ◌||◌, if◌then◌else◌, wadd, wsub,
}
use corrosios.NumUtils.{align_up}
use corrosios.Err.{Error, out_of_memory, Outcome, ok, err}

pub record BootHeap : Type 0 where
  pub base : ℕ
  pub cur : ℕ
  pub end : ℕ

-- A layout: its size and its alignment.
pub record Layout : Type 0 where
  pub size : ℕ
  pub align : ℕ

unfoldable boot_heap : ℕ → ℕ → BootHeap
boot_heap start end = record { base = start; cur = start; end = end }

abbrev pub used_range : BootHeap → ℕ × ℕ
used_range h = (h.base, h.cur)

unfoldable pub alloc_phys : BootHeap → Layout → Option (ℕ × BootHeap)
alloc_phys h layout =
    let base = align_up h.cur layout.align in
    if ltb h.end base || ltb (wsub h.end base) layout.size
    then none
    else some (base, record h { cur = wadd base layout.size })

-- The allocator of page tables out of the kernel image.
pub record BumpPageTableAlloc : Type 0 where
  pub cur : ℕ
  pub end : ℕ

unfoldable pub allocate_table : BumpPageTableAlloc → Outcome (ℕ × BumpPageTableAlloc)
allocate_table a =
    if leb a.end a.cur then err out_of_memory else ok (a.cur, record a { cur = wadd a.cur 1 })
