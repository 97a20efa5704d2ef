-- ===== src/Lib.antt =====
-- Verification of corrosios, a kernel for x86-64 with its boot loader and tools. The kernel takes
-- physical memory over from the loader's memory map: a boot heap serves the first requests, a buddy
-- allocator then owns all frames, and address spaces map the frames of memory objects in a tree of
-- slices. The models here are of the parts that keep this state:
--
--   Err                     kernel/kernel/src/err.rs: the error constants (`Error`) and results. An
--                           `Outcome` is `ok`, `err` or `panic`.
--   NumUtils                lib/num-utils/src/lib.rs: rounding and logarithms on `usize`.
--   Bitmap                  lib/bitmap/src/lib.rs: bits in a slice of bytes, a list of numbers. Its
--                           `set` is `set_bit` here.
--   Bootinfo                kernel/bootinfo: the builder, the view, and how items are packed.
--   Bootparse               kernel/kernel/src/bootparse.rs: the command line and `BootinfoData`.
--   Utf8                    the standard library's `str::from_utf8` and `Utf8Chunks`, which bootparse.rs
--                           uses, and `display_utf8_lossy`.
--   Mm.Early                kernel/kernel/src/mm/early.rs: `BootHeap` and the bump allocator of page
--                           tables.
--   Mm.Types                kernel/kernel/src/mm/types.rs: permissions, access types, cache modes, and
--                           the arithmetic of pages and addresses.
--   Mm.Mmu                  kernel/kernel/src/arch/x86_64/mmu.rs: the entries of page tables, as numbers
--                           of 64 bits.
--   Mm.Pt                   kernel/kernel/src/mm/pt.rs: `MappingPointer` and `walk_level`; `map` in Map,
--                           `unmap` and `protect` in Update, `cull_tables` in Cull. Walks has what they
--                           share.
--   Mm.Physmap              kernel/kernel/src/mm/physmap.rs: the map of physical memory.
--   Mm.Heap                 kernel/kernel/src/mm/heap.rs: the classes of sizes; `SizeClassInner` in Slab,
--                           with `allocate` as `allocate_object` and `deallocate` as
--                           `deallocate_object`; the allocator over the classes in Alloc.
--   Mm.Kimage               kernel/kernel/src/kimage.rs: the frames and pages of the kernel image.
--   Mm.Init                 kernel/kernel/src/mm/init.rs: the reserved and the usable ranges at boot.
--   Mm.Kmap                 kernel/kernel/src/mm/kmap.rs: `kmap`, `iomap`, and kernel stacks.
--   Mm.Usable               kernel/kernel/src/mm/utils.rs: `iter_usable_ranges`; `carve` is its inner
--                           loop.
--   Mm.Pmm                  kernel/kernel/src/mm/pmm.rs: `BuddyLevel` in Level, `PhysManager` in
--                           Defs. It uses Bitmap for the split bitmaps and Mm.Early for their memory.
--   Mm.Vm.Tree              kernel/kernel/src/mm/vm/aspace/tree.rs: one slice with its children, which
--                           are kept in the ordered map of Mm.Vm.BTreeMap.
--   Mm.Vm.Store             kernel/kernel/src/mm/vm/aspace/tree.rs: the slices and mappings of an address
--                           space, `get_mapping` and `detach_children`.
--   Mm.Vm.Object            kernel/kernel/src/mm/vm/object.rs: the eager, the lazy and the physical
--                           object.
--   Mm.Vm.Space             kernel/kernel/src/mm/vm/aspace.rs: the operations of `AddrSpace`; `map` is
--                           `map_object` and `unmap` is `unmap_mapping`.
--   Mm.Vm.Kernel            kernel/kernel/src/mm/vm/kernel_aspace.rs and kernel/kernel/src/mm/vm.rs: what is
--                           reserved for the kernel, and `page_fault`.
--   Mm.Vm.Commit            kernel/kernel/src/mm/vm/aspace.rs: the page ranges of `fault` and
--                           `commit`, and `do_commit`.
--   Mm.Vm.Gather            kernel/kernel/src/mm/vm/aspace.rs: `PendingInvalidationGather`.
--   Sched                   kernel/kernel/src/sched.rs, sync/irq.rs and sync/resched.rs beside it: the
--                           scheduler of one core with the interrupt flag and the count of disabled
--                           rescheduling.
--   Once                    lib/spin-once/src/lib.rs: `Once` and `TakeOnce` with callers whose accesses
--                           interleave; `get` is `get_value`.
--   SpinLock                kernel/kernel/src/sync/spinlock.rs: `RawSpinLock` with cores whose accesses
--                           interleave.
--   Base                    shared tests, lists, options and 64-bit arithmetic.
--   Tests                   runs on small inputs, and the theorems at concrete inputs.
--
-- Numbers. An address, a frame number and a page number are natural numbers below 2 ^ 64. Addition,
-- subtraction and shifts of `usize` are those of a release build, modulo 2 ^ 64 (`wadd`, `wsub`,
-- `wshl`); where a theorem needs a bound so that nothing wraps, the bound is a hypothesis. In the
-- frame allocator and the bitmap `none` stands for a panic (a failed assertion, an index out of
-- bounds); in the other parts a panic is `panic`.
--
-- State. An operation takes the state and answers with the new one. The free lists of the frame
-- allocator are lists of frame numbers: the links that the kernel writes into the free frames, and
-- the intrusive list that it uses, are another library's. The locks around the
-- frame manager and the heap's classes are not modelled. A child of a slice names its object by a
-- number, and carries the start and the size, which never change. `QCell` and the names of slices are left out, and so
-- are failures to allocate the metadata other than as an answer of the function that builds a child.
--
-- Loops. The search of `allocate` and the merges of `deallocate` run over the sixteen orders. The
-- loop of `add_free_range` runs on fuel, one round for each frame of the range and one more; a block
-- has one frame at least, so the fuel is enough. The walk over the gaps
-- of a slice is recursion on its children, and `commit_loop` runs over the number of pages.
--
-- The rounds of `get_mapping` are the depth of the tree; those of `detach_children` are one for each
-- mapping, two for each slice below the root and one for the root. An operation that runs out of rounds
-- is `none`. A view's loop has as many rounds as the buffer has bytes; an item takes eight at least.
--
-- Parameters. Mm.Vm.Commit takes the page table's state and its `map`, and a mapping carries its
-- object's `provide_page` and `cache_mode`, which the kernel calls through a trait. The builder of a
-- child is an argument of `alloc_spot`, as in the source.
--
-- The page tables are a function of a table's frame and an index. A walk carries the pointer with the
-- state and ends as `done`, `failed`, `panicked`, or, in the model only, `stuck`, where its fuel runs
-- out; the fuel is the number of pages that remain. The allocator of tables, what is told of flushes,
-- and what culls tables are parameters, as the traits of pt.rs are. In Mm.Heap the functions of pmm.rs
-- are parameters, the memory behind a slab's header is a counter with a bitmap, and the size of the
-- header, which holds another library's link, is a parameter too. In Sched a thread is a number, and a
-- switch between threads goes on in the new thread with the completion of the handoff. Whether that
-- thread runs for the first time, and so enables interrupts, is an argument of the switch.
--
-- A step of a caller of a `Once`, or of a core at a `RawSpinLock`, is what it does up to its next access
-- of the shared state, and a schedule is a list of callers or cores. Accesses are in one order, which is what Acquire and Release give here.
--
-- In an address space every slice and mapping has a number, under which a store keeps it; the numbers
-- stand for the pointers of the source. Mm.Vm.Space composes the store with the page tables of Mm.Pt; the
-- frame allocator, the objects and what `AddrSpaceOps` answers are parameters there. A buffer of Bootinfo
-- is an address, a length and a function from offsets to bytes; a value in it is given by its bytes, its
-- type by its size and alignment.
--
-- Not modelled. The early mapper and the set-up of the map of physical memory, and the order of the
-- calls at initialization; the part of an address space for user programs that sets the processor's
-- registers; the guard of a spinlock and the boot loader, for which there are no models yet; the creation
-- of threads; the hardware support other than the entries of page tables, the
-- firmware's bindings, logging and the host tools, which keep no state of their own.
pub mod Base
pub mod Err
pub mod NumUtils
pub mod Bitmap
pub mod Bootinfo
pub mod Utf8
pub mod Bootparse
pub mod Mm
pub mod Sched
pub mod Once
pub mod SpinLock
mod Tests
