-- ===== src/Mm.antt =====
-- kernel/kernel/src/mm: the memory manager.
pub mod Types
pub mod Early
pub mod Usable
pub mod Pmm
pub mod Mmu
pub mod Pt
pub mod Physmap
pub mod Heap
pub mod Kmap
pub mod Kimage
pub mod Init
pub mod Vm
