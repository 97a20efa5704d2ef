-- ===== src/Tests.antt =====
-- Runs of the models on small inputs, and the theorems applied to them.
mod Space
mod Kernel
mod Boot
mod Pmm
mod Usable
mod Tree
mod Commit
mod Bits
mod Mmu
mod Pt
mod Sched
mod Heap
mod Once
mod SpinLock
