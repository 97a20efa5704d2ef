-- ===== src/Mm/Pmm.antt =====
-- kernel/kernel/src/mm/pmm.rs: the buddy allocator of physical frames, in `Level` and `Defs`, and
-- its correctness.
pub mod Level
pub mod Defs
pub mod Blocks
pub mod Cover
pub mod Invariant
pub mod LevelMoves
pub mod Moves
pub mod Deallocate
pub mod Split
pub mod Allocate
pub mod FreeRange
pub mod Create
pub mod Count
