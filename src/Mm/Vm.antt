-- ===== src/Mm/Vm.antt =====
-- kernel/kernel/src/mm/vm: address spaces.
pub mod BTreeMap
pub mod Tree
pub mod Store
pub mod Object
pub mod Space
pub mod Kernel
pub mod Commit
pub mod Gather
