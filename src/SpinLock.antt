-- ===== src/SpinLock.antt =====
-- kernel/kernel/src/sync/spinlock.rs: `RawSpinLock` with the cores that lock and unlock it, in any
-- order of their accesses. A core that has the lock may use the data.
pub mod Exclusion
use corrosios.Base.{ℕ, ◌+◌, ◌-◌, ◌%◌, ◌^◌, Bool, true, false, List, [], ◌∷◌, ◌==◌, if◌then◌else◌}

-- Where a core is: outside of the lock, in the loop of `lock`, or between `lock` and `unlock`.
pub data Place : Type 0 where
  outside waiting holding : Place

-- A core, with its count of disabled rescheduling.
pub record LockCore : Type 0 where
  pub place : Place
  pub disable_count : ℕ

pub record RawSpinLock : Type 0 where
  pub locked : Bool

-- `lock` up to its loop.
abbrev begin_lock : LockCore → LockCore
begin_lock c = record { place = waiting; disable_count = (c.disable_count + 1) % 2 ^ 32 }

-- A round of the loop of `lock`.
abbrev swap : RawSpinLock → LockCore → RawSpinLock × LockCore
swap l c = (record { locked = true }, record c { place = if l.locked then waiting else holding })

abbrev unlock : LockCore → RawSpinLock × LockCore
unlock c = (
  record { locked = false },
  record { place = outside; disable_count = (c.disable_count + 2 ^ 32 - 1) % 2 ^ 32 },
)

abbrev pub access : RawSpinLock → Place → LockCore → RawSpinLock × LockCore
access l outside c = (l, begin_lock c)
access l waiting c = swap l c
access l holding c = unlock c

pub record Machine : Type 0 where
  pub lock : RawSpinLock
  pub cores : ℕ → LockCore

abbrev pub after : Machine → ℕ → RawSpinLock × LockCore → Machine
after s i (l, c) = record { lock = l; cores = λ j. if i == j then c else s.cores j }

unfoldable pub run_cores : List ℕ → Machine → Machine
run_cores [] s = s
run_cores (i ∷ is) s = run_cores is (after s i (access s.lock ((s.cores i).place) (s.cores i)))
