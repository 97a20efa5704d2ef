-- ===== src/Tests/Commit.antt =====
-- kernel/kernel/src/mm/vm/aspace.rs: a commit of four pages, in two runs.
use corrosios.Base.{
  ℕ, ◌+◌, ◌<◌, ◌≤◌, ◌≡◌, refl, arith, some, true, false, List, [], ◌∷◌, if◌then◌else◌, wadd, ltb,
}
use corrosios.Err.{Outcome, ok}
use corrosios.Mm.Vm.Commit.{commit_write, Mapping, CommitRange, MappingRun, do_commit, commit_loop}
use corrosios.Mm.Types.{Protection, PageTablePerms, CacheMode, cached}
use corrosios.Mm.Vm.Commit.Runs.{map_runs, map_run, pages_of, each_page, do_commit-runs}

-- The page table is the list of the requests, the last one first.
abbrev log_map :
    ℕ
    → ℕ
    → ℕ
    → PageTablePerms
    → CacheMode
    → List (ℕ × ℕ × ℕ)
    → List (ℕ × ℕ × ℕ) × Outcome (Unit {0})
log_map vpn size pfn perms mode log = ((vpn, size, pfn) ∷ log, ok tt)

abbrev kernel_perms : PageTablePerms
kernel_perms = record {
  p_read = false;
  p_write = false;
  p_execute = false;
  p_user = false;
  p_global = true;
}

abbrev read_write : Protection
read_write = record { can_read = true; can_write = true; can_execute = false }

-- The frames of an object: the first three of its pages are adjacent.
abbrev frame_of : ℕ → ℕ
frame_of offset = if ltb offset 3 then offset + 100 else 7

abbrev mapped : Mapping
mapped = record {
  start = 50;
  page_count = 4;
  object_offset = 0;
  provide_page = λ offset kind. ok (frame_of offset);
  cache_mode = cached;
  prot = some read_write;
}

abbrev whole : CommitRange
whole = record { mapping = mapped; commit_type = commit_write; offset = 0; page_count = 4 }

do_commit_log :
    do_commit log_map kernel_perms (ok whole) [] ≡ ((53, 1, 7) ∷ (50, 3, 100) ∷ [], ok tt)
unfolding do_commit commit_loop
do_commit_log = refl

provides : (o : ℕ) → 0 ≤ o → o < 4 → mapped.provide_page (wadd o 0) commit_write ≡ ok (frame_of o)
provides o lo hi = let e : wadd o 0 ≡ o = omega arith in rw e refl

do_commit-runs_example :
    (rs : List MappingRun) × ((s : List (ℕ × ℕ × ℕ))
      → do_commit log_map kernel_perms (ok whole) s
        ≡ map_runs (map_run log_map kernel_perms mapped read_write) rs s)
    × (pages_of rs ≡ each_page frame_of 0 4)
do_commit-runs_example =
    do_commit-runs log_map kernel_perms whole read_write frame_of refl (omega arith) provides
