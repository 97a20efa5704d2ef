-- ===== src/Tests/Sched.antt =====
-- kernel/kernel/src/sched.rs: a core on which thread 2 runs, threads 3 and 4 wait, and 1 is idle.
use corrosios.Base.{
  ℕ, ◌≡◌, refl, arith, some, true, false, List, [], ◌∷◌, ◌==◌, if◌then◌else◌, Bool-cases, inl, inr,
}
use corrosios.Err.{ok}
use corrosios.Sched.{ready, running, dead, do_resched, remove_owner, exit_current, resched_enable}
use corrosios.Sched.Invariant.{Core, sched_of, places, IsSound, rotated, do_resched-rotates}
use corrosios.Sched.Exit.{exited, exit_current-runs_next}
use corrosios.Sched.Rotation.{
  do_resched_times, do_resched_times-reaches, resched_enable-irq_disabled,
}

abbrev busy : Core
busy = record {
  current = 2;
  idle = 1;
  queue = 3 ∷ 4 ∷ [];
  owners = 2 ∷ 3 ∷ 4 ∷ [];
  states = λ t. if 2 == t then running else ready;
}

busy-IsSound : IsSound busy
busy-IsSound = record {
  waiting = λ t h. elim (Bool-cases (2 == t)) [
    | inl two ↦ let e : 2 ≡ t = ground arith in absurd (ground (arith, rw (← e) at h))
    | inr other ↦ rw other refl
  ];
  runs = refl;
  once = λ t. grind arith;
  owned = λ t h ne. omega (arith, h);
}

do_resched-rotates_example :
    (do_resched false (sched_of busy true false 0) ≡ ok (tt, sched_of (rotated busy) false false 0))
    × IsSound (rotated busy)
do_resched-rotates_example = do_resched-rotates busy true false busy-IsSound

exit_current-runs_next_example :
    (us : List ℕ) × (remove_owner 2 busy.owners ≡ some us)
    × (exit_current true (sched_of busy false true 0)
        ≡ ok (tt, sched_of (exited busy us) false true 0))
    × (places (exited busy us) 2 ≡ 0)
    × ((exited busy us).states 2 ≡ dead)
    × IsSound (exited busy us)
exit_current-runs_next_example = exit_current-runs_next busy false true busy-IsSound (omega arith)

do_resched_times-reaches_example :
    (k' : Core) × (do_resched_times (λ n. n == 1) 2 (sched_of busy true false 0)
      ≡ ok (tt, sched_of k' false false 0))
    × (k'.current ≡ 4)
    × IsSound k'
do_resched_times-reaches_example =
    do_resched_times-reaches 1 busy true false (λ n. n == 1) busy-IsSound refl

resched_enable-irq_disabled_example :
    resched_enable false (sched_of busy true true 1)
    ≡ ok (tt, sched_of (rotated busy) false false 0)
resched_enable-irq_disabled_example = resched_enable-irq_disabled busy false busy-IsSound
