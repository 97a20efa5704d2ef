-- ===== src/Tests/SpinLock.antt =====
-- kernel/kernel/src/sync/spinlock.rs: three cores and a lock.
use corrosios.Base.{ℕ, ◌≡◌, refl, arith, false, List, [], ◌∷◌}
use corrosios.SpinLock.{Machine, outside, holding, run_cores}
use corrosios.SpinLock.Exclusion.{IsSound, run_cores-IsSound}

abbrev idle_machine : Machine
idle_machine = record {
  lock = record { locked = false };
  cores = λ i. record { place = outside; disable_count = 0 };
}

abbrev contended : List ℕ
contended = 1 ∷ 2 ∷ 2 ∷ 1 ∷ 1 ∷ 3 ∷ []

second_holds :
    (run_cores contended idle_machine).cores 2 ≡ record { place = holding; disable_count = 1 }
unfolding run_cores
second_holds = refl

run_cores-IsSound_example : IsSound (λ i. 0) (run_cores contended idle_machine)
run_cores-IsSound_example =
    run_cores-IsSound (λ i. 0) contended idle_machine (λ i. omega arith)
      (record {
        alone = λ i j h _. absurd (ground arith);
        held = λ i h. absurd (ground arith);
        counts = λ i. refl;
      })
