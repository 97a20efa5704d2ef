-- ===== src/SpinLock/Exclusion.antt =====
-- kernel/kernel/src/sync/spinlock.rs: one core at a time has the lock, and what the counts are.
use corrosios.Base.{
  ℕ, ◌+◌, ◌<◌, ◌^◌, ◌≡◌, refl, arith, Bool, true, false, List, [], ◌∷◌, ◌==◌, Bool-cases, inl, inr,
}
use corrosios.SpinLock.{
  Place, outside, waiting, holding, LockCore, RawSpinLock, access, Machine, after, run_cores,
}

abbrev has_lock : Place → Bool
has_lock holding = true
has_lock _ = false

-- How often a core has disabled rescheduling for the lock.
abbrev disables : Place → ℕ
disables outside = 0
disables _ = 1

pub record IsSound (base : ℕ → ℕ) (s : Machine) : Type 0 where
  pub alone :
      (i j : ℕ) → has_lock ((s.cores i).place) ≡ true → has_lock ((s.cores j).place) ≡ true → i ≡ j
  pub held : (i : ℕ) → has_lock ((s.cores i).place) ≡ true → s.lock.locked ≡ true
  pub counts : (i : ℕ) → (s.cores i).disable_count ≡ base i + disables ((s.cores i).place)

-- An access, seen by the lock and by the other cores.
record Accesses (n : ℕ) (l : RawSpinLock) (p : Place) (r : RawSpinLock × LockCore) : Type 0 where
  takes : has_lock ((r.1).place) ≡ true → ((r.0).locked ≡ true) × (l.locked ≡ false)
  keeps : has_lock p ≡ false → l.locked ≡ true → (r.0).locked ≡ true
  count : (r.1).disable_count ≡ n + disables ((r.1).place)

access-Accesses :
    (n : ℕ) (locked : Bool) (p : Place) (d : ℕ)
    → n + 1 < 2 ^ 32
    → d ≡ n + disables p
    → Accesses n
        (record { locked = locked })
        p
        (access (record { locked = locked }) p (record { place = p; disable_count = d }))
access-Accesses n locked outside d small e = record {
  takes = λ h. absurd (ground arith);
  keeps = λ _ h. h;
  count = omega (arith, e);
}
access-Accesses n true waiting d small e = record {
  takes = λ h. absurd (ground arith);
  keeps = λ _ h. h;
  count = e;
}
access-Accesses n false waiting d small e = record {
  takes = λ h. (refl, refl);
  keeps = λ _ h. refl;
  count = e;
}
access-Accesses n locked holding d small e = record {
  takes = λ h. absurd (ground arith);
  keeps = λ h _. absurd (ground arith);
  count = omega (arith, e);
}

after-IsSound :
    (base : ℕ → ℕ) (s : Machine) (i : ℕ)
    → ((j : ℕ) → base j + 1 < 2 ^ 32)
    → IsSound base s
    → IsSound base (after s i (access s.lock ((s.cores i).place) (s.cores i)))
after-IsSound base s i small inv =
    let r = access s.lock ((s.cores i).place) (s.cores i) in
    let t : Accesses (base i) s.lock ((s.cores i).place) r =
      access-Accesses (base i) s.lock.locked ((s.cores i).place) ((s.cores i).disable_count)
        (small i) (inv.counts i) in
    record {
      alone = λ j k hj hk. elim (Bool-cases (i == j)) [
        | inl here ↦ elim (Bool-cases (i == k)) [
          | inl here' ↦ ground arith
          | inr other ↦ absurd (no_both ((t.takes (rw here at hj)).1) (inv.held k (rw other at hk)))
        ]
        | inr other ↦ elim (Bool-cases (i == k)) [
          | inl here ↦ absurd (no_both ((t.takes (rw here at hk)).1) (inv.held j (rw other at hj)))
          | inr other' ↦ inv.alone j k (rw other at hj) (rw other' at hk)
        ]
      ];
      held = λ j h. elim (Bool-cases (i == j)) [
        | inl here ↦ (t.takes (rw here at h)).0
        | inr other ↦ t.keeps (not_holder j other (rw other at h)) (inv.held j (rw other at h))
      ];
      counts = λ j. elim (Bool-cases (i == j)) [
        | inl here ↦ let e : i ≡ j = ground arith in rw (here, ← e) t.count
        | inr other ↦ rw other (inv.counts j)
      ];
    }
  where
    no_both : {b : Bool} → b ≡ false → b ≡ true → ⊥
    no_both e h = ground arith

    not_holder :
        (j : ℕ)
        → (i == j) ≡ false
        → has_lock ((s.cores j).place) ≡ true
        → has_lock ((s.cores i).place) ≡ false
    not_holder j other h = elim (Bool-cases (has_lock ((s.cores i).place))) [
      | inr free ↦ free
      | inl both ↦ let e : i ≡ j = inv.alone i j both h in absurd (ground arith)
    ]

-- From a state with at most one holder, in which it has the lock locked, in any order of accesses: at
-- most one core has the lock, the lock is locked where one has it, and each core's count of disabled
-- rescheduling is one more than its own from the beginning of `lock` to the end of `unlock`.
pub run_cores-IsSound :
    (base : ℕ → ℕ) (schedule : List ℕ) (s : Machine)
    → ((i : ℕ) → base i + 1 < 2 ^ 32)
    → IsSound base s
    → IsSound base (run_cores schedule s)
unfolding run_cores
run_cores-IsSound base [] s small inv = inv
run_cores-IsSound base (i ∷ is) s small inv =
    run_cores-IsSound base is (after s i (access s.lock ((s.cores i).place) (s.cores i))) small
      (after-IsSound base s i small inv)
