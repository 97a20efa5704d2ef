-- ===== src/Sched/Rotation.antt =====
-- kernel/kernel/src/sched.rs and sync/resched.rs: a thread that waits runs after as many switches as
-- stand before it, and what enabling of rescheduling does with a switch that is pending.
use corrosios.Base.{
  ℕ, zero, suc, ◌≡◌, refl, arith, some, Bool, true, false, List, [], ◌∷◌, ◌++◌, get_elem?,
}
use corrosios.Err.{Outcome, ok, ◌>>=◌}
use corrosios.Sched.{Sched, irq_disable, do_resched, resched_if_pending, resched_enable}
use corrosios.Sched.Invariant.{
  Core, sched_of, IsSound, next_of, rest_of, rotated, do_resched-rotates,
}

-- As many preemptions, one after another, each with interrupts off and rescheduling enabled. The flags
-- say, from the last one on, whether the thread that is switched to runs for the first time.
unfoldable pub do_resched_times : (ℕ → Bool) → ℕ → Sched → Outcome (Unit {0} × Sched)
do_resched_times first_runs zero s = ok (tt, s)
do_resched_times first_runs (suc n) s = do
  (u, s1) ← do_resched (first_runs n) (irq_disable s)
  do_resched_times first_runs n s1

get_elem?-rest :
    (q : List ℕ) (c k : ℕ) {t : ℕ}
    → get_elem? q (suc k) ≡ some t
    → get_elem? (rest_of q c) k ≡ some t
get_elem?-rest [] c k e = absurd (ground arith)
get_elem?-rest (u ∷ q) c k e = get_elem?-append q (c ∷ []) k e
  where
    get_elem?-append :
        (xs ys : List ℕ) (i : ℕ) {t : ℕ} → get_elem? xs i ≡ some t → get_elem? (xs ++ ys) i ≡ some t
    get_elem?-append [] ys i e = absurd (ground arith)
    get_elem?-append (x ∷ xs) ys zero e = e
    get_elem?-append (x ∷ xs) ys (suc i) e = get_elem?-append xs ys i e

-- A thread at position `i` of the queue of a sound state is the current one after `i + 1` preemptions,
-- none of which panics, and the state is sound then, whichever of the threads that are switched to run
-- for the first time.
pub do_resched_times-reaches :
    (i : ℕ) (k : Core) (pending irqs : Bool) (first_runs : ℕ → Bool) {t : ℕ}
    → IsSound k
    → get_elem? k.queue i ≡ some t
    → (k' : Core) × (do_resched_times first_runs (suc i) (sched_of k pending irqs 0)
        ≡ ok (tt, sched_of k' false (first_runs 0) 0))
      × (k'.current ≡ t)
      × IsSound k'
unfolding do_resched_times
do_resched_times-reaches zero k pending irqs first_runs inv e =
    let (runs, inv') = do_resched-rotates k pending (first_runs 0) inv in
    (rotated k, rw runs refl, head k.queue k.current e, inv')
  where
    head : (q : List ℕ) (c : ℕ) {t : ℕ} → get_elem? q 0 ≡ some t → next_of q c ≡ t
    head [] c e = absurd (ground arith)
    head (u ∷ q) c e = ground arith
do_resched_times-reaches (suc i) k pending irqs first_runs inv e =
    let (runs, inv') = do_resched-rotates k pending (first_runs (suc i)) inv in
    rw runs (
      do_resched_times-reaches i (rotated k) false (first_runs (suc i)) first_runs inv'
        (get_elem?-rest k.queue k.current i e))

-- From a sound state with a preemption pending, rescheduling disabled once and interrupts on,
-- `resched::enable` switches threads without a panic. Interrupts are off afterwards where the thread that
-- is switched to was switched out before, and on where it runs for the first time.
pub resched_enable-irq_disabled :
    (k : Core) (first_run : Bool)
    → IsSound k
    → resched_enable first_run (sched_of k true true 1)
      ≡ ok (tt, sched_of (rotated k) false first_run 0)
unfolding resched_enable resched_if_pending
resched_enable-irq_disabled k first_run inv = rw ((do_resched-rotates k true first_run inv).0) refl
