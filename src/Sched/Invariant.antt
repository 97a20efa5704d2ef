-- ===== src/Sched/Invariant.antt =====
-- kernel/kernel/src/sched.rs: the states between two switches, and that every operation goes from one
-- to another.
use corrosios.Base.{
  ==_refl, ℕ, ◌+◌, ◌≤◌, ◌<◌, ◌≡◌, ◌≢◌, refl, arith, none, some, Bool, true, false, List, [], ◌∷◌,
  ◌++◌, ◌==◌, to_nat, if◌then◌else◌, count, count-append, inl, inr, Bool-cases,
}
use corrosios.Err.{ok}
use corrosios.Sched.{
  ThreadState, ready, running, Sched, with_cpu_state_mut, disable_with, spawn,
  begin_context_switch_handoff, complete_context_switch_handoff,
  complete_context_switch_handoff_and_enable, resumed, schedule_begin, schedule_common, requeue,
  do_resched,
}

-- What a core is about between two switches: a thread runs, others wait in a queue, and the idle
-- thread is known.
pub record Core : Type 0 where
  pub current : ℕ
  pub idle : ℕ
  pub queue : List ℕ
  pub owners : List ℕ
  pub states : ℕ → ThreadState

abbrev pub sched_of : Core → Bool → Bool → ℕ → Sched
sched_of k pending irqs count = record {
  resched_pending = pending;
  current_thread = some k.current;
  idle_thread = some k.idle;
  run_queue = k.queue;
  handoff_state = none;
  thread_owners = k.owners;
  states = k.states;
  irq_enabled = irqs;
  disable_count = count;
}

-- In how many places a thread is about to run.
abbrev pub places : Core → ℕ → ℕ
places k t = count t k.queue + to_nat (k.current == t)

-- Waiting threads are ready, the current one is running, no thread is in two places, and the scheduler
-- owns every thread but the idle one.
pub record IsSound (k : Core) : Type 0 where
  pub waiting : (t : ℕ) → 0 < count t k.queue → k.states t ≡ ready
  pub runs : k.states k.current ≡ running
  pub once : (t : ℕ) → places k t ≤ 1
  pub owned : (t : ℕ) → 0 < places k t → t ≢ k.idle → 0 < count t k.owners

-- The thread that runs next when `c` goes to the end of the queue, and the queue then.
abbrev pub next_of : List ℕ → ℕ → ℕ
next_of [] c = c
next_of (t ∷ q) c = t

abbrev pub rest_of : List ℕ → ℕ → List ℕ
rest_of [] c = []
rest_of (t ∷ q) c = q ++ (c ∷ [])

abbrev pub rotated : Core → Core
rotated k = record k {
  current = next_of k.queue k.current;
  queue = rest_of k.queue k.current;
  states = λ u.
      if next_of k.queue k.current == u
      then running
      else if k.current == u
      then ready
      else k.states u;
}

do_resched-rotated :
    (k : Core) (q : List ℕ) (pending first_run : Bool)
    → k.queue ≡ q
    → k.states k.current ≡ running
    → do_resched first_run (sched_of k pending false 0)
      ≡ ok (tt, sched_of (rotated k) false first_run 0)
unfolding do_resched resumed complete_context_switch_handoff_and_enable schedule_common
    schedule_begin with_cpu_state_mut requeue begin_context_switch_handoff
    complete_context_switch_handoff
do_resched-rotated k [] pending true e runs = rw (e, runs) refl
do_resched-rotated k [] pending false e runs = rw (e, runs) refl
do_resched-rotated k (t ∷ q) pending true e runs = rw (e, runs) refl
do_resched-rotated k (t ∷ q) pending false e runs = rw (e, runs) refl

places-rotated : (k : Core) (q : List ℕ) (u : ℕ) → k.queue ≡ q → places (rotated k) u ≡ places k u
places-rotated k [] u e = rw e (omega arith)
places-rotated k (t ∷ q) u e = rw e (omega (arith, count-append u q (k.current ∷ [])))

-- A thread that is not the current one is in the queue where it is in a place at all.
waits_elsewhere : (n c : ℕ) → n + to_nat false ≡ c + to_nat false → 0 < n → 0 < c
waits_elsewhere n c e h = omega arith

rotated-IsSound : (k : Core) → IsSound k → IsSound (rotated k)
rotated-IsSound k inv =
    let same : (u : ℕ) → places (rotated k) u ≡ places k u = λ u. places-rotated k k.queue u refl in
    record {
      waiting = λ u h. elim (Bool-cases (next_of k.queue k.current == u)) [
        | inl now ↦ absurd (twice u now h (same u))
        | inr later ↦ elim (Bool-cases (k.current == u)) [
          | inl before ↦ rw (later, before) refl
          | inr other ↦
              let still : 0 < count u k.queue =
                waits_elsewhere _ _ (rw (later, other) at (same u)) h in
              rw (later, other) (inv.waiting u still)
        ]
      ];
      runs = rw (==_refl (next_of k.queue k.current)) refl;
      once = λ u. omega (arith, same u, inv.once u);
      owned = λ u h ne. inv.owned u (omega (arith, same u)) ne;
    }
  where
    twice :
        (u : ℕ)
        → (next_of k.queue k.current == u) ≡ true
        → 0 < count u (rest_of k.queue k.current)
        → places (rotated k) u ≡ places k u
        → ⊥
    twice u now h same = omega (arith, inv.once u, same, rw now at same)

-- From a sound state between two switches, with interrupts off and rescheduling enabled, `do_resched`
-- does not panic: the current thread goes to the end of the queue and the head of the queue runs, which
-- is the current thread again where none waits, and the state is sound. Interrupts are on afterwards
-- exactly where the thread that runs then does so for the first time.
pub do_resched-rotates :
    (k : Core) (pending first_run : Bool)
    → IsSound k
    → (do_resched first_run (sched_of k pending false 0)
        ≡ ok (tt, sched_of (rotated k) false first_run 0))
      × IsSound (rotated k)
do_resched-rotates k pending first_run inv =
    (do_resched-rotated k k.queue pending first_run refl inv.runs, rotated-IsSound k inv)

-- A thread that the scheduler does not know.
abbrev IsNew : Core → ℕ → Type 0
IsNew k t = (places k t ≡ 0) × (t ≢ k.idle)

abbrev pub spawned : Core → ℕ → Core
spawned k t = record k {
  queue = k.queue ++ (t ∷ []);
  owners = k.owners ++ (t ∷ []);
  states = λ u. if t == u then ready else k.states u;
}

-- From a sound state with rescheduling enabled, `spawn` of a new thread does not panic, puts the thread
-- at the end of the queue, leaves the interrupt flag as it was, and the state is sound.
pub spawn-spawned :
    (k : Core) (pending irqs : Bool) (t : ℕ)
    → IsSound k
    → IsNew k t
    → (spawn (sched_of k pending irqs 0) t ≡ ok (tt, sched_of (spawned k t) pending irqs 0))
      × IsSound (spawned k t)
unfolding spawn disable_with with_cpu_state_mut
spawn-spawned k pending irqs t inv (nowhere, not_idle) = (
  flag irqs,
  record {
    waiting = λ u h. elim (Bool-cases (t == u)) [
      | inl here ↦ rw here refl
      | inr other ↦ rw other (inv.waiting u (omega (arith, added u, h, rw other at (added u))))
    ];
    runs = elim (Bool-cases (t == k.current)) [
      | inl here ↦
          let e : t ≡ k.current = ground arith in
          absurd (omega (arith, rw (e, ==_refl k.current) at nowhere))
      | inr other ↦ rw other inv.runs
    ];
    once = λ u. elim (Bool-cases (t == u)) [
      | inl here ↦
          let e : t ≡ u = ground arith in
          omega (arith, added u, rw e at nowhere, rw here at (added u))
      | inr other ↦ omega (arith, inv.once u, rw other at (added u))
    ];
    owned = λ u h ne. elim (Bool-cases (t == u)) [
      | inl here ↦ omega (arith, rw here at (count-append u k.owners (t ∷ [])))
      | inr other ↦ omega (
        arith,
        rw other at (count-append u k.owners (t ∷ [])),
        inv.owned u (omega (arith, h, rw other at (added u))) ne,
      )
    ];
  },
)
  where
    added : (u : ℕ) → count u (k.queue ++ (t ∷ [])) ≡ count u k.queue + (to_nat (t == u) + 0)
    added u = count-append u k.queue (t ∷ [])

    flag :
        (irqs : Bool)
        → spawn (sched_of k pending irqs 0) t ≡ ok (tt, sched_of (spawned k t) pending irqs 0)
    flag true = refl
    flag false = refl
