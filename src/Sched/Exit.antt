-- ===== src/Sched/Exit.antt =====
-- kernel/kernel/src/sched.rs: how a thread exits.
use corrosios.Base.{
  ==_refl, ℕ, ◌+◌, ◌<◌, ◌≡◌, ◌≢◌, refl, arith, some, Bool, true, false, List, [], ◌∷◌, ◌==◌, to_nat,
  if◌then◌else◌, count, inl, inr, Bool-cases,
}
use corrosios.Err.{ok}
use corrosios.Sched.{
  running, dead, with_cpu_state_mut, begin_context_switch_handoff, remove_owner,
  complete_context_switch_handoff, complete_context_switch_handoff_and_enable, resumed,
  schedule_begin, schedule_common, retire, exit_current,
}
use corrosios.Sched.Invariant.{Core, sched_of, places, IsSound, next_of}

-- What removal of an owner gives: the list without one of the thread's occurrences.
abbrev pub Removes : ℕ → List ℕ → Type 0
Removes t owners =
    (us : List ℕ) × (remove_owner t owners ≡ some us)
    × ((u : ℕ) → count u us + to_nat (t == u) ≡ count u owners)

Removes-cons : (t v : ℕ) (vs : List ℕ) → (v == t) ≡ false → Removes t vs → Removes t (v ∷ vs)
unfolding remove_owner
Removes-cons t v vs other (us, e, same) = (v ∷ us, rw (other, e) refl, λ u. omega (arith, same u))

-- Removal of an owner succeeds where the thread is in the list.
remove_owner-Removes : (t : ℕ) (owners : List ℕ) → 0 < count t owners → Removes t owners
unfolding remove_owner
remove_owner-Removes t [] h = elim h [ ]
remove_owner-Removes t (v ∷ vs) h = elim (Bool-cases (v == t)) [
  | inl here ↦ let e : v ≡ t = ground arith in (vs, rw here refl, λ u. rw e (omega arith))
  | inr other ↦ Removes-cons t v vs other (remove_owner-Removes t vs (omega (arith, rw other at h)))
]

abbrev pub tail : List ℕ → List ℕ
tail [] = []
tail (t ∷ q) = q

-- The state when the current thread has exited and its owner is out of the list.
abbrev pub exited : Core → List ℕ → Core
exited k owners = record k {
  current = next_of k.queue k.idle;
  queue = tail k.queue;
  owners = owners;
  states = λ u.
      if next_of k.queue k.idle == u then running else if k.current == u then dead else k.states u;
}

exit_current-exited :
    (k : Core) (q us : List ℕ) (pending first_run : Bool)
    → remove_owner k.current k.owners ≡ some us
    → exit_current first_run (sched_of (record k { queue = q }) pending true 0)
      ≡ ok (tt, sched_of (exited (record k { queue = q }) us) false first_run 0)
unfolding exit_current resumed complete_context_switch_handoff_and_enable schedule_common
    schedule_begin with_cpu_state_mut retire begin_context_switch_handoff
    complete_context_switch_handoff
exit_current-exited k [] us pending true r = rw r refl
exit_current-exited k [] us pending false r = rw r refl
exit_current-exited k (t ∷ q) us pending true r = rw r refl
exit_current-exited k (t ∷ q) us pending false r = rw r refl

-- What an exit does to the places where a thread is about to run.
places-exited :
    (k : Core) (q us : List ℕ) (u : ℕ)
    → u ≢ k.idle
    → places (exited (record k { queue = q }) us) u + to_nat (k.current == u)
      ≡ places (record k { queue = q }) u
places-exited k [] us u ne = elim (Bool-cases (k.idle == u)) [
  | inl idle ↦ absurd (ne (ground arith))
  | inr other ↦ rw other (omega arith)
]
places-exited k (t ∷ q) us u ne = omega arith

exited-IsSound :
    (k : Core) (q us : List ℕ)
    → IsSound (record k { queue = q })
    → ((u : ℕ) → count u us + to_nat (k.current == u) ≡ count u k.owners)
    → IsSound (exited (record k { queue = q }) us)
exited-IsSound k [] us inv same = record {
  waiting = λ u h. absurd (omega arith);
  runs = rw (==_refl k.idle) refl;
  once = λ u. elim (Bool-cases (k.idle == u)) [
    | inl idle ↦ rw idle (omega arith)
    | inr other ↦ rw other (omega arith)
  ];
  owned = λ u h ne. elim (Bool-cases (k.idle == u)) [
    | inl idle ↦ absurd (ne (ground arith))
    | inr other ↦ absurd (omega (arith, rw other at h))
  ];
}
exited-IsSound k (t ∷ q) us inv same = record {
  waiting = λ u h. elim (Bool-cases (t == u)) [
    | inl now ↦ absurd (omega (arith, h, rw now at (inv.once u)))
    | inr later ↦ elim (Bool-cases (k.current == u)) [
      | inl before ↦ absurd (omega (arith, h, rw before at (inv.once u)))
      | inr other ↦ rw (later, other) (inv.waiting u (omega arith))
    ]
  ];
  runs = rw (==_refl t) refl;
  once = λ u. omega (arith, inv.once u);
  owned = λ u h ne. elim (Bool-cases (k.current == u)) [
    | inl before ↦ absurd (omega (arith, h, rw before at (inv.once u)))
    | inr other ↦ omega (arith, inv.owned u (omega (arith, h)) ne, rw other at (same u))
  ];
}

-- In a sound state with interrupts on and rescheduling enabled, a current thread that is not the idle
-- one exits: `exit_current` does not panic, the thread's owner is removed from the list, the head of
-- the queue runs, or the idle thread where none waits, the thread is dead and nowhere, and the state is
-- sound. Interrupts are on afterwards exactly where the next thread runs for the first time.
pub exit_current-runs_next :
    (k : Core) (pending first_run : Bool)
    → IsSound k
    → k.current ≢ k.idle
    → (us : List ℕ) × (remove_owner k.current k.owners ≡ some us)
      × (exit_current first_run (sched_of k pending true 0)
          ≡ ok (tt, sched_of (exited k us) false first_run 0))
      × (places (exited k us) k.current ≡ 0)
      × ((exited k us).states k.current ≡ dead)
      × IsSound (exited k us)
exit_current-runs_next k pending first_run inv ne =
    let r : Removes k.current k.owners =
      remove_owner-Removes k.current k.owners
        (inv.owned k.current (rw (==_refl k.current) (omega arith)) ne) in
    let nowhere : places (exited k r.0) k.current ≡ 0 = omega (
      arith,
      rw (==_refl k.current) at (inv.once k.current),
      rw (==_refl k.current) at (places-exited k k.queue r.0 k.current ne),
    ) in
    (
      r.0,
      r.1,
      exit_current-exited k k.queue r.0 pending first_run r.1,
      nowhere,
      gone k r.0 nowhere,
      exited-IsSound k k.queue r.0 inv r.2,
    )
  where
    gone :
        (k : Core) (us : List ℕ)
        → places (exited k us) k.current ≡ 0
        → (exited k us).states k.current ≡ dead
    gone k us nowhere = elim (Bool-cases (next_of k.queue k.idle == k.current)) [
      | inl same ↦ absurd (omega (arith, rw same at nowhere))
      | inr other ↦ rw (other, ==_refl k.current) refl
    ]
