-- ===== src/Sched.antt =====
-- kernel/kernel/src/sched.rs, sync/irq.rs and sync/resched.rs: the scheduler of one core with the two
-- states that guard it, the interrupt flag and the count of disabled rescheduling. A thread is a
-- number. A failed assertion or `expect` is `panic`. The switch of stacks and address spaces changes
-- no state of the scheduler, and what runs next is the new thread, which completes the handoff.
pub mod Invariant
pub mod Exit
pub mod Rotation
use corrosios.Base.{
  ℕ, zero, suc, ◌+◌, Option, none, some, Bool, true, false, List, [], ◌∷◌, ◌++◌, ◌==◌, ◌&&◌, not,
  if◌then◌else◌, ◌-◌, ◌%◌, ◌^◌,
}
use corrosios.Err.{Error, Outcome, ok, err, panic, expect, ensure, ◌>>=◌, ◌>>◌}

pub data ThreadState : Type 0 where
  ready running parked dead : ThreadState

-- The new thread of a switch, and the thread to be freed when it is complete.
pub record HandoffState : Type 0 where
  pub new_thread : ℕ
  pub thread_to_free : Option ℕ

-- `CpuState` and `CpuStateInner`; the owners' list, the threads' states, and the core's flag and count.
pub record Sched : Type 0 where
  pub resched_pending : Bool
  pub current_thread : Option ℕ
  pub idle_thread : Option ℕ
  pub run_queue : List ℕ
  pub handoff_state : Option HandoffState
  pub thread_owners : List ℕ
  pub states : ℕ → ThreadState
  pub irq_enabled : Bool
  pub disable_count : ℕ

abbrev set_state : Sched → ℕ → ThreadState → Sched
set_state s t st = record s { states = λ u. if t == u then st else s.states u }

-- sync/irq.rs
abbrev pub irq_disable : Sched → Sched
irq_disable s = record s { irq_enabled = false }

abbrev irq_enable : Sched → Sched
irq_enable s = record s { irq_enabled = true }

-- `IrqDisabled::new`
abbrev new_irq_disabled : Sched → Outcome (Unit {0})
new_irq_disabled s = ensure (not s.irq_enabled)

-- `disable_with`, for a function on the state.
unfoldable pub disable_with {ℓ} :
    {A : Type ℓ} → Sched → (Sched → Outcome (A × Sched)) → Outcome (A × Sched)
disable_with s f = do
  (a, s') ← f (irq_disable s)
  ok (a, if s.irq_enabled then irq_enable s' else s')

-- sync/resched.rs
abbrev resched_disable : Sched → Sched
resched_disable s = record s { disable_count = (s.disable_count + 1) % 2 ^ 32 }

abbrev enable_no_resched : Sched → Sched
enable_no_resched s = record s { disable_count = (s.disable_count + 2 ^ 32 - 1) % 2 ^ 32 }

abbrev enabled_in_irq : Sched → Bool
enabled_in_irq s = s.disable_count == 0

abbrev enabled : Sched → Bool
enabled s = enabled_in_irq s && s.irq_enabled

-- `with_cpu_state_mut`
unfoldable pub with_cpu_state_mut {ℓ} :
    {A : Type ℓ} → Sched → (Sched → Outcome (A × Sched)) → Outcome (A × Sched)
with_cpu_state_mut s f = ensure (enabled_in_irq s) >> f s

-- `take_ready_thread`
abbrev take_ready_thread : Sched → Outcome (ℕ × Sched)
take_ready_thread s = elim s.run_queue [
  | [] ↦ expect s.idle_thread >>= λ t. ok (t, s)
  | t ∷ q ↦ ok (t, record s { run_queue = q })
]

-- The part of `Thread::spawn` behind the creation of the thread.
unfoldable pub spawn : Sched → ℕ → Outcome (Unit {0} × Sched)
spawn s thread = disable_with (set_state s thread ready) (λ s1.
    let s2 = record s1 { thread_owners = s1.thread_owners ++ (thread ∷ []) } in
    with_cpu_state_mut s2 (λ s3. ok (tt, record s3 { run_queue = s3.run_queue ++ (thread ∷ []) })))

unfoldable pub begin_context_switch_handoff : Sched → ℕ → Option ℕ → Outcome (Unit {0} × Sched)
begin_context_switch_handoff s new_thread thread_to_free =
    new_irq_disabled s
    >> with_cpu_state_mut s (λ s1. elim s1.handoff_state [
      | some h ↦ panic
      | none ↦ ok (
        tt,
        record s1 {
          handoff_state =
              some (record { new_thread = new_thread; thread_to_free = thread_to_free });
        },
      )
    ])

-- The owner's list without the thread, if the thread is in it.
unfoldable pub remove_owner : ℕ → List ℕ → Option (List ℕ)
remove_owner t [] = none
remove_owner t (u ∷ us) =
    let later = remove_owner t us in
    if u == t then some us else elim later [ none ↦ none | some us' ↦ some (u ∷ us') ]

abbrev free_owner : Option ℕ → Sched → Outcome (Unit {0} × Sched)
free_owner none s = ok (tt, s)
free_owner (some t) s =
    expect (remove_owner t s.thread_owners) >>= λ us. ok (tt, record s { thread_owners = us })

unfoldable pub complete_context_switch_handoff : Sched → Outcome (Unit {0} × Sched)
complete_context_switch_handoff s =
    new_irq_disabled s
    >> with_cpu_state_mut s (λ s1. expect s1.handoff_state >>= λ h.
        free_owner h.thread_to_free
          (record s1 { handoff_state = none; current_thread = some h.new_thread }))

-- `schedule_common` up to the switch, for a handler of the old thread.
unfoldable pub schedule_begin :
    (Sched → ℕ → Outcome (Option ℕ × Sched)) → Sched → Outcome (Unit {0} × Sched)
schedule_begin old_thread_handler s = do
  new_irq_disabled s
  (picked, s1) ←
      with_cpu_state_mut {A = ℕ × Option ℕ} (record s { resched_pending = false })
        (λ s0. do
          current ← expect s0.current_thread
          (thread_to_free, s2) ← old_thread_handler s0 current
          (new_thread, s3) ← take_ready_thread s2
          ok ((new_thread, thread_to_free), set_state s3 new_thread running))
  begin_context_switch_handoff s1 picked.0 picked.1

unfoldable pub complete_context_switch_handoff_and_enable : Sched → Outcome (Unit {0} × Sched)
complete_context_switch_handoff_and_enable s = do
  (u, s1) ← complete_context_switch_handoff s
  ok (tt, irq_enable s1)

-- What the new thread does first: one that runs for the first time begins in `thread_entry`, any other
-- goes on behind its own `switch_context`.
unfoldable pub resumed : Bool → Sched → Outcome (Unit {0} × Sched)
resumed true s = complete_context_switch_handoff_and_enable s
resumed false s = complete_context_switch_handoff s

-- `schedule_common` with the completion by the new thread. The flag says whether that thread runs for
-- the first time, which its saved context decides.
unfoldable pub schedule_common :
    Bool → (Sched → ℕ → Outcome (Option ℕ × Sched)) → Sched → Outcome (Unit {0} × Sched)
schedule_common first_run old_thread_handler s = do
  (u, s1) ← schedule_begin old_thread_handler s
  resumed first_run s1

abbrev is_running : ThreadState → Bool
is_running running = true
is_running _ = false

-- The handler of `do_resched`.
unfoldable pub requeue : Sched → ℕ → Outcome (Option ℕ × Sched)
requeue s old_thread = do
  ensure (is_running (s.states old_thread))
  let s1 = set_state s old_thread ready
  ok (none, record s1 { run_queue = s1.run_queue ++ (old_thread ∷ []) })

unfoldable pub do_resched : Bool → Sched → Outcome (Unit {0} × Sched)
do_resched first_run s = schedule_common first_run requeue s

unfoldable pub resched_if_pending : Bool → Sched → Outcome (Unit {0} × Sched)
resched_if_pending first_run s =
    let now = do_resched first_run (enable_no_resched (irq_disable s)) in
    ensure (s.disable_count == 1)
    >> (if s.resched_pending then now else ok (tt, enable_no_resched s))

-- `resched::enable`
unfoldable pub resched_enable : Bool → Sched → Outcome (Unit {0} × Sched)
resched_enable first_run s =
    let pending = resched_if_pending first_run s in
    if (s.disable_count == 1) && s.irq_enabled then pending else ok (tt, enable_no_resched s)

unfoldable pub retire : Sched → ℕ → Outcome (Option ℕ × Sched)
retire s old_thread = ok (some old_thread, set_state s old_thread dead)

unfoldable pub exit_current : Bool → Sched → Outcome (Unit {0} × Sched)
exit_current first_run s = ensure (enabled s) >> schedule_common first_run retire (irq_disable s)

-- `start` up to the switch and with the completion that the first thread begins with, for the number
-- of the new idle thread.
unfoldable pub start : ℕ → Sched → Outcome (Unit {0} × Sched)
start idle s = do
  new_irq_disabled s
  (new_thread, s1) ←
      with_cpu_state_mut {A = ℕ} s
        (λ s0. do (t, s2) ← take_ready_thread s0; ok (t, set_state s2 t running))
  (u, s3) ←
      with_cpu_state_mut {A = Unit {0}} s1
        (λ s2. ok (tt, record (set_state s2 idle ready) { idle_thread = some idle }))
  (v, s4) ← begin_context_switch_handoff s3 new_thread none
  complete_context_switch_handoff_and_enable s4
