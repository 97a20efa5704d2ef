-- ===== src/Once/Agreement.antt =====
-- lib/spin-once/src/lib.rs: what holds of a `Once` whatever the order in which its callers run.
use corrosios.Base.{
  ℕ, ◌≡◌, ◌≢◌, refl, arith, sym, ◌∙◌, some, true, false, List, [], ◌∷◌, ◌==◌, Bool-cases, inl, inr,
}
use corrosios.Once.{
  Once, Caller, at_get, at_get_or_init, at_exchange, at_init, at_write, at_store, at_loop, has,
  has_none, panicked, broken, new_once, step, System, with_step, run,
}
use corrosios.Once.Steps.{
  begun, Agrees, IsFilled, initializes, Steps, step-Steps, initializes-state,
}

module _ {T : Type 0} where
  pub record IsSound (s : System T) : Type 0 where
    pub filled : IsFilled s.once s.once.state
    agree : (i : ℕ) → Agrees s.once (s.callers i)
    pub alone :
        (i j : ℕ) → initializes (s.callers i) ≡ true → initializes (s.callers j) ≡ true → i ≡ j

  -- A caller that initializes after a step is the only one.
  still_alone :
      (s : System T) (i k : ℕ) (r : Once T × Caller T)
      → IsSound s
      → Steps s.once (s.callers i) r
      → i ≢ k
      → initializes (r.1) ≡ true
      → initializes (s.callers k) ≡ true
      → ⊥
  still_alone s i k r inv t ne first second = elim (t.begins first) [
    | inl before ↦ ne (inv.alone i k before second)
    | inr fresh ↦ begun (sym (initializes-state s.once (s.callers k) (inv.agree k) second) ∙ fresh)
  ]

  with_step-IsSound :
      (s : System T) (i : ℕ) → IsSound s → IsSound (with_step s i (step s.once (s.callers i)))
  with_step-IsSound s i inv =
      let r = step s.once (s.callers i) in
      let t : Steps s.once (s.callers i) r =
        step-Steps s.once.value s.once.state (s.callers i) inv.filled (inv.agree i) in
      record {
        filled = t.filled;
        agree = λ j. elim (Bool-cases (i == j)) [
          | inl here ↦ rw here t.agrees
          | inr other ↦
              rw other (t.others (s.callers j) (inv.agree j) (λ first. waits j other first))
        ];
        alone = λ j k hj hk. elim (Bool-cases (i == j)) [
          | inl here ↦ elim (Bool-cases (i == k)) [
            | inl here' ↦ ground arith
            | inr other ↦
                absurd (still_alone s i k r inv t (apart k other) (rw here at hj) (rw other at hk))
          ]
          | inr other ↦ elim (Bool-cases (i == k)) [
            | inl here ↦
                absurd (still_alone s i j r inv t (apart j other) (rw here at hk) (rw other at hj))
            | inr other' ↦ inv.alone j k (rw other at hj) (rw other' at hk)
          ]
        ];
      }
    where
      apart : (j : ℕ) → (i == j) ≡ false → i ≢ j
      apart j e same = ground arith

      waits :
          (j : ℕ)
          → (i == j) ≡ false
          → initializes (s.callers i) ≡ true
          → initializes (s.callers j) ≡ false
      waits j other first = elim (Bool-cases (initializes (s.callers j))) [
        | inr idle ↦ idle
        | inl second ↦ absurd (apart j other (inv.alone i j first second))
      ]

  run-IsSound : (schedule : List ℕ) (s : System T) → IsSound s → IsSound (run schedule s)
  unfolding run
  run-IsSound [] s inv = inv
  run-IsSound (i ∷ is) s inv =
      run-IsSound is (with_step s i (step s.once (s.callers i))) (with_step-IsSound s i inv)

  -- A call that has not begun.
  abbrev IsCall : Caller T → Type 0
  IsCall at_get = Unit
  IsCall (at_get_or_init v) = Unit
  IsCall (at_init v) = Unit
  IsCall _ = ⊥

  call-Agrees : (c : Caller T) → IsCall c → Agrees new_once c × (initializes c ≡ false)
  call-Agrees at_get h = (tt, refl)
  call-Agrees (at_get_or_init v) h = (tt, refl)
  call-Agrees (at_init v) h = (tt, refl)
  call-Agrees (at_exchange v) h = elim h [ ]
  call-Agrees (at_write v) h = elim h [ ]
  call-Agrees (at_store v) h = elim h [ ]
  call-Agrees at_loop h = elim h [ ]
  call-Agrees (has v) h = elim h [ ]
  call-Agrees has_none h = elim h [ ]
  call-Agrees panicked h = elim h [ ]
  call-Agrees broken h = elim h [ ]

  -- A new cell whose callers call `get`, `get_or_init_with` or `init`, run in any order for any number
  -- of steps: no caller reads a value that is not initialized, no two callers initialize at once, and
  -- all callers that have a value have the same.
  pub run-agrees :
      (calls : ℕ → Caller T) (schedule : List ℕ)
      → ((i : ℕ) → IsCall (calls i))
      → ((i : ℕ) → (run schedule (record { once = new_once; callers = calls })).callers i ≢ broken)
        × ((i j : ℕ)
            → initializes ((run schedule (record { once = new_once; callers = calls })).callers i)
              ≡ true
            → initializes ((run schedule (record { once = new_once; callers = calls })).callers j)
              ≡ true
            → i ≡ j)
        × ((i j : ℕ) (a b : T)
            → (run schedule (record { once = new_once; callers = calls })).callers i ≡ has a
            → (run schedule (record { once = new_once; callers = calls })).callers j ≡ has b
            → a ≡ b)
  run-agrees calls schedule begin =
      let s = run schedule (record { once = new_once; callers = calls }) in
      let inv : IsSound s =
        run-IsSound schedule (record { once = new_once; callers = calls })
          (record {
            filled = refl;
            agree = λ i. (call-Agrees (calls i) (begin i)).0;
            alone = λ i j hi hj. absurd (no_begin (calls i) (begin i) hi);
          }) in
      (
        λ i e. rw e at (inv.agree i),
        inv.alone,
        λ i j a b ei ej. some_inj (sym ((rw ei at (inv.agree i)).1) ∙ (rw ej at (inv.agree j)).1),
      )
    where
      some_inj : {a b : T} → some a ≡ some b → a ≡ b
      some_inj e = cc

      no_begin : (c : Caller T) → IsCall c → initializes c ≡ true → ⊥
      no_begin c h first = let idle = (call-Agrees c h).1 in ground arith
