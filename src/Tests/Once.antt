-- ===== src/Tests/Once.antt =====
-- lib/spin-once/src/lib.rs: callers that each bring their number.
use corrosios.Base.{ℕ, ◌≡◌, ◌≢◌, true, refl, List, [], ◌∷◌}
use corrosios.Once.{Caller, at_get_or_init, has, broken, new_once, System, run}
use corrosios.Once.Steps.{initializes}
use corrosios.Once.Agreement.{run-agrees}

abbrev numbered : ℕ → Caller ℕ
numbered i = at_get_or_init i

abbrev interleaved : List ℕ
interleaved = 1 ∷ 2 ∷ 1 ∷ 2 ∷ 1 ∷ 2 ∷ 1 ∷ 2 ∷ []

abbrev numbered_end : System ℕ
numbered_end = run interleaved (record { once = new_once; callers = numbered })

-- The first to get to the exchange brings the value.
second_has : numbered_end.callers 2 ≡ has 1
unfolding run
second_has = refl

run-agrees_example :
    ((i : ℕ)
      → (run interleaved (record { once = new_once; callers = numbered })).callers i ≢ broken)
    × ((i j : ℕ)
        → initializes ((run interleaved (record { once = new_once; callers = numbered })).callers i)
          ≡ true
        → initializes ((run interleaved (record { once = new_once; callers = numbered })).callers j)
          ≡ true
        → i ≡ j)
    × ((i j a b : ℕ)
        → (run interleaved (record { once = new_once; callers = numbered })).callers i ≡ has a
        → (run interleaved (record { once = new_once; callers = numbered })).callers j ≡ has b
        → a ≡ b)
run-agrees_example = run-agrees numbered interleaved (λ i. tt)
