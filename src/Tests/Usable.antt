-- ===== src/Tests/Usable.antt =====
-- kernel/kernel/src/mm/utils.rs: one usable range with two holes, and two that miss a hole.
use corrosios.Base.{ℕ, ◌≡◌, refl, arith, some, List, [], ◌∷◌}
use corrosios.Mm.Usable.{carve}
use corrosios.Mm.Usable.Carving.{Carves, carve-Carves}

abbrev holes : List (ℕ × ℕ)
holes = (8, 12) ∷ (15, 18) ∷ []

carve-Carves_example : Carves 10 20 holes (carve 10 20 holes)
carve-Carves_example =
    carve-Carves 10 20 holes (omega arith, omega arith, (omega arith, omega arith, tt))

carve-holes : carve 10 20 holes ≡ some ((12, 15) ∷ (18, 20) ∷ [], [])
unfolding carve
carve-holes = refl
