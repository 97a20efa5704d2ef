-- ===== src/Mm/Usable.antt =====
-- kernel/kernel/src/mm/utils.rs: `iter_usable_ranges`, which cuts the reserved ranges out of the usable
-- ones. The calls of `func` are the list of their arguments, and `none` is a failed assertion.
pub mod Carving
use corrosios.Base.{
  ℕ, ◌≤◌, Option, none, some, Bool, List, [], ◌∷◌, ◌++◌, ltb, leb, ◌||◌, if◌then◌else◌, ◌>>=◌,
}

-- The call of `func` on a range that is not empty.
abbrev pub report : ℕ → ℕ → List (ℕ × ℕ)
report start end = if ltb start end then (start, end) ∷ [] else []

abbrev pub before :
    List (ℕ × ℕ) → Option (List (ℕ × ℕ) × List (ℕ × ℕ)) → Option (List (ℕ × ℕ) × List (ℕ × ℕ))
before reports none = none
before reports (some (later, left)) = some (reports ++ later, left)

-- `iter_usable_ranges` for the current usable range: the reports, and the reserved ranges that are
-- left in the iterator.
unfoldable pub carve : ℕ → ℕ → List (ℕ × ℕ) → Option (List (ℕ × ℕ) × List (ℕ × ℕ))
carve start end [] = some (report start end, [])
carve start end ((from, to) ∷ reserved) =
    let later = carve to end reserved in
    if ltb to from
    then none
    else if leb end from || ltb to start
    then some (report start end, (from, to) ∷ reserved)
    else if ltb end to
    then some (report start from, (from, to) ∷ reserved)
    else if leb end to
    then some (report start from, reserved)
    else before (report start from) later

unfoldable pub iter_usable_ranges : List (ℕ × ℕ) → List (ℕ × ℕ) → Option (List (ℕ × ℕ))
iter_usable_ranges [] reserved = some []
iter_usable_ranges ((start, end) ∷ usable) reserved = do
  (reports, left) ← carve start end reserved
  later ← iter_usable_ranges usable left
  some (reports ++ later)
