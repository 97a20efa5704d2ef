-- ===== src/Mm/Vm/BTreeMap.antt =====
-- The ordered map of the standard library, as far as kernel/kernel/src/mm/vm/aspace/tree.rs uses it:
-- the list of its entries by increasing key.
use corrosios.Base.{ℕ, Option, none, some, List, [], ◌∷◌, ltb, ◌==◌, if◌then◌else◌}

module _ {ℓ} {V : Type ℓ} where
  -- An entry at the key, if there is one, is replaced.
  unfoldable pub insert : ℕ → V → List (ℕ × V) → List (ℕ × V)
  insert k v [] = (k, v) ∷ []
  insert k v ((j, w) ∷ m) =
      let later = insert k v m in
      if ltb k j then (k, v) ∷ (j, w) ∷ m else if j == k then (k, v) ∷ m else (j, w) ∷ later

  -- The map without the key, if the key is in it.
  unfoldable pub remove : ℕ → List (ℕ × V) → Option (List (ℕ × V))
  remove k [] = none
  remove k ((j, w) ∷ m) =
      let later = remove k m in
      if j == k then some m else elim later [ none ↦ none | some m' ↦ some ((j, w) ∷ m') ]

  abbrev or_else : Option (ℕ × V) → ℕ × V → ℕ × V
  or_else none e = e
  or_else (some e') e = e'

  -- `range(..k).next_back()`
  unfoldable pub last_below : ℕ → List (ℕ × V) → Option (ℕ × V)
  last_below k [] = none
  last_below k ((j, w) ∷ m) =
      let later = last_below k m in if ltb j k then some (or_else later (j, w)) else none

  -- `range(k..).next()`
  unfoldable pub first_from : ℕ → List (ℕ × V) → Option (ℕ × V)
  first_from k [] = none
  first_from k ((j, w) ∷ m) = let later = first_from k m in if ltb j k then later else some (j, w)
