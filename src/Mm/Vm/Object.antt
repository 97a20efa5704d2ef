-- ===== src/Mm/Vm/Object.antt =====
-- kernel/kernel/src/mm/vm/object.rs: the objects that provide pages, a module each. A `FrameBox` is the
-- number of its frame. What `pmm` does is a parameter. A vector has room for what it reserved.
pub mod Eager
pub mod Lazy
pub mod Phys
pub mod Keeping
use corrosios.Base.{ℕ, zero, suc, Option, none, some, List, [], ◌∷◌}
use corrosios.Err.{Error, out_of_memory, Outcome, ok, err, panic, ok_or}

-- `v[n]`, read and written.
abbrev pub index {ℓ} : {B : Type ℓ} → List B → ℕ → Outcome B
index [] n = panic
index (x ∷ xs) zero = ok x
index (x ∷ xs) (suc n) = index xs n

abbrev pub put {ℓ} : {B : Type ℓ} → List B → ℕ → B → List B
put [] n y = []
put (x ∷ xs) zero y = y ∷ xs
put (x ∷ xs) (suc n) y = x ∷ put xs n y

module _ {A : Type 0} (allocate : A → A × Option ℕ) (deallocate : A → ℕ → A) where
  -- `FrameBox::new`
  unfoldable pub frame_box : A → A × Outcome ℕ
  frame_box a = let (a', pfn) = allocate a in (a', ok_or pfn out_of_memory)

  -- The drop of a vector of frames.
  abbrev pub drop_frames : List ℕ → A → A
  drop_frames [] a = a
  drop_frames (f ∷ fs) a = drop_frames fs (deallocate a f)
