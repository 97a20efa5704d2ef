-- ===== src/Mm/Vm/Object/Lazy.antt =====
-- kernel/kernel/src/mm/vm/object.rs: `LazyVmObject`. Its lock is not modelled: a call is a step.
use corrosios.Base.{ℕ, zero, suc, Option, none, some, List, [], ◌∷◌}
use corrosios.Err.{Outcome, ok, err, panic}
use corrosios.Mm.Vm.Commit.{CommitType}
use corrosios.Mm.Vm.Object.{index, put, frame_box}

pub record LazyVmObject : Type 0 where
  pub page_count : ℕ
  pub frames : List (Option ℕ)

abbrev nones : ℕ → List (Option ℕ)
nones zero = []
nones (suc n) = none ∷ nones n

unfoldable pub new : ℕ → LazyVmObject
new page_count = record { page_count = page_count; frames = nones page_count }

module _ {A : Type 0} (allocate : A → A × Option ℕ) (deallocate : A → ℕ → A) where
  -- The new frame is put into the vector.
  abbrev keep_frame : LazyVmObject → ℕ → A × Outcome ℕ → (LazyVmObject × A) × Outcome ℕ
  keep_frame o offset (a, ok pfn) =
      ((record o { frames = put o.frames offset (some pfn) }, a), ok pfn)
  keep_frame o offset (a, err e) = ((o, a), err e)
  keep_frame o offset (a, panic) = ((o, a), panic)

  abbrev pub provide_or : LazyVmObject → ℕ → A → Outcome (Option ℕ) → (LazyVmObject × A) × Outcome ℕ
  provide_or o offset a (ok (some pfn)) = ((o, a), ok pfn)
  provide_or o offset a (ok none) = keep_frame o offset (frame_box allocate deallocate a)
  provide_or o offset a (err e) = ((o, a), err e)
  provide_or o offset a panic = ((o, a), panic)

  unfoldable pub provide_page : ℕ → CommitType → LazyVmObject × A → (LazyVmObject × A) × Outcome ℕ
  provide_page offset commit_type (o, a) = provide_or o offset a (index o.frames offset)
