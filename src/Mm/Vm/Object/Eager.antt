-- ===== src/Mm/Vm/Object/Eager.antt =====
-- kernel/kernel/src/mm/vm/object.rs: `EagerVmObject`.
use corrosios.Base.{ℕ, zero, suc, Option, List, [], ◌∷◌, ◌++◌, length}
use corrosios.Err.{Outcome, ok, err, panic, ◌>>=◌}
use corrosios.Mm.Vm.Commit.{CommitType}
use corrosios.Mm.Vm.Object.{index, frame_box, drop_frames}

pub record EagerVmObject : Type 0 where
  pub frames : List ℕ

abbrev pub page_count : EagerVmObject → ℕ
page_count o = length o.frames

abbrev pub provide_page : EagerVmObject → ℕ → CommitType → Outcome ℕ
provide_page o offset commit_type = index o.frames offset

module _ {A : Type 0} (allocate : A → A × Option ℕ) (deallocate : A → ℕ → A) where
  -- A round of the loop of `new`, with the frames that are in the vector. On an error the vector is
  -- dropped.
  abbrev pub filled :
      (List ℕ → A → A × Outcome (List ℕ)) → List ℕ → A × Outcome ℕ → A × Outcome (List ℕ)
  filled more frames (a, ok f) = more (frames ++ (f ∷ [])) a
  filled more frames (a, err e) = (drop_frames allocate deallocate frames a, err e)
  filled more frames (a, panic) = (a, panic)

  unfoldable pub fill : ℕ → List ℕ → A → A × Outcome (List ℕ)
  fill zero frames a = (a, ok frames)
  fill (suc n) frames a = filled (fill n) frames (frame_box allocate deallocate a)

  unfoldable pub new : ℕ → A → A × Outcome EagerVmObject
  new n a = let (a', r) = fill n [] a in (a', r >>= λ frames. ok (record { frames = frames }))
