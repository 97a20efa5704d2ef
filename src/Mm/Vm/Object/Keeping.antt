-- ===== src/Mm/Vm/Object/Keeping.antt =====
-- kernel/kernel/src/mm/vm/object.rs: a lazy object keeps the frames that it provided.
use corrosios.Base.{ℕ, zero, suc, ◌≡◌, ◌≢◌, refl, sym, ap, ◌∙◌, Option, none, some, List, [], ◌∷◌}
use corrosios.Err.{Outcome, ok, err, panic}
use corrosios.Mm.Vm.Commit.{CommitType}
use corrosios.Mm.Vm.Object.{index, put, frame_box}
use corrosios.Mm.Vm.Object.Lazy.{LazyVmObject, provide_or, provide_page}

index-put :
    {B : Type 0} (xs : List B) (n : ℕ) (x y : B) → index xs n ≡ ok x → index (put xs n y) n ≡ ok y
index-put [] n x y e = absurd cc
index-put (z ∷ xs) zero x y e = refl
index-put (z ∷ xs) (suc n) x y e = index-put xs n x y e

index-put_other :
    {B : Type 0} (xs : List B) (m n : ℕ) (y : B) → m ≢ n → index (put xs n y) m ≡ index xs m
index-put_other [] m n y ne = refl
index-put_other (z ∷ xs) zero zero y ne = absurd (ne refl)
index-put_other (z ∷ xs) zero (suc n) y ne = refl
index-put_other (z ∷ xs) (suc m) zero y ne = refl
index-put_other (z ∷ xs) (suc m) (suc n) y ne = index-put_other xs m n y (λ e. ne (ap suc e))

module _ {A : Type 0} (allocate : A → A × Option ℕ) (deallocate : A → ℕ → A) where
  -- The pages asked for, one after the other; what they answer does not matter.
  abbrev pub provide_all : List (ℕ × CommitType) → LazyVmObject × A → LazyVmObject × A
  provide_all [] s = s
  provide_all ((offset, commit_type) ∷ calls) s =
      provide_all calls (provide_page allocate deallocate offset commit_type s).0

  -- What a call leaves of a frame that is there, by what the call finds at its own offset.
  kept_by :
      (o : LazyVmObject) (a : A) (offset other pfn : ℕ) (found : Outcome (Option ℕ))
      (box : A × Outcome ℕ)
      → frame_box allocate deallocate a ≡ box
      → index o.frames other ≡ found
      → index o.frames offset ≡ ok (some pfn)
      → index ((provide_or allocate deallocate o other a found).0.0.frames) offset ≡ ok (some pfn)
  kept_by o a offset other pfn (ok (some f)) box made at has = has
  kept_by o a offset other pfn (ok none) (a', ok f) made at has =
      let apart : offset ≢ other = λ e.
        let clash : ok (some pfn) ≡ ok none = sym has ∙ ap (index o.frames) e ∙ at in absurd cc in
      rw made (index-put_other o.frames offset other (some f) apart ∙ has)
  kept_by o a offset other pfn (ok none) (a', err e) made at has = rw made has
  kept_by o a offset other pfn (ok none) (a', panic) made at has = rw made has
  kept_by o a offset other pfn (err e) box made at has = has
  kept_by o a offset other pfn panic box made at has = has

  provide_page-keeps :
      (o : LazyVmObject) (a : A) (offset other pfn : ℕ) (commit_type : CommitType)
      → index o.frames offset ≡ ok (some pfn)
      → index ((provide_page allocate deallocate other commit_type (o, a)).0.0.frames) offset
        ≡ ok (some pfn)
  unfolding provide_page
  provide_page-keeps o a offset other pfn commit_type has =
      kept_by o a offset other pfn (index o.frames other) (frame_box allocate deallocate a) refl
        refl has

  provide_all-keeps :
      (calls : List (ℕ × CommitType)) (s : LazyVmObject × A) (offset pfn : ℕ)
      → index s.0.frames offset ≡ ok (some pfn)
      → index (provide_all calls s).0.frames offset ≡ ok (some pfn)
  provide_all-keeps [] s offset pfn has = has
  provide_all-keeps ((other, t) ∷ calls) (o, a) offset pfn has =
      provide_all-keeps calls ((provide_page allocate deallocate other t (o, a)).0) offset pfn
        (provide_page-keeps o a offset other pfn t has)

  -- A call that answers a frame leaves it in the object.
  left_by :
      (o : LazyVmObject) (a : A) (offset pfn : ℕ) (found : Outcome (Option ℕ)) (box : A × Outcome ℕ)
      → frame_box allocate deallocate a ≡ box
      → index o.frames offset ≡ found
      → (provide_or allocate deallocate o offset a found).1 ≡ ok pfn
      → index ((provide_or allocate deallocate o offset a found).0.0.frames) offset ≡ ok (some pfn)
  left_by o a offset pfn (ok (some f)) box made at e = at ∙ cc
  left_by o a offset pfn (ok none) (a', ok f) made at e =
      let same : ok f ≡ ok pfn = rw made at e in
      rw made (index-put o.frames offset none (some f) at ∙ cc)
  left_by o a offset pfn (ok none) (a', err x) made at e =
      let clash : err x ≡ ok pfn = rw made at e in absurd cc
  left_by o a offset pfn (ok none) (a', panic) made at e =
      let clash : panic ≡ ok pfn = rw made at e in absurd cc
  left_by o a offset pfn (err x) box made at e = absurd cc
  left_by o a offset pfn panic box made at e = absurd cc

  -- A page that a lazy object provided once is provided again by any later call, whatever pages were
  -- asked for in between: the call answers the same frame, and neither the object nor the allocator
  -- changes.
  pub provide_page-again :
      (s : LazyVmObject × A) (offset pfn : ℕ) (first second : CommitType)
      (calls : List (ℕ × CommitType))
      → (provide_page allocate deallocate offset first s).1 ≡ ok pfn
      → let later = provide_all calls (provide_page allocate deallocate offset first s).0 in
        provide_page allocate deallocate offset second later ≡ (later, ok pfn)
  unfolding provide_page
  provide_page-again (o, a) offset pfn first second calls e =
      let later = provide_all calls (provide_page allocate deallocate offset first (o, a)).0 in
      let left =
        left_by o a offset pfn (index o.frames offset) (frame_box allocate deallocate a) refl refl
          e in
      let has =
        provide_all-keeps calls (provide_page allocate deallocate offset first (o, a)).0 offset pfn
          left in
      rw has refl
