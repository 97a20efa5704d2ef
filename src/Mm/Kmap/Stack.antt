-- ===== src/Mm/Kmap/Stack.antt =====
-- kernel/kernel/src/mm/kmap.rs: the slice of a kernel stack.
use corrosios.Base.{
  ℕ, ◌+◌, ◌<◌, ◌≡◌, refl, sym, ap, ◌∙◌, arith, Option, none, some, true, false, [], ◌∷◌, ltb, ◌||◌,
  wadd, usize_mod, ◌^◌, ==_refl, inl, inr,
}
use corrosios.Err.{Error, Outcome, ok, err, panic, Outcome-cases}
use corrosios.Mm.Vm.BTreeMap.{insert, last_below, first_from}
use corrosios.Mm.Types.{Protection}
use corrosios.Mm.Vm.Tree.{
  SliceChild, mapping, child_start, Slice, new_slice, MapBase, fixed, aligned, alloc_spot,
  alloc_spot_fixed,
}
use corrosios.Mm.Vm.Store.{set_slice, add_slice}
use corrosios.Mm.Vm.Store.Shape.{attached}
use corrosios.Mm.Vm.Space.{
  VmObject, AddrSpace, AddrSpaceOps, FrameSource, answer, create_subslice, map_object,
  map_committed, commit,
}
use corrosios.Mm.Kmap.{read_write, drop_stack, dropped_err, stack_made, new_stack}

some_inj : {X : Type 0} {x y : X} → some x ≡ some y → x ≡ y
some_inj e = cc

ok_inj : {m n : ℕ} → ok m ≡ ok n → m ≡ n
ok_inj e = cc

module _ {A : Type 0} where
  made_slice :
      (a a' : AddrSpace A) (slice pages id : ℕ) (r : Outcome (SliceChild × Slice))
      → (answer a r (λ (child, v).
          let made =
            add_slice
              (set_slice a.store slice v)
              (new_slice (some slice) (child_start child) pages) in
          (record a { store = made.1 }, ok made.0)))
        ≡ (a', ok id)
      → (start : ℕ) × (a'.store.slices id ≡ attached (some slice) start pages [])
  unfolding new_slice
  made_slice a a' slice pages id (ok (child, v)) e =
      let is : ok a.store.next_id ≡ ok id = ap (λ r. r.1) e in
      let number : a.store.next_id ≡ id = cc in
      (
        child_start child,
        sym (ap (λ r. r.0.store.slices id) e) ∙ rw (sym number, ==_refl a.store.next_id) refl,
      )
  made_slice a a' slice pages id (err x) e =
      let clash : err x ≡ ok id = ap (λ r. r.1) e in absurd cc
  made_slice a a' slice pages id panic e = let clash : panic ≡ ok id = ap (λ r. r.1) e in absurd cc

  -- A slice that was made is attached to the one it was made in, and empty.
  create_subslice-attached :
      (a a' : AddrSpace A) (slice pages id : ℕ) (base : MapBase)
      → create_subslice a slice base pages ≡ (a', ok id)
      → (start : ℕ) × (a'.store.slices id ≡ attached (some slice) start pages [])
  unfolding create_subslice
  create_subslice-attached a a' slice pages id base e = made_slice a a' slice pages id _ e

  map_stack :
      (objects : ℕ → VmObject) (a : AddrSpace A) (slice parent start object : ℕ)
      → (objects object).page_count ≡ 8
      → start + 9 < usize_mod
      → a.store.slices slice ≡ attached (some parent) start 9 []
      → (m : ℕ) × ((map_object objects a slice
              (fixed (wadd start 1))
              8
              0
              object
              read_write).0.store.slices
            slice
          ≡ attached (some parent) start 9 ((start + 1, mapping m (start + 1) 8) ∷ []))
  unfolding map_object alloc_spot alloc_spot_fixed last_below first_from insert
  map_stack objects a slice parent start object pages small held =
      let first : wadd start 1 ≡ start + 1 = omega arith in
      let end : wadd start 9 ≡ start + 9 = omega arith in
      let short : ltb (start + 1 + 8) (2 ^ 64) ≡ true = ground arith in
      let range : (ltb (start + 1) start || ltb (start + 9) (start + 1 + 8)) ≡ false =
        ground arith in
      (a.store.next_id, rw (pages, held, first, short, end, range, ==_refl slice) refl)

module _ {A : Type 0} (ops : AddrSpaceOps) (source : FrameSource A) where
  -- Committing leaves the slices.
  map_committed-store :
      (objects : ℕ → VmObject) (a : AddrSpace A) (slice page_count object_offset object : ℕ)
      (base : MapBase) (prot : Protection)
      → (map_committed ops source objects a slice base page_count object_offset object prot).0.store
        ≡ (map_object objects a slice base page_count object_offset object prot).0.store
  unfolding map_committed commit
  map_committed-store objects a slice page_count object_offset object base prot =
      elim (Outcome-cases
        ((map_object objects a slice base page_count object_offset object prot).1)) [
          | inl (id, e) ↦ rw (map_committed, e) refl
          | inr (inl (x, e)) ↦ rw (map_committed, e) refl
          | inr (inr e) ↦ rw (map_committed, e) refl
        ]

  dropped_err-ok :
      (d : Option (AddrSpace A × Outcome (Unit {0}))) (x : Error) (a : AddrSpace A) (slice : ℕ)
      → ¬ (dropped_err ops source d x ≡ some (a, ok slice))
  dropped_err-ok none x a slice e = absurd cc
  dropped_err-ok (some (b, ok u)) x a slice e =
      let clash : err x ≡ ok slice = ap (λ r. r.1) (some_inj e) in absurd cc
  dropped_err-ok (some (b, err y)) x a slice e =
      let clash : err y ≡ ok slice = ap (λ r. r.1) (some_inj e) in absurd cc
  dropped_err-ok (some (b, panic)) x a slice e =
      let clash : panic ≡ ok slice = ap (λ r. r.1) (some_inj e) in absurd cc

  -- A stack that is returned is the slice, in the space that the mapping left.
  stack_made-ok :
      (rounds s slice : ℕ) (x : AddrSpace A × Outcome ℕ) (a' : AddrSpace A)
      → stack_made ops source rounds s x ≡ some (a', ok slice)
      → (x.0 ≡ a') × (s ≡ slice)
  stack_made-ok rounds s slice (a, ok id) a' e =
      let same = some_inj e in
      let number : ok s ≡ ok slice = ap (λ r. r.1) same in (ap (λ r. r.0) same, ok_inj number)
  stack_made-ok rounds s slice (a, panic) a' e =
      let clash : panic ≡ ok slice = ap (λ r. r.1) (some_inj e) in absurd cc
  stack_made-ok rounds s slice (a, err x) a' e =
      absurd (dropped_err-ok (drop_stack ops source rounds a s) x a' slice e)

  -- Where `KernelStack::new` returns a stack, with an object of eight pages, the stack's slice is attached
  -- to the root slice, has nine pages, and has one child, a mapping of the last eight: the first page is
  -- left free as a guard.
  pub new_stack-guards :
      (rounds object slice : ℕ) (objects : ℕ → VmObject) (a a' : AddrSpace A)
      → (objects object).page_count ≡ 8
      → new_stack ops source rounds objects a object ≡ some (a', ok slice)
      → ((create_subslice a a.root_slice (aligned 0) 9).0.store.slices slice).start + 9 < usize_mod
      → (start : ℕ) × (m : ℕ) × (a'.store.slices slice
          ≡ attached (some a.root_slice) start 9 ((start + 1, mapping m (start + 1) 8) ∷ []))
  unfolding new_stack
  new_stack-guards rounds object slice objects a a' pages e small =
      elim (Outcome-cases ((create_subslice a a.root_slice (aligned 0) 9).1)) [
        | inr (inl (x, made)) ↦
            let clash : err x ≡ ok slice = ap (λ r. r.1) (some_inj (rw (new_stack, made) at e)) in
            absurd cc
        | inr (inr made) ↦
            let clash : panic ≡ ok slice = ap (λ r. r.1) (some_inj (rw (new_stack, made) at e)) in
            absurd cc
        | inl (s, made) ↦
            let a1 : AddrSpace A = (create_subslice a a.root_slice (aligned 0) 9).0 in
            let (start, held) =
              create_subslice-attached a a1 a.root_slice 9 s (aligned 0) (ap (λ r. (a1, r)) made) in
            let at : (a1.store.slices s).start ≡ start = ap (λ (v : Slice). v.start) held in
            let ends = rw (new_stack, made, at) at e in
            let (left, same) = stack_made-ok rounds s slice _ a' ends in
            let low : start + 9 < usize_mod = rw (sym same, at) at small in
            let (m, mapped) = map_stack objects a1 s a.root_slice start object pages low held in
            (
              start,
              m,
              ap (λ u. a'.store.slices u) (sym same)
                  ∙ (sym (ap (λ t. t.store.slices s) left)
                      ∙ ap (λ t. t.slices s)
                          (map_committed-store objects a1 s 8 0 object (fixed (wadd start 1))
                            read_write)
                      ∙ mapped),
            )
      ]
