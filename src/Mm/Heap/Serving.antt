-- ===== src/Mm/Heap/Serving.antt =====
-- kernel/kernel/src/mm/heap.rs: what `SizeClassInner::allocate` serves.
use mathlib.Core.Logic.{Lift}
use corrosios.Base.{
  ==_refl, ℕ, ◌<◌, ◌≡◌, ◌≢◌, refl, arith, Option, none, some, true, List, [], ◌∷◌, count, ◌==◌, inl,
  inr, ◌⊎◌, replicate, usize_mod, ◌-◌, ◌∙◌,
}
use corrosios.Err.{Outcome, ok, err, panic}
use corrosios.Mm.Types.{page_addr}
use corrosios.Mm.Physmap.{pfn_to_physmap}
use corrosios.Mm.Heap.{SizeClassMeta, bitmap_bytes}
use corrosios.Mm.Heap.Slab.{
  Slab, SizeClassInner, take_partial_slab, alloc_slab, alloc_virt_pages, find_slab, allocate_object,
  write_slab,
}
use corrosios.Mm.Heap.Slabs.{IsSound, different, Takes, object_at, take_object-Takes, blank-IsSlab}

-- The slab is in the block of the frame allocator's answer.
abbrev FromBlock {ℓ} : {P : Type ℓ} → Outcome (Option ℕ × P) → P → ℕ → Type ℓ
FromBlock answer f slab =
    (n : ℕ) × (answer ≡ ok (some n, f)) × (slab ≡ page_addr (pfn_to_physmap n))

-- What `allocate` answers: none where no slab has room and the frame allocator answered that it has no
-- block, or an object of a slab that has room with the frame allocator as it was, or an object of a
-- new slab in the block that the frame allocator gave.
abbrev pub Serves {ℓ} :
    {P : Type ℓ}
    → (ℕ → P → Outcome (Option ℕ × P))
    → SizeClassMeta
    → SizeClassInner P
    → Outcome (Option ℕ × SizeClassInner P)
    → Type ℓ
Serves pmm_allocate m s (ok (none, s')) =
    (s.partial_slabs ≡ [])
    × (pmm_allocate m.slab_order s.frames ≡ ok (none, s'.frames))
    × (s'.partial_slabs ≡ [])
    × ((u : ℕ) → s'.slabs u ≡ s.slabs u)
Serves pmm_allocate m s (ok (some ptr, s')) =
    (slab : ℕ) × (i : ℕ) × (before : Slab) × (ptr ≡ object_at m slab i)
    × Takes m slab i before s s'
    × (((0 < count slab s.partial_slabs) × (before ≡ s.slabs slab) × (s'.frames ≡ s.frames))
        ⊎ ((s.partial_slabs ≡ [])
            × (before.allocated ≡ 0)
            × FromBlock (pmm_allocate m.slab_order s.frames) s'.frames slab))
Serves pmm_allocate m s (err e) = Lift ⊥
Serves pmm_allocate m s panic = Lift ⊥

-- The same step, seen from a state with the same slabs elsewhere.
Takes-from {ℓ} :
    {P : Type ℓ} (m : SizeClassMeta) (slab i : ℕ) (before : Slab) (s s0 s' : SizeClassInner P)
    → ((u : ℕ) → u ≢ slab → s0.slabs u ≡ s.slabs u)
    → Takes m slab i before s0 s'
    → Takes m slab i before s s'
Takes-from m slab i before s s0 s' same t = record {
  in_slab = t.in_slab;
  was_free = t.was_free;
  marks = t.marks;
  counts = t.counts;
  others = λ u ne. t.others u ne ∙ same u ne;
  sound = t.sound;
}

module _ {ℓ} {P : Type ℓ} (m : SizeClassMeta) (some_objects : 0 < m.objects_per_slab)
    (small : m.objects_per_slab < usize_mod - 8) where
  from_partial :
      (pmm_allocate : ℕ → P → Outcome (Option ℕ × P)) (s : SizeClassInner P) (a : ℕ) (rest : List ℕ)
      → IsSound m (record s { partial_slabs = a ∷ rest })
      → Serves pmm_allocate m
          (record s { partial_slabs = a ∷ rest })
          (allocate_object pmm_allocate m (record s { partial_slabs = a ∷ rest }))
  unfolding allocate_object find_slab take_partial_slab
  from_partial pmm_allocate s a rest inv =
      let s0 : SizeClassInner P = record s { partial_slabs = rest } in
      let here : (a == a) ≡ true = ==_refl a in
      let apart : count a rest ≡ 0 = omega (arith, rw here at (inv.once a)) in
      let linked : 0 < count a (a ∷ rest) = rw here (omega arith) in
      let rest_IsSound : IsSound m s0 = record {
        once = λ b. omega (arith, inv.once b);
        slab = λ b h. inv.slab b (omega (arith, h));
        part = λ b h. inv.part b (omega (arith, h));
      } in
      let (i, s', e, kept, t) =
        take_object-Takes m a s0 (omega arith) rest_IsSound apart (inv.slab a linked)
          (inv.part a linked) in
      rw e (
        a,
        i,
        s.slabs a,
        refl,
        Takes-from m a i (s.slabs a) (record s { partial_slabs = a ∷ rest }) s0 s' (λ u ne. refl) t,
        inl (linked, refl, kept),
      )

  from_frames :
      (pmm_allocate : ℕ → P → Outcome (Option ℕ × P)) (s : SizeClassInner P) (r : Option ℕ) (f : P)
      → pmm_allocate m.slab_order s.frames ≡ ok (r, f)
      → Serves pmm_allocate m
          (record s { partial_slabs = [] })
          (allocate_object pmm_allocate m (record s { partial_slabs = [] }))
  unfolding allocate_object find_slab take_partial_slab alloc_slab alloc_virt_pages
  from_frames pmm_allocate s none f e = rw e (refl, e, refl, λ u. refl)
  from_frames pmm_allocate s (some n) f e =
      let a = page_addr (pfn_to_physmap n) in
      let v0 : Slab = record {
        allocated = 0;
        objects = record { bytes = replicate (bitmap_bytes m) 0 };
      } in
      let s0 : SizeClassInner P = write_slab (record s { partial_slabs = []; frames = f }) a v0 in
      let fresh : s0.slabs a ≡ v0 = rw (==_refl a) refl in
      let nothing : IsSound m s0 = record {
        once = λ b. omega arith;
        slab = λ b h. absurd (omega arith);
        part = λ b h. absurd (omega arith);
      } in
      let (i, s', e', kept, t) =
        take_object-Takes m a s0 (omega arith) nothing refl (rw fresh (blank-IsSlab m small))
          (rw fresh some_objects) in
      rw (e, e')
        (
          a,
          i,
          s0.slabs a,
          refl,
          Takes-from m a i (s0.slabs a) (record s { partial_slabs = [] }) s0 s'
              (λ u ne. rw (different a u ne) refl) t,
          inr (refl, rw fresh refl, (n, rw kept e, refl)),
        )

  -- From a sound state of a class with at least one object in a slab and fewer than 2 ^ 64 - 8, where
  -- the frame allocator answers, `allocate` does not panic. It takes a free object of a partial slab, with
  -- the frame allocator as it was, or of a new slab in the block that the frame allocator gives where
  -- there is no partial one, marks this object alone, and leaves the state sound; it fails only where
  -- there is no partial slab and the frame allocator answers that it has no block.
  pub allocate_object-Serves :
      (pmm_allocate : ℕ → P → Outcome (Option ℕ × P)) (s : SizeClassInner P)
      → IsSound m s
      → ((f : P) → (r : Option ℕ) × (f' : P) × (pmm_allocate m.slab_order f ≡ ok (r, f')))
      → Serves pmm_allocate m s (allocate_object pmm_allocate m s)
  allocate_object-Serves pmm_allocate s inv answers = go s.partial_slabs inv
    where
      go :
          (q : List ℕ)
          → IsSound m (record s { partial_slabs = q })
          → Serves pmm_allocate m
              (record s { partial_slabs = q })
              (allocate_object pmm_allocate m (record s { partial_slabs = q }))
      go [] i = let (r, f', e) = answers s.frames in from_frames pmm_allocate s r f' e
      go (a ∷ rest) i = from_partial pmm_allocate s a rest i
