-- ===== src/Mm/Vm/Space/Unmapping.antt =====
-- kernel/kernel/src/mm/vm/aspace.rs: what `unmap` and `unmap_slice` do to the slices.
use corrosios.Base.{
  ℕ, ◌+◌, ◌≤◌, ◌<◌, ◌≡◌, ◌≢◌, ◌∙◌, refl, ap, sym, arith, Option, none, some, List, count, ◌⊎◌, inl,
  inr, Option-cases, ==_refl,
}
use corrosios.Err.{Outcome, ok, err, panic}
use corrosios.Mm.Pt.{Walked, Tables, done, failed, panicked, stuck}
use corrosios.Mm.Vm.BTreeMap
use corrosios.Mm.Vm.Gather.{PendingInvalidationGather}
use corrosios.Mm.Vm.Tree.{SliceChild, SliceInner, Slice, remove_child}
use corrosios.Mm.Vm.Tree.Tiles.{Tiles}
use corrosios.Mm.Vm.Tree.Removal.{Removes, remove-Removes}
use corrosios.Mm.Vm.Store.{Store, MappingInner, set_slice, detach_children}
use corrosios.Mm.Vm.Store.Shape.{node, Kids, Holds, ids, attached}
use corrosios.Mm.Vm.Store.Rounds.{kids_rounds, set_slice_here, set_slice_other, HoldsAll-same, once}
use corrosios.Mm.Vm.Store.Detaching.{DetachesTree, detach_children-DetachesTree}
use corrosios.Mm.Vm.Space.{
  AddrSpace, AddrSpaceOps, FrameSource, answer_opt, flush_and_cull, do_unmap, unmap_mapping,
  unmap_slice,
}

module _ {A : Type 0} (ops : AddrSpaceOps) (source : FrameSource A) where
  -- Unmapping pages leaves the slices, and ends or panics.
  abbrev LeavesStore : Store → AddrSpace A × Outcome (Unit {0}) → Type 0
  LeavesStore s (a, r) = (a.store ≡ s) × ((r ≡ ok tt) ⊎ (r ≡ panic))

  flush_and_cull-store :
      (a : AddrSpace A) (start n : ℕ) (w : Walked (Tables × PendingInvalidationGather))
      → LeavesStore a.store (flush_and_cull ops source a start n w)
  unfolding flush_and_cull
  flush_and_cull-store a start n (done, p, s) = (refl, inl refl)
  flush_and_cull-store a start n (failed e, p, s) = (refl, inr refl)
  flush_and_cull-store a start n (panicked, p, s) = (refl, inr refl)
  flush_and_cull-store a start n (stuck, p, s) = (refl, inr refl)

  do_unmap-store :
      (a : AddrSpace A) (start n : ℕ) → LeavesStore a.store (do_unmap ops source a start n)
  unfolding do_unmap
  do_unmap-store a start n = flush_and_cull-store a start n _

  -- An `unmap` after which the mapping's key is not in its parent.
  unmapped_again :
      (a : AddrSpace A) (id : ℕ) (i : MappingInner) (p : SliceInner)
      → (a.store.mappings id).inner ≡ some i
      → (a.store.slices i.parent).inner ≡ some p
      → BTreeMap.remove ((a.store.mappings id).start) p.children ≡ none
      → unmap_mapping ops source a id ≡ (a, panic)
  unfolding unmap_mapping remove_child
  unmapped_again a id i p held attached_parent gone = rw (held, attached_parent, gone) refl

  unmapped_once :
      (a : AddrSpace A) (id : ℕ) (i : MappingInner) (p : SliceInner) (cs : List (ℕ × SliceChild))
      → (a.store.mappings id).inner ≡ some i
      → (a.store.slices i.parent).inner ≡ some p
      → BTreeMap.remove ((a.store.mappings id).start) p.children ≡ some cs
      → LeavesStore
          (set_slice a.store i.parent
            (record (a.store.slices i.parent) { inner = some (record p { children = cs }) }))
          (unmap_mapping ops source a id)
  unfolding unmap_mapping remove_child
  unmapped_once a id i p cs held attached_parent left =
      rw (held, attached_parent, left) (do_unmap-store _ _ _)

  -- After an `unmap` of an attached mapping, whose parent has children that lie apart, an `unmap` of the
  -- same mapping panics: the mapping is still attached, but is no child of its parent any more.
  pub unmap_mapping-twice :
      (a a' : AddrSpace A) (id lo hi : ℕ) (i : MappingInner) (p : SliceInner)
      → (a.store.mappings id).inner ≡ some i
      → (a.store.slices i.parent).inner ≡ some p
      → Tiles lo hi p.children
      → unmap_mapping ops source a id ≡ (a', ok tt)
      → unmap_mapping ops source a' id ≡ (a', panic)
  unmap_mapping-twice a a' id lo hi i p held attached_parent tiles e =
      elim (Option-cases (BTreeMap.remove ((a.store.mappings id).start) p.children)) [
        | inl missing ↦
            let first : unmap_mapping ops source a id ≡ (a, panic) =
              unmapped_again a id i p held attached_parent missing in
            let clash : panic ≡ ok tt = ap (λ r. r.1) (sym first ∙ e) in absurd cc
        | inr (cs, left) ↦
            let r : Removes ((a.store.mappings id).start) lo hi p.children cs =
              remove-Removes _ lo hi p.children cs tiles left in
            let store : a'.store
                ≡ set_slice a.store i.parent (record (a.store.slices i.parent) {
                  inner = some (record p { children = cs });
                }) =
              (rw e at (unmapped_once a id i p cs held attached_parent left)).0 in
            unmapped_again a' id i (record p { children = cs }) (rw store held)
              (rw (store, ==_refl (i.parent)) refl) (rw store r.gone)
      ]

not_outside : (parent u : ℕ) (l : List ℕ) → count parent l ≡ 0 → 0 < count u l → u ≢ parent
not_outside parent u l out there same = omega (arith, out, rw same at there)

-- A slice without its inner part.
abbrev pub shut : Slice → Slice
shut v = record v { inner = none }

-- What `unmap_slice` does to the slices: every slice of the tree is detached, the slice is no child of its
-- parent any more, and no other slice and no mapping is changed.
abbrev pub Unmaps :
    {A : Type 0}
    → Store
    → (parent : ℕ) → Slice
    → List ℕ
    → Option (AddrSpace A × Outcome (Unit {0}))
    → Type 0
Unmaps s parent v tree (some (a, r)) =
    ((r ≡ ok tt) ⊎ (r ≡ panic))
    × ((u : ℕ) → 0 < count u tree → a.store.slices u ≡ shut (s.slices u))
    × (a.store.slices parent ≡ v)
    × ((u : ℕ) → count u tree ≡ 0 → u ≢ parent → a.store.slices u ≡ s.slices u)
    × (a.store.mappings ≡ s.mappings)
Unmaps s parent v tree none = ⊥

module _ {A : Type 0} (ops : AddrSpaceOps) (source : FrameSource A) where
  -- The end of `unmap_slice`, by what `detach_children` made of the store without the child.
  detached_then :
      (a : AddrSpace A) (s : Store) (parent id start pages from n : ℕ) (v : Slice) (ks : Kids)
      (r : Option (Outcome Store))
      → count parent (ids (node id start pages ks)) ≡ 0
      → s ≡ set_slice a.store parent v
      → DetachesTree s (node id start pages ks) r
      → Unmaps a.store parent v
          (ids (node id start pages ks))
          (answer_opt a r (λ s'. do_unmap ops source (record a { store = s' }) from n))
  detached_then a s parent id start pages from n v ks (some (ok s')) out e
        (gone, kept, mappings_kept) =
      let (store, ended) = do_unmap-store ops source (record a { store = s' }) from n in
      let inside : (u : ℕ) → 0 < count u (ids (node id start pages ks)) → u ≢ parent =
        λ (u : ℕ) there. not_outside parent u (ids (node id start pages ks)) out there in
      (
        ended,
        λ u there.
            ap (λ t. t.slices u) store
            ∙ gone u there
            ∙ ap (λ t. shut (t.slices u)) e
            ∙ ap shut (set_slice_other a.store parent u v (inside u there)),
        ap (λ t. t.slices parent) store
            ∙ kept parent out
            ∙ ap (λ t. t.slices parent) e
            ∙ set_slice_here a.store parent v,
        λ u outside other.
            ap (λ t. t.slices u) store
            ∙ kept u outside
            ∙ ap (λ t. t.slices u) e
            ∙ set_slice_other a.store parent u v other,
        ap (λ t. t.mappings) store ∙ mappings_kept ∙ ap (λ t. t.mappings) e,
      )
  detached_then a s parent id start pages from n v ks (some (err x)) out e d = absurd d
  detached_then a s parent id start pages from n v ks (some panic) out e d = absurd d
  detached_then a s parent id start pages from n v ks none out e d = absurd d

  -- Where a slice below the root is attached with the tree of slices below it, no slice twice, and its
  -- parent outside of the tree has it as a child, `unmap_slice` ends, with the rounds that detaching
  -- needs; it returns or panics, and answers no error. In both cases every slice of the tree is detached,
  -- the parent has the children that are left when the slice's key is removed, and no other slice and no
  -- mapping is changed.
  pub unmap_slice-Unmaps :
      (a : AddrSpace A) (slice start pages parent more start' pages' : ℕ) (above : Option ℕ)
      (ks : Kids) (cs cs' : List (ℕ × SliceChild))
      → Holds a.store (some parent) (node slice start pages ks)
      → ((u : ℕ) → count u (ids (node slice start pages ks)) ≤ 1)
      → count parent (ids (node slice start pages ks)) ≡ 0
      → a.store.slices parent ≡ attached above start' pages' cs
      → BTreeMap.remove start cs ≡ some cs'
      → Unmaps a.store parent
          (attached above start' pages' cs')
          (ids (node slice start pages ks))
          (unmap_slice ops source (kids_rounds ks 1 + more) a slice)
  unfolding Holds ids unmap_slice remove_child
  unmap_slice-Unmaps a slice start pages parent more start' pages' above ks cs cs' (held, inner)
        apart out attached_parent left =
      let v : Slice = attached above start' pages' cs' in
      let s : Store = set_slice a.store parent v in
      let inside : (u : ℕ) → 0 < count u (ids (node slice start pages ks)) → u ≢ parent =
        λ (u : ℕ) there. not_outside parent u (ids (node slice start pages ks)) out there in
      let itself : 0 < count slice (ids (node slice start pages ks)) =
        omega (arith, once slice slice refl) in
      let holds : Holds s (some parent) (node slice start pages ks) = (
        set_slice_other a.store parent slice v (inside slice itself) ∙ held,
        HoldsAll-same a.store s slice ks
            (λ u there. set_slice_other a.store parent u v (inside u (omega (arith, there)))) inner,
      ) in
      rw (unmap_slice, held, attached_parent, left)
        (detached_then a s parent slice start pages (a.store.slices slice).start
          (a.store.slices slice).page_count v ks (detach_children (kids_rounds ks 1 + more) s slice)
          out refl
          (detach_children-DetachesTree s (some parent) slice start pages more ks holds apart))
