-- ===== src/Mm/Pmm/Deallocate.antt =====
-- kernel/kernel/src/mm/pmm.rs: `deallocate` adds exactly the frames of its block to the free ones.
use corrosios.Base.{
  ℕ, zero, suc, ◌+◌, ◌-◌, ◌^◌, ◌≤◌, ◌<◌, ◌≡◌, refl, arith, true, false, some, get_elem?, Bool-cases,
  inl, inr, ◌>>=◌, assert, get_elem?-total,
}
use corrosios.Base.Bits.{pow-double}
use corrosios.Bitmap.Laws.{bit}
use corrosios.Mm.Pmm.Level
use corrosios.Mm.Pmm.Level.{BuddyLevel}
use corrosios.Mm.Pmm.Defs.{
  PhysManager, order_count, splitmap_index, buddy_of, parent_of, push_free, remove_free, merge_up,
  deallocate,
}
use corrosios.Mm.Pmm.Blocks.{IsPair, IsPair-of_aligned}
use corrosios.Mm.Pmm.Cover.{within, within_split, cover, with_level, cover-with_level}
use corrosios.Mm.Pmm.Invariant.{IsBlock, Toggled}
use corrosios.Mm.Pmm.LevelMoves.{push-LevelInv, push_top-LevelInv, remove-LevelInv}
use corrosios.Mm.Pmm.Moves.{
  Inv, Frees, IsAllocated, Inv-with_level, toggle_at, push_again, remove_again, count_uncovered,
  push_known, uncovered_start, on_level-with_level,
}

within_parent :
    (p k : ℕ)
    → IsPair p k
    → (x : ℕ)
    → within (parent_of p k) (2 ^ (k + 1)) x ≡ within p (2 ^ k) x + within (buddy_of p k) (2 ^ k) x
within_parent p k pair x =
    rw (pow-double k) (ground (arith, pair.halves, within_split (parent_of p k) (2 ^ k) (2 ^ k) x))

parent_below :
    (max p k : ℕ)
    → IsPair p k
    → IsBlock max k p
    → IsBlock max k (buddy_of p k)
    → parent_of p k + 2 ^ (k + 1) ≤ max
parent_below max p k pair b c = ground (arith, pair.halves, pow-double k)

module _ {max : ℕ} {m : PhysManager} (inv : Inv max m) where
  -- At the top order the block is pushed.
  push_top :
      (p : ℕ)
      → IsBlock max 15 p
      → IsAllocated m p (2 ^ 15)
      → Frees max m p (2 ^ 15) (push_free m p 15)
  unfolding push_free
  push_top p b free =
      let (l, e) = get_elem?-total m.levels 15 (omega (arith, inv.sized)) in
      let (inv', covers) =
        push_known inv 15 l e l p refl (push_top-LevelInv max p l (inv.level 15 l e) b) free in
      (
        with_level m 15 (Level.push_free l p),
        on_level-with_level _ m 15 l (Level.push_free l p) e refl,
        inv',
        covers,
      )

  -- The buddy is allocated: the block is pushed.
  stop_here :
      (k p : ℕ) (l l' : BuddyLevel)
      → get_elem? m.levels k ≡ some l
      → Toggled k p l l'
      → IsBlock max k p
      → IsAllocated m p (2 ^ k)
      → bit l.splitmap (splitmap_index p k) ≡ false
      → Frees max m p (2 ^ k) (push_free (with_level m k l') p k)
  stop_here k p l l' e t b free clear =
      let li = push-LevelInv max k p p l l' (inv.level k l e) t b refl clear in
      let (inv', covers) = push_known inv k l e l' p t.same_list li free in
      (with_level m k (Level.push_free l' p), push_again inv k l e l' p, inv', covers)

  -- The buddy is free: it is removed, and the block that both make is allocated then.
  absorb_buddy :
      (k p : ℕ) (l l' : BuddyLevel)
      → get_elem? m.levels k ≡ some l
      → Toggled k p l l'
      → IsBlock max k p
      → k + 1 < order_count
      → IsAllocated m p (2 ^ k)
      → bit l.splitmap (splitmap_index p k) ≡ true
      → (m2 : PhysManager) × (remove_free (with_level m k l') (buddy_of p k) k ≡ some m2)
        × Inv max m2
        × IsBlock max (k + 1) (parent_of p k)
        × IsAllocated m2 (parent_of p k) (2 ^ (k + 1))
        × ((x : ℕ)
            → cover m2 x + within (parent_of p k) (2 ^ (k + 1)) x ≡ cover m x + within p (2 ^ k) x)
  absorb_buddy k p l l' e t b below free is_set =
      let pair = IsPair-of_aligned p k b.0 in
      let none_here = count_uncovered inv k l e p (uncovered_start inv k l e p free) in
      let (r, g, li, buddy, hit) =
        remove-LevelInv max k p l l' (inv.level k l e) t b below is_set none_here in
      let law : (x : ℕ) → cover (with_level m k r) x + within (buddy_of p k) (2 ^ k) x ≡ cover m x =
        λ x. omega (arith, cover-with_level m k l r x e, hit x) in
      let whole : (x : ℕ)
          → within (parent_of p k) (2 ^ (k + 1)) x
            ≡ within p (2 ^ k) x + within (buddy_of p k) (2 ^ k) x =
        within_parent p k pair in
      (
        with_level m k r,
        remove_again inv k l e l' r (buddy_of p k) g,
        Inv-with_level inv k r li (λ x. omega (arith, law x, inv.disjoint x)),
        (pair.parent_aligned, parent_below max p k pair b buddy),
        λ x. omega (arith, law x, whole x, free x),
        λ x. omega (arith, law x, whole x),
      )

-- The loop returns the block: with `rounds` orders left below the top.
merge_up-Frees :
    (rounds max : ℕ) (m : PhysManager) (p k : ℕ)
    → rounds + k ≡ 15
    → Inv max m
    → IsBlock max k p
    → IsAllocated m p (2 ^ k)
    → Frees max m p (2 ^ k) (merge_up rounds m p k)
unfolding merge_up
merge_up-Frees zero max m p k e inv b free =
    let f : k ≡ 15 = omega arith in rw f (push_top inv p (rw f at b) (rw f at free))
merge_up-Frees (suc rounds) max m p k e inv b free =
    let (l, at_k) = get_elem?-total m.levels k (omega (arith, inv.sized)) in
    let (l', flip, t, read) = toggle_at inv k l at_k p b in
    rw (flip, ◌>>=◌, read)
      (elim (Bool-cases (bit l.splitmap (splitmap_index p k))) [
        | inl is_set ↦
            let (m2, removed, inv2, b2, free2, law) =
              absorb_buddy inv k p l l' at_k t b (omega arith) free is_set in
            let (m', done, inv', covers) =
              merge_up-Frees rounds max m2 (parent_of p k) (k + 1) (omega arith) inv2 b2 free2 in
            (m', rw (is_set, removed, ◌>>=◌) done, inv', λ x. omega (arith, covers x, law x))
        | inr clear ↦ rw clear (stop_here inv k p l l' at_k t b free clear)
      ])

-- From a sound manager, the return of a block of an order below 16 that is aligned to its size, lies
-- below `max` and overlaps no free block does not panic, keeps the invariant, and makes exactly the
-- frames of the block free in addition, however far it is merged.
pub deallocate-Frees :
    (max : ℕ) (m : PhysManager) (pfn order : ℕ)
    → Inv max m
    → order < order_count
    → IsBlock max order pfn
    → IsAllocated m pfn (2 ^ order)
    → Frees max m pfn (2 ^ order) (deallocate m pfn order)
unfolding deallocate
deallocate-Frees max m pfn order inv small b free =
    rw (b.0, assert, ◌>>=◌)
      (merge_up-Frees (order_count - 1 - order) max m pfn order (omega arith) inv b free)
