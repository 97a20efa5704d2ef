-- ===== src/Mm/Pmm/Split.antt =====
-- kernel/kernel/src/mm/pmm.rs: the split of a block down to a smaller order frees what lies above the
-- smaller block.
use corrosios.Base.{
  ℕ, zero, suc, ◌+◌, ◌-◌, ◌%◌, ◌^◌, ◌≤◌, ◌<◌, ◌≡◌, refl, arith, false, some, ◌>>=◌, get_elem?-total,
}
use corrosios.Base.Bits.{pow-pos, pow-double, pow_mono}
use corrosios.Bitmap.Laws.{bit}
use corrosios.Mm.Pmm.Level
use corrosios.Mm.Pmm.Level.{BuddyLevel}
use corrosios.Mm.Pmm.Defs.{
  PhysManager, order_count, splitmap_index, buddy_of, toggle_parent_split, push_free, split_down,
}
use corrosios.Mm.Pmm.Blocks.{IsPair-of_aligned, aligned_below, buddy_above}
use corrosios.Mm.Pmm.Cover.{within, cover, with_level}
use corrosios.Mm.Pmm.LevelMoves.{push-LevelInv}
use corrosios.Mm.Pmm.Moves.{
  Inv, Frees, IsAllocated, toggle_at, push_again, count_uncovered, push_known, uncovered_start,
}

-- One round of the split: the upper half is pushed on its level.
module _ {max : ℕ} {m : PhysManager} (inv : Inv max m) where
  split_round :
      (p c : ℕ)
      → c + 1 < order_count
      → p % 2 ^ (c + 1) ≡ 0
      → p + 2 ^ (c + 1) ≤ max
      → cover m p ≡ 0
      → IsAllocated m (p + 2 ^ c) (2 ^ c)
      → (m1 : PhysManager) × (toggle_parent_split m p c ≡ some m1)
        × Frees max m (p + 2 ^ c) (2 ^ c) (push_free m1 (buddy_of p c) c)
  split_round p c below aligned fits bare free =
      let half = aligned_below p c 1 aligned in
      let pair = IsPair-of_aligned p c half in
      let up : buddy_of p c ≡ p + 2 ^ c = buddy_above p c aligned in
      let (l, at_c) = get_elem?-total m.levels c (omega (arith, inv.sized)) in
      let (l', flip, t, read) = toggle_at inv c l at_c p (half, omega (arith, pow-double c)) in
      let low = count_uncovered inv c l at_c p bare in
      let high =
        count_uncovered inv c l at_c (p + 2 ^ c) (uncovered_start inv c l at_c (p + 2 ^ c) free) in
      let clear : bit l.splitmap (splitmap_index p c) ≡ false =
        ground
          (arith, (inv.level c l at_c).paired below (splitmap_index p c), pair.halves, pair.base) in
      let li =
        push-LevelInv max c p (buddy_of p c) l l' (inv.level c l at_c) t
          (pair.buddy_aligned, omega (arith, pow-double c)) pair.same_parent clear in
      let (inv', covers) = push_known inv c l at_c l' (buddy_of p c) t.same_list li (rw up free) in
      (
        with_level m c l',
        flip,
        (
          with_level m c (Level.push_free l' (buddy_of p c)),
          push_again inv c l at_c l' (buddy_of p c),
          inv',
          λ x. rw (← up) (covers x),
        ),
      )

-- What is left of a block of `2 ^ f` frames at `p` above its first `2 ^ c`.
abbrev pub rest_of_block : ℕ → ℕ → ℕ → ℕ → ℕ
rest_of_block p c f x = within (p + 2 ^ c) (2 ^ f - 2 ^ c) x

rest-split :
    (p c f x : ℕ)
    → c + 1 ≤ f
    → rest_of_block p c f x ≡ within (p + 2 ^ c) (2 ^ c) x + rest_of_block p (c + 1) f x
rest-split p c f x h = ground (arith, pow-double c, pow_mono (c + 1) f h)

-- The split of the block at `p` from order `f` down to order `c` frees what lies above its first
-- `2 ^ c` frames.
pub split_down-Frees :
    (rounds max : ℕ) (m : PhysManager) (p c f : ℕ)
    → rounds + c ≡ f
    → f < order_count
    → Inv max m
    → p % 2 ^ f ≡ 0
    → p + 2 ^ f ≤ max
    → cover m p ≡ 0
    → ((x : ℕ) → cover m x + rest_of_block p c f x ≤ 1)
    → (m' : PhysManager) × (split_down rounds m p c ≡ some m')
      × Inv max m'
      × ((x : ℕ) → cover m' x ≡ cover m x + rest_of_block p c f x)
unfolding split_down
split_down-Frees zero max m p c f e small inv aligned fits bare free =
    let g : c ≡ f = omega arith in (m, refl, inv, λ x. rw g (ground arith))
split_down-Frees (suc rounds) max m p c f e small inv aligned fits bare free =
    let above : c + 1 ≤ f = omega arith in
    let g : c + 1 + (f - (c + 1)) ≡ f = omega arith in
    let aligned' : p % 2 ^ (c + 1) ≡ 0 = aligned_below p (c + 1) (f - (c + 1)) (rw g aligned) in
    let (m1, flip, pushed) =
      split_round inv p c (omega arith) aligned' (omega (arith, pow_mono (c + 1) f above)) bare
        (λ x. omega (arith, free x, rest-split p c f x above)) in
    let (m2, push, inv2, covers) = pushed in
    let (m', done, inv', covers') =
      split_down-Frees rounds max m2 p (c + 1) f (omega arith) small inv2 aligned fits
        (ground (arith, covers p, pow-pos c))
        (λ x. omega (arith, covers x, free x, rest-split p c f x above)) in
    (
      m',
      rw (flip, ◌>>=◌, push) done,
      inv',
      λ x. omega (arith, covers x, covers' x, rest-split p c f x above),
    )
