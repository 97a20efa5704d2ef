-- ===== src/Mm/Pmm/LevelMoves.antt =====
-- kernel/kernel/src/mm/pmm.rs: the three ways in which `allocate` and `deallocate` change one level:
-- flip a pair's bit and push a block, flip it and remove the buddy, or pop a block and flip it.
use corrosios.Base.{
  ℕ, suc, ◌+◌, ◌*◌, ◌%◌, ◌^◌, ◌<◌, ◌≡◌, arith, true, false, to_nat, some, ◌∷◌, length, All, ◌>>=◌,
  usize_mod, wsub,
}
use corrosios.Bitmap.Laws.{bit}
use corrosios.Mm.Pmm.Level
use corrosios.Mm.Pmm.Level.{BuddyLevel, unlink}
use corrosios.Mm.Pmm.Defs.{order_count, splitmap_index, buddy_of}
use corrosios.Mm.Pmm.Blocks.{pair_indicator, IsPair-of_aligned}
use corrosios.Mm.Pmm.Cover.{within, hits, count, unlink-Unlinked, unlink-All, count-All}
use corrosios.Mm.Pmm.Invariant.{IsBlock, LevelInv, Toggled, free_in_pair}

-- A push after the flip, where the pair had no free block.
pub push-LevelInv :
    (max k p q : ℕ) (l l' : BuddyLevel)
    → LevelInv max k l
    → Toggled k p l l'
    → IsBlock max k q
    → splitmap_index q k ≡ splitmap_index p k
    → bit l.splitmap (splitmap_index p k) ≡ false
    → LevelInv max k (Level.push_free l' q)
unfolding Level.push_free
push-LevelInv max k p q l l' inv t b same clear = record {
  blocks = (b, rw t.same_list inv.blocks);
  counted = rw (t.same_list, t.same_count, inv.counted) (omega arith);
  bytes = t.is_bytes;
  room = rw t.same_size inv.room;
  paired = λ below j.
      rw t.same_list (ground (arith, pair_indicator q k j b.0, inv.paired below j, t.flipped j));
}

-- A push at the top order, where no bit is kept.
pub push_top-LevelInv :
    (max q : ℕ) (l : BuddyLevel)
    → LevelInv max 15 l
    → IsBlock max 15 q
    → LevelInv max 15 (Level.push_free l q)
unfolding Level.push_free
push_top-LevelInv max q l inv b = record {
  blocks = (b, inv.blocks);
  counted = rw inv.counted (omega arith);
  bytes = inv.bytes;
  room = inv.room;
  paired = λ below j. absurd (omega arith);
}

-- The removal of the buddy after the flip, where the bit was set and the block itself is not free.
pub remove-LevelInv :
    (max k p : ℕ) (l l' : BuddyLevel)
    → LevelInv max k l
    → Toggled k p l l'
    → IsBlock max k p
    → k + 1 < order_count
    → bit l.splitmap (splitmap_index p k) ≡ true
    → count p l.free_list ≡ 0
    → (r : BuddyLevel) × (Level.remove_free l' (buddy_of p k) ≡ some r)
      × LevelInv max k r
      × IsBlock max k (buddy_of p k)
      × ((x : ℕ)
          → hits (2 ^ k) x l.free_list
            ≡ within (buddy_of p k) (2 ^ k) x + hits (2 ^ k) x r.free_list)
unfolding Level.remove_free
remove-LevelInv max k p l l' inv t b below is_set free =
    let pair = IsPair-of_aligned p k b.0 in
    let one = inv.paired below (splitmap_index p k) in
    let there : 0 < count (buddy_of p k) l.free_list = ground (arith, pair.halves, pair.base) in
    let (rest, e, u) = unlink-Unlinked (buddy_of p k) l.free_list there in
    (
      record l' { free_list = rest; free_blocks = wsub l'.free_blocks 1 },
      rw (t.same_list, e, ◌>>=◌),
      record {
        blocks = unlink-All (IsBlock max k) (buddy_of p k) l.free_list rest inv.blocks e;
        counted = rw (t.same_count, inv.counted, u.shorter) (omega arith);
        bytes = t.is_bytes;
        room = rw t.same_size inv.room;
        paired = λ below j. ground (
          arith,
          pair_indicator (buddy_of p k) k j pair.buddy_aligned,
          pair.same_parent,
          inv.paired below j,
          u.counted (j * 2 ^ (k + 1)),
          u.counted (j * 2 ^ (k + 1) + 2 ^ k),
          t.flipped j,
        );
      },
      count-All (IsBlock max k) (buddy_of p k) l.free_list there inv.blocks,
      λ x. u.hit (2 ^ k) x,
    )

-- A pop, and the flip of the popped block's pair.
pub pop-LevelInv :
    (max k p : ℕ) (l l1 l2 : BuddyLevel)
    → LevelInv max k l
    → l.free_list ≡ p ∷ l1.free_list
    → l1.free_blocks ≡ wsub l.free_blocks 1
    → l1.splitmap ≡ l.splitmap
    → Toggled k p l1 l2
    → LevelInv max k l2
pop-LevelInv max k p l l1 l2 inv e c s t =
    let bs : All (IsBlock max k) (p ∷ l1.free_list) = rw e at (inv.blocks) in
    let counted : l.free_blocks ≡ suc (length l1.free_list) % usize_mod = rw e at (inv.counted) in
    record {
      blocks = rw t.same_list bs.1;
      counted = rw (t.same_list, t.same_count, c) (omega arith);
      bytes = t.is_bytes;
      room = rw (t.same_size, s) inv.room;
      paired = λ below j.
          let one : free_in_pair k j (p ∷ l1.free_list) ≡ to_nat (bit l.splitmap j) =
            rw e at (inv.paired below j) in
          let flip = rw s at (t.flipped j) in
          rw t.same_list (ground (arith, pair_indicator p k j bs.0.0, one, flip));
    }
