-- ===== src/Mm/Pmm/Invariant.antt =====
-- kernel/kernel/src/mm/pmm.rs: the invariant of the allocator, for frames below `max`, and what one
-- operation on one level does to that level.
use corrosios.Base.{
  ℕ, ◌+◌, ◌*◌, ◌%◌, ◌^◌, ◌≤◌, ◌<◌, ◌≡◌, refl, arith, ◌==◌, if◌then◌else◌, to_nat, some, List,
  length, All, ◌>>=◌, usize_mod, not,
}
use native.Mathlib.Nat.{div-lt_iff_lt-mul}
use corrosios.Base.Bits.{pow-pos}
use corrosios.Bitmap.Laws.{IsBytes, size, bit, get-eq-bit, toggle_flips}
use corrosios.Mm.Pmm.Level
use corrosios.Mm.Pmm.Level.{BuddyLevel, unlink}
use corrosios.Mm.Pmm.Defs.{order_count, splitmap_index}
use corrosios.Mm.Pmm.Cover.{count}

-- A block of order `k` below `max`.
abbrev pub IsBlock : ℕ → ℕ → ℕ → Type 0
IsBlock max k p = (p % 2 ^ k ≡ 0) × (p + 2 ^ k ≤ max)

-- The number of free blocks in the pair `j` of order `k`.
abbrev pub free_in_pair : ℕ → ℕ → List ℕ → ℕ
free_in_pair k j l = count (j * 2 ^ (k + 1)) l + count (j * 2 ^ (k + 1) + 2 ^ k) l

-- A level of order `k`: its blocks are blocks below `max`, the count is that of the list, the bitmap
-- has a bit for each pair, and below the top order the bit of a pair says whether exactly one of the
-- two is free (never both are: they would have been merged).
pub record LevelInv (max k : ℕ) (l : BuddyLevel) : Type 0 where
  pub blocks : All (IsBlock max k) l.free_list
  pub counted : l.free_blocks ≡ length l.free_list % usize_mod
  pub bytes : IsBytes l.splitmap
  pub room : max ≤ size l.splitmap * 2 ^ (k + 1)
  pub paired :
      k + 1 < order_count → (j : ℕ) → free_in_pair k j l.free_list ≡ to_nat (bit l.splitmap j)

index_in_room : (max k p n : ℕ) → IsBlock max k p → max ≤ n * 2 ^ (k + 1) → splitmap_index p k < n
unfolding splitmap_index
index_in_room max k p n b h =
    (div-lt_iff_lt-mul (pow-pos (k + 1))).1 (omega (arith, pow-pos k, b.1))

-- The bit of the pair of block `p` is flipped, and nothing else changes.
pub record Toggled (k p : ℕ) (l l' : BuddyLevel) : Type 0 where
  pub same_list : l'.free_list ≡ l.free_list
  pub same_count : l'.free_blocks ≡ l.free_blocks
  pub is_bytes : IsBytes l'.splitmap
  pub same_size : size l'.splitmap ≡ size l.splitmap
  pub flipped :
      (j : ℕ)
      → bit l'.splitmap j
        ≡ (if splitmap_index p k == j then not (bit l.splitmap j) else bit l.splitmap j)
  pub read :
      Level.is_parent_split l' (splitmap_index p k)
      ≡ some (not (bit l.splitmap (splitmap_index p k)))

pub toggle-Toggled :
    (max k p : ℕ) (l : BuddyLevel)
    → IsBytes l.splitmap
    → max ≤ size l.splitmap * 2 ^ (k + 1)
    → IsBlock max k p
    → (l' : BuddyLevel) × (Level.toggle_parent_split l (splitmap_index p k) ≡ some l')
      × Toggled k p l l'
unfolding Level.toggle_parent_split Level.is_parent_split
toggle-Toggled max k p l bytes room b =
    let small = index_in_room max k p (size l.splitmap) b room in
    let (s, e, is_bytes, same_size, flipped) =
      toggle_flips l.splitmap (splitmap_index p k) bytes small in
    (
      record l { splitmap = s },
      rw (e, ◌>>=◌),
      record {
        same_list = refl;
        same_count = refl;
        is_bytes = is_bytes;
        same_size = same_size;
        flipped = flipped;
        read =
            rw (get-eq-bit s (splitmap_index p k) (omega arith))
              (ground (arith, flipped (splitmap_index p k)));
      },
    )
