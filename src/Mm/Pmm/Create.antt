-- ===== src/Mm/Pmm/Create.antt =====
-- kernel/kernel/src/mm/pmm.rs: `PhysManager::new` builds a sound manager with no free frame.
use native.Mathlib.Nat.{mul-le-mul_right, mul-le-mul_left, zero-add}
use corrosios.Base.{
  ℕ, zero, suc, ◌+◌, ◌*◌, ◌^◌, ◌≤◌, ◌<◌, ◌≡◌, refl, arith, some, false, List, [], ◌∷◌, length,
  get_elem?, replicate, length-replicate, All-replicate, usize_mod, wshl, wadd, wsub, ltb, ◌||◌,
  ◌>>=◌,
}
use corrosios.Base.Bits.{pow-pos, pow-double, pow_mono}
use corrosios.Bitmap
use corrosios.Bitmap.Laws.{bit-zeros}
use corrosios.NumUtils.{div_ceil, align_up}
use corrosios.NumUtils.Rounding.{div_ceil_covers, align_up-least}
use corrosios.Mm.Early.{BootHeap, alloc_phys}
use corrosios.Mm.Early.Heap.{IsHeap}
use corrosios.Mm.Pmm.Level.{BuddyLevel}
use corrosios.Mm.Pmm.Defs.{PhysManager, order_count, splitmap_bytes, new_levels, new}
use corrosios.Mm.Pmm.Cover.{cover, cover_from}
use corrosios.Mm.Pmm.Invariant.{LevelInv}
use corrosios.Mm.Pmm.Moves.{Inv}

-- A byte-aligned request that fits is served from the current position.
alloc_bytes :
    (h : BootHeap) (n : ℕ)
    → IsHeap h
    → h.cur + n ≤ h.end
    → alloc_phys h (record { size = n; align = 1 }) ≡ some (h.cur, record h { cur = h.cur + n })
unfolding alloc_phys
alloc_bytes h n inv fits =
    let (whole, above, near, least) =
      align_up-least h.cur 1 (omega arith) (omega (arith, inv.high, inv.small)) in
    let e : align_up h.cur 1 ≡ h.cur = omega arith in
    let s : wadd h.cur n ≡ h.cur + n = omega (arith, inv.small) in
    let room : (ltb h.end h.cur || ltb (wsub h.end h.cur) n) ≡ false = ground (arith, inv.small) in
    rw (e, room, s)

-- The bitmap of a level has a bit for each pair of blocks below `max`.
splitmap_room :
    (max k : ℕ)
    → k < order_count
    → max + 2 ^ 17 ≤ usize_mod
    → max ≤ 8 * splitmap_bytes max k * 2 ^ (k + 1)
unfolding splitmap_bytes Bitmap.bytes_required
splitmap_room max k small fits =
    let D = 2 ^ (k + 1) in
    let upper = pow_mono (k + 1) 16 (omega arith) in
    let e : wshl 1 (k + 1) ≡ D = omega arith in
    let (enough, near) = div_ceil_covers max D (pow-pos (k + 1)) (omega arith) in
    let bits = div_ceil max D in
    let twice : bits * 2 ≤ bits * D =
      mul-le-mul_left bits (omega (arith, pow-double k, pow-pos k)) in
    let (whole, near') = div_ceil_covers bits 8 (omega arith) (omega arith) in
    rw e (omega (arith, mul-le-mul_right {m = bits} {n = 8 * div_ceil bits 8} D (omega arith)))

-- The bytes of the bitmaps of the orders from `order` on.
abbrev pub needed : ℕ → ℕ → ℕ → ℕ
needed zero order max = 0
needed (suc rounds) order max = splitmap_bytes max order + needed rounds (order + 1) max

abbrev empty_level : ℕ → BuddyLevel
empty_level bytes = record {
  free_list = [];
  free_blocks = 0;
  splitmap = record { bytes = replicate bytes 0 };
}

empty_level-LevelInv :
    (max k : ℕ)
    → k < order_count
    → max + 2 ^ 17 ≤ usize_mod
    → LevelInv max k (empty_level (splitmap_bytes max k))
empty_level-LevelInv max k small fits = record {
  blocks = tt;
  counted = omega arith;
  bytes = All-replicate _ (splitmap_bytes max k) 0 (omega arith);
  room = rw (length-replicate {A = ℕ} (splitmap_bytes max k) 0) (splitmap_room max k small fits);
  paired = λ below j. rw (bit-zeros (splitmap_bytes max k) j);
}

-- A list of fresh levels from `order` on.
pub record Fresh (max order rounds : ℕ) (ls : List BuddyLevel) : Type 0 where
  pub sized : length ls ≡ rounds
  pub level : (j : ℕ) (l : BuddyLevel) → get_elem? ls j ≡ some l → LevelInv max (order + j) l
  pub bare : (x : ℕ) → cover_from order ls x ≡ 0

Fresh-cons :
    (max order rounds : ℕ) (l : BuddyLevel) (ls : List BuddyLevel)
    → LevelInv max order l
    → l.free_list ≡ []
    → Fresh max (order + 1) rounds ls
    → Fresh max order (suc rounds) (l ∷ ls)
Fresh-cons max order rounds l ls li e f = record {
  sized = omega (arith, f.sized);
  level = level_of;
  bare = λ x. let z : suc order ≡ order + 1 = omega arith in rw (e, z) (omega (arith, f.bare x));
}
  where
    level_of :
        (j : ℕ) (l' : BuddyLevel) → get_elem? (l ∷ ls) j ≡ some l' → LevelInv max (order + j) l'
    level_of zero l' at_j =
        let g : l ≡ l' = cc in let z : order + 0 ≡ order = omega arith in rw (z, ← g) li
    level_of (suc j) l' at_j =
        let z : order + suc j ≡ order + 1 + j = omega arith in rw z (f.level j l' at_j)

-- With room for the bitmaps in the heap, all levels are created.
new_levels-Fresh :
    (rounds order max : ℕ) (h : BootHeap)
    → rounds + order ≡ order_count
    → max + 2 ^ 17 ≤ usize_mod
    → IsHeap h
    → h.cur + needed rounds order max ≤ h.end
    → (ls : List BuddyLevel) × (new_levels rounds order max h
        ≡ some (ls, record h { cur = h.cur + needed rounds order max }))
      × Fresh max order rounds ls
unfolding new_levels
new_levels-Fresh zero order max h e fits inv room =
    let z : h.cur + 0 ≡ h.cur = omega arith in
    ([], rw z, record { sized = refl; level = λ j l at_j. absurd (ground arith); bare = λ x. refl })
new_levels-Fresh (suc rounds) order max h e fits inv room =
    let bytes = splitmap_bytes max order in
    let later = needed rounds (order + 1) max in
    let z : h.cur + (bytes + later) ≡ h.cur + bytes + later = omega arith in
    let h1 : BootHeap = record h { cur = h.cur + bytes } in
    let inv1 : IsHeap h1 = record {
      low = omega (arith, inv.low);
      high = omega arith;
      small = inv.small;
    } in
    let (ls, done, f) =
      new_levels-Fresh rounds (order + 1) max h1 (omega arith) fits inv1 (omega arith) in
    (
      empty_level bytes ∷ ls,
      rw (alloc_bytes h bytes inv (omega arith), ◌>>=◌, done, z),
      Fresh-cons max order rounds (empty_level bytes) ls
          (empty_level-LevelInv max order (omega arith) fits) refl f,
    )

-- For `max_pfn` up to 2 ^ 64 - 2 ^ 17 and a boot heap with room for the sixteen bitmaps, `new` does
-- not panic: the manager is sound, no frame is free, and the heap has advanced by the bitmaps' size.
pub new-Inv :
    (max : ℕ) (h : BootHeap)
    → max + 2 ^ 17 ≤ usize_mod
    → IsHeap h
    → h.cur + needed order_count 0 max ≤ h.end
    → (m : PhysManager) × (new max h
        ≡ some (m, record h { cur = h.cur + needed order_count 0 max }))
      × Inv max m
      × ((x : ℕ) → cover m x ≡ 0)
unfolding new cover
new-Inv max h fits inv room =
    let (ls, done, f) = new_levels-Fresh order_count 0 max h refl fits inv room in
    (
      record { total_pages = 0; levels = ls },
      rw (done, ◌>>=◌),
      record {
        sized = f.sized;
        level = λ j l at_j. rw zero-add at (f.level j l at_j);
        disjoint = λ x. omega (arith, f.bare x);
      },
      f.bare,
    )
