-- ===== src/Mm/Pmm/Count.antt =====
-- kernel/kernel/src/mm/pmm.rs: `free_pages`, computed from the counters of the levels, is the number
-- of frames that lie in a free block.
use native.Mathlib.Nat.{le-mul_of_pos_right, zero-add}
use corrosios.Base.{
  ℕ, zero, suc, ◌+◌, ◌*◌, ◌^◌, ◌≤◌, ◌<◌, ◌≡◌, refl, arith, List, [], ◌∷◌, length, get_elem?, some,
  All, min, usize_mod, ◌∙◌,
}
use corrosios.Base.Bits.{pow-pos}
use corrosios.Mm.Pmm.Level.{BuddyLevel}
use corrosios.Mm.Pmm.Defs.{PhysManager, free_pages_from, free_pages}
use corrosios.Mm.Pmm.Cover.{within, hits, cover, cover_from}
use corrosios.Mm.Pmm.Invariant.{IsBlock, LevelInv}
use corrosios.Mm.Pmm.Moves.{Inv}

-- The sum of a function over the frames below a bound.
pub total : ℕ → (ℕ → ℕ) → ℕ
total zero f = 0
total (suc n) f = total n f + f n

total-add : (n : ℕ) (f g : ℕ → ℕ) → total n (λ x. f x + g x) ≡ total n f + total n g
unfolding total
total-add zero f g = omega arith
total-add (suc n) f g = omega (arith, total-add n f g)

total-zero : (n : ℕ) → total n (λ x. 0) ≡ 0
unfolding total
total-zero zero = refl
total-zero (suc n) = omega (arith, total-zero n)

total-le : (n : ℕ) (f : ℕ → ℕ) → ((x : ℕ) → f x ≤ 1) → total n f ≤ n
unfolding total
total-le zero f h = omega arith
total-le (suc n) f h = omega (arith, total-le n f h, h n)

total-within : (n p d : ℕ) → total n (within p d) + min n p ≡ min n (p + d)
unfolding total
total-within zero p d = omega arith
total-within (suc n) p d = ground (arith, total-within n p d)

total-hits :
    (n k : ℕ) (l : List ℕ)
    → All (IsBlock n k) l
    → total n (λ x. hits (2 ^ k) x l) ≡ length l * 2 ^ k
total-hits n k [] h = total-zero n ∙ omega arith
total-hits n k (p ∷ l) h =
    total-add n (within p (2 ^ k)) (λ x. hits (2 ^ k) x l)
    ∙ omega (arith, total-within n p (2 ^ k), h.0.1, total-hits n k l h.1)

free_pages_from-total :
    (max k : ℕ) (ls : List BuddyLevel)
    → ((j : ℕ) (l : BuddyLevel) → get_elem? ls j ≡ some l → LevelInv max (k + j) l)
    → total max (cover_from k ls) < usize_mod
    → free_pages_from k ls ≡ total max (cover_from k ls)
unfolding free_pages_from
free_pages_from-total max k [] h small = omega (arith, total-zero max)
free_pages_from-total max k (l ∷ ls) h small =
    let li : LevelInv max k l = let z : k + 0 ≡ k = omega arith in rw z at (h 0 l refl) in
    let split = total-add max (λ x. hits (2 ^ k) x l.free_list) (cover_from (suc k) ls) in
    let here = total-hits max k l.free_list li.blocks in
    let few = le-mul_of_pos_right {m = 2 ^ k} (length l.free_list) (pow-pos k) in
    let counted : l.free_blocks ≡ length l.free_list = omega (arith, li.counted) in
    let z : k + 1 ≡ suc k = omega arith in
    let rest = free_pages_from-total max (suc k) ls (later max k l ls h) (omega arith) in
    rw (counted, z) (omega arith)
  where
    later :
        (max k : ℕ) (l : BuddyLevel) (ls : List BuddyLevel)
        → ((j : ℕ) (l' : BuddyLevel) → get_elem? (l ∷ ls) j ≡ some l' → LevelInv max (k + j) l')
        → (j : ℕ) (l' : BuddyLevel) → get_elem? ls j ≡ some l'
        → LevelInv max (suc k + j) l'
    later max k l ls h j l' e = let z : suc k + j ≡ k + suc j = omega arith in rw z (h (suc j) l' e)

-- In a sound manager for fewer than 2 ^ 64 frames, the sum that `free_pages` computes from the
-- levels' counters is the number of frames below `max` that lie in a free block; it does not wrap.
pub free_pages-eq-total :
    (max : ℕ) (m : PhysManager) → max < usize_mod → Inv max m → free_pages m ≡ total max (cover m)
unfolding free_pages cover
free_pages-eq-total max m small inv =
    free_pages_from-total max 0 m.levels (λ j l e. rw zero-add (inv.level j l e))
      (omega (arith, total-le max (cover m) inv.disjoint))
