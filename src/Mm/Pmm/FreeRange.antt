-- ===== src/Mm/Pmm/FreeRange.antt =====
-- kernel/kernel/src/mm/pmm.rs: `add_free_range` cuts a range into blocks and frees all of it, and
-- `free_pages` is the number of free frames.
use corrosios.Base.{
  ℕ, zero, suc, ◌+◌, ◌-◌, ◌%◌, ◌^◌, ◌≤◌, ◌<◌, ◌≡◌, refl, arith, ltb, true, false, some, Bool-cases,
  inl, inr, ◌>>=◌, usize_mod, wadd, wsub, wshl, min, ◌∙◌, ltb→lt,
}
use corrosios.Base.Bits.{pow-pos, pow_mono}
use corrosios.NumUtils.{log2, trailing_zeros}
use corrosios.NumUtils.Logarithms.{log2_bounds, trailing_zeros_divides}
use corrosios.Mm.Pmm.Defs.{
  PhysManager, order_count, next_order, add_blocks, add_free_range, deallocate,
}
use corrosios.Mm.Pmm.Blocks.{aligned_below}
use corrosios.Mm.Pmm.Cover.{within, cover}
use corrosios.Mm.Pmm.Moves.{Inv, Frees, IsAllocated}
use corrosios.Mm.Pmm.Deallocate.{deallocate-Frees}

-- The next block of a range starts at its start, is aligned, and fits.
next_order_fits :
    (start end : ℕ)
    → start < end
    → end < usize_mod
    → (next_order start end < order_count)
      × (start % 2 ^ next_order start end ≡ 0)
      × (start + 2 ^ next_order start end ≤ end)
unfolding next_order
next_order_fits start end lt small =
    let e : wsub end start ≡ end - start = omega arith in
    let (h0, h1, h2) = log2_bounds (end - start) (omega arith) (omega arith) in
    let k = min (min (trailing_zeros start) (log2 (end - start))) (order_count - 1) in
    let le_zeros : k + (trailing_zeros start - k) ≡ trailing_zeros start = omega arith in
    rw e (
      omega arith,
      aligned_below start k (trailing_zeros start - k) (rw le_zeros (trailing_zeros_divides start)),
      omega (arith, pow_mono k (log2 (end - start)) (omega arith)),
    )

add_blocks_end :
    (fuel : ℕ) (m : PhysManager) (start end : ℕ)
    → ltb start end ≡ false
    → add_blocks (suc fuel) m start end ≡ some m
unfolding add_blocks
add_blocks_end fuel m start end h = rw h

add_blocks_round :
    (fuel : ℕ) (m m1 : PhysManager) (start end next : ℕ)
    → ltb start end ≡ true
    → deallocate m start (next_order start end) ≡ some m1
    → wadd start (wshl 1 (next_order start end)) ≡ next
    → add_blocks (suc fuel) m start end ≡ add_blocks fuel m1 next end
unfolding add_blocks
add_blocks_round fuel m m1 start end next h e f = rw (h, e, ◌>>=◌, f)

next_start : (start k : ℕ) → start + 2 ^ k < usize_mod → wadd start (wshl 1 k) ≡ start + 2 ^ k
next_start start k h = omega arith

-- The frames of a range are those of its first block and those behind it.
first_block :
    (start end d x : ℕ)
    → start + d ≤ end
    → within start (end - start) x ≡ within start d x + within (start + d) (end - (start + d)) x
first_block start end d x h = ground arith

-- One round, with what the later ones do.
add_blocks_more :
    (fuel max : ℕ) (m : PhysManager) (start end : ℕ)
    → ltb start end ≡ true
    → end ≤ max
    → max < usize_mod
    → Inv max m
    → IsAllocated m start (end - start)
    → ((m1 : PhysManager) (next : ℕ)
        → next ≤ end
        → Inv max m1
        → IsAllocated m1 next (end - next)
        → end - next < fuel
        → Frees max m1 next (end - next) (add_blocks fuel m1 next end))
    → end - start < suc fuel
    → Frees max m start (end - start) (add_blocks (suc fuel) m start end)
add_blocks_more fuel max m start end more fits small inv free later enough =
    let (low, aligned, room) = next_order_fits start end (ltb→lt start end more) (omega arith) in
    let k = next_order start end in
    let (m1, freed, inv1, covers) =
      deallocate-Frees max m start k inv low (aligned, omega arith)
        (λ x. omega (arith, free x, first_block start end (2 ^ k) x room)) in
    let (m', done, inv', covers') =
      later m1 (start + 2 ^ k) room inv1
        (λ x. omega (arith, covers x, free x, first_block start end (2 ^ k) x room))
        (omega (arith, pow-pos k)) in
    (
      m',
      add_blocks_round fuel m m1 start end (start + 2 ^ k) more freed
            (next_start start k (omega arith))
          ∙ done,
      inv',
      λ x. omega (arith, covers x, covers' x, first_block start end (2 ^ k) x room),
    )

add_blocks-Frees :
    (fuel max : ℕ) (m : PhysManager) (start end : ℕ)
    → end - start < fuel
    → start ≤ end
    → end ≤ max
    → max < usize_mod
    → Inv max m
    → IsAllocated m start (end - start)
    → Frees max m start (end - start) (add_blocks fuel m start end)
add_blocks-Frees zero max m start end enough le fits small inv free = absurd (omega arith)
add_blocks-Frees (suc fuel) max m start end enough le fits small inv free =
    elim (Bool-cases (ltb start end)) [
      | inl more ↦
          add_blocks_more fuel max m start end more fits small inv free
            (λ m1 next le' inv1 free1 enough'.
              add_blocks-Frees fuel max m1 next end enough' le' fits small inv1 free1)
            enough
      | inr done ↦ (m, add_blocks_end fuel m start end done, inv, λ x. ground arith)
    ]

-- The invariant and the cover do not depend on the count of pages.
cover-total : (m : PhysManager) (n x : ℕ) → cover (record m { total_pages = n }) x ≡ cover m x
unfolding cover
cover-total m n x = refl

Inv-total : (max : ℕ) (m : PhysManager) (n : ℕ) → Inv max m → Inv max (record m { total_pages = n })
Inv-total max m n inv = record {
  sized = inv.sized;
  level = inv.level;
  disjoint = λ x. rw (cover-total m n x) (inv.disjoint x);
}

-- From a sound manager, the addition of a range below `max` that overlaps no free block does not
-- panic and ends, keeps the invariant, makes exactly the frames of the range free in addition, and
-- adds their number to `total_pages` (modulo 2 ^ 64).
pub add_free_range-Frees :
    (max : ℕ) (m : PhysManager) (start end : ℕ)
    → max < usize_mod
    → start ≤ end
    → end ≤ max
    → Inv max m
    → IsAllocated m start (end - start)
    → Frees max m start (end - start) (add_free_range m start end)
unfolding add_free_range
add_free_range-Frees max m start end small le fits inv free =
    let (m', done, inv', covers) =
      add_blocks-Frees (end - start + 1) max m start end (omega arith) le fits small inv free in
    (
      record m' { total_pages = wadd m'.total_pages (wsub end start) },
      rw (done, ◌>>=◌),
      Inv-total max m' _ inv',
      λ x. cover-total m' _ x ∙ covers x,
    )
