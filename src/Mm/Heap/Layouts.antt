-- ===== src/Mm/Heap/Layouts.antt =====
-- kernel/kernel/src/mm/heap.rs: how the objects of a class lie in a slab.
use corrosios.Base.{
  ℕ, zero, suc, ◌+◌, ◌-◌, ◌*◌, ◌/◌, ◌<◌, ◌≤◌, ◌≡◌, refl, arith, true, false, leb, ◌==◌, not, wsub,
  Bool-cases, inl, inr, ℕ_discrete, leb→le, usize_mod, wsub_exact,
}
use native.Mathlib.Nat.{le-div_iff_mul-le, mul_comm}
use corrosios.Err.{ok}
use corrosios.NumUtils.{div_ceil}
use corrosios.Bitmap.{bytes_required}
use corrosios.Mm.Heap.{
  SizeClassMeta, slab_size, slab_bytes, shrink, new_meta, first_object_offset, bitmap_bytes,
}

no_fit : {a b : ℕ} → leb a b ≡ false → a ≤ b → ⊥
no_fit e h = ground arith

yes_leb : {a b : ℕ} → a ≤ b → leb a b ≡ true
yes_leb h = ground arith

not_zero : (n : ℕ) → 0 < n → not (n == 0) ≡ true
not_zero n h = ground arith

wsub_mul :
    (room size n : ℕ) → n * size ≤ room → room < usize_mod → wsub room (size * n) ≡ room - n * size
wsub_mul room size n h small = rw (mul_comm size n) (wsub_exact room (n * size) h small)

module _ (slab_header_size : ℕ) where
  -- The greatest number of objects, up to a first guess, that fits in the room.
  abbrev IsGreatest : ℕ → ℕ → ℕ → ℕ → Type 0
  IsGreatest room size guess n =
      (n ≤ guess)
      × (slab_bytes slab_header_size size n ≤ room)
      × ((k : ℕ) → k ≤ guess → slab_bytes slab_header_size size k ≤ room → k ≤ n)

  shrink-IsGreatest :
      (room size guess : ℕ)
      → slab_bytes slab_header_size size 0 ≤ room
      → (n : ℕ) × (shrink slab_header_size room size guess ≡ ok n) × IsGreatest room size guess n
  unfolding shrink
  shrink-IsGreatest room size zero h =
      (0, rw (yes_leb h) refl, (omega arith, h, λ k small fits. small))
  shrink-IsGreatest room size (suc guess) h =
      elim (Bool-cases (leb (slab_bytes slab_header_size size (suc guess)) room)) [
        | inl fits ↦ (suc guess, rw fits refl, (omega arith, leb→le _ _ fits, λ k small _. small))
        | inr large ↦
            let (n, e, (below, fits, best)) = shrink-IsGreatest room size guess h in
            (
              n,
              rw large e,
              (
                omega arith,
                fits,
                λ k small f. elim (ℕ_discrete k (suc guess)) [
                  | yes same ↦ absurd (no_fit large (rw same at f))
                  | no other ↦ best k (omega arith) f
                ],
              ),
            )
      ]

  -- Where a slab has room for its header and the size is not 0, `new` does not panic. Behind the header
  -- and the bitmap, the objects take the end of the slab, and no larger number of them fits.
  pub new_meta-lays_out :
      (size slab_order : ℕ)
      → 0 < size
      → slab_header_size ≤ slab_size slab_order
      → slab_size slab_order < usize_mod
      → (m : SizeClassMeta) × (new_meta slab_header_size size slab_order ≡ ok m)
        × (slab_header_size + bitmap_bytes m ≤ first_object_offset m)
        × (first_object_offset m + m.objects_per_slab * size ≡ slab_size slab_order)
        × ((k : ℕ)
            → slab_bytes slab_header_size size k ≤ slab_size slab_order
            → k ≤ m.objects_per_slab)
  unfolding new_meta bytes_required div_ceil bitmap_bytes first_object_offset
  new_meta-lays_out size slab_order pos header small =
      let room = slab_size slab_order in
      let guess = (room - slab_header_size) / size in
      let empty : slab_bytes slab_header_size size 0 ≤ room = omega arith in
      let (n, e, (below, fits, best)) = shrink-IsGreatest room size guess empty in
      let start : wsub room (size * n) ≡ room - n * size =
        wsub_mul room size n (omega arith) small in
      (
        record { size = size; slab_order = slab_order; objects_per_slab = n },
        rw (yes_leb header, not_zero size pos, e) refl,
        rw start (omega arith),
        rw start (omega arith),
        λ k f. best k ((le-div_iff_mul-le pos).1 (omega arith)) f,
      )
