-- ===== src/Mm/Heap/Returning.antt =====
-- kernel/kernel/src/mm/heap.rs: what `SizeClassInner::deallocate` does with an object of a slab.
use corrosios.Base.{
  ==_refl, ℕ, suc, ◌+◌, ◌-◌, ◌*◌, ◌/◌, ◌%◌, ◌<◌, ◌≤◌, ◌≡◌, ◌≢◌, refl, arith, Bool, true, false, not,
  count, ltb, ◌==◌, ◌&&◌, if◌then◌else◌, wsub, wmul, Bool-cases, inl, inr, usize_mod,
}
use native.Mathlib.Nat.{
  mul-le-mul_right, mul-add-div_right, mul-div_cancel, div-eq_of_lt, div-add-mod', suc-mul,
}
use corrosios.Err.{Outcome, ok}
use corrosios.NumUtils.{align_down}
use corrosios.Bitmap.Laws.{bit, size, set-unset_write}
use corrosios.Bitmap.Taken.{taken-le, taken-write, IsWritten}
use corrosios.Mm.Heap.{SizeClassMeta, slab_size, first_object_offset}
use corrosios.Mm.Heap.Slab.{
  Slab, SizeClassInner, slab_header_from_obj, return_object, deallocate_object, write_slab,
  push_front,
}
use corrosios.Mm.Heap.Slabs.{IsSlab, IsSound, others_kept, written-IsSound, object_at}

-- The objects take the end of a slab, and the slab is an aligned block of addresses.
pub record IsLaid (m : SizeClassMeta) (slab : ℕ) : Type 0 where
  pub sized : 0 < m.size
  pub ends : first_object_offset m + m.objects_per_slab * m.size ≡ slab_size m.slab_order
  pub aligned : slab % slab_size m.slab_order ≡ 0
  pub some_address : 0 < slab
  pub fits : slab + slab_size m.slab_order ≤ usize_mod

room_for_object : (n i size : ℕ) → i < n → i * size + size ≤ n * size
room_for_object n i size lt =
    omega (arith, mul-le-mul_right {m = suc i} {n = n} size lt, suc-mul i size)

-- The address of an object, without a wrap-around.
object_exact :
    (m : SizeClassMeta) (slab i : ℕ)
    → IsLaid m slab
    → i < m.objects_per_slab
    → object_at m slab i ≡ slab + (first_object_offset m + i * m.size)
object_exact m slab i laid lt =
    let bound = room_for_object m.objects_per_slab i m.size lt in
    let p : wmul i m.size ≡ i * m.size = small_mod (omega (arith, laid.ends, laid.fits)) in
    rw p (omega (arith, laid.ends, laid.fits))
  where
    small_mod : {a : ℕ} → a < usize_mod → a % usize_mod ≡ a
    small_mod h = omega arith

-- Rounding down from within an aligned block.
align_down-block : (a r room : ℕ) → 0 < room → a % room ≡ 0 → r < room → align_down (a + r) room ≡ a
unfolding align_down
align_down-block a r room pos whole small =
    let exact : a / room * room ≡ a = omega (arith, div-add-mod' a room, whole) in
    let quotient : (a + r) / room ≡ a / room + r / room =
      rw exact at (mul-add-div_right pos (a / room) r) in
    let none_left : a / room + r / room ≡ a / room = omega (arith, div-eq_of_lt small) in
    rw (quotient, none_left) exact

header_found :
    (m : SizeClassMeta) (slab i : ℕ)
    → IsLaid m slab
    → i < m.objects_per_slab
    → slab_header_from_obj (object_at m slab i) m.slab_order ≡ ok slab
unfolding slab_header_from_obj
header_found m slab i laid lt =
    let bound = room_for_object m.objects_per_slab i m.size lt in
    let base : align_down (slab + (first_object_offset m + i * m.size)) (slab_size m.slab_order)
        ≡ slab =
      align_down-block slab (first_object_offset m + i * m.size) (slab_size m.slab_order)
        (omega (arith, bound, laid.ends, laid.sized)) laid.aligned
        (omega (arith, bound, laid.ends, laid.sized)) in
    let nonzero : not (slab == 0) ≡ true = not_zero slab laid.some_address in
    rw (object_exact m slab i laid lt, base, nonzero) refl
  where
    not_zero : (n : ℕ) → 0 < n → not (n == 0) ≡ true
    not_zero n h = ground arith

index_found :
    (m : SizeClassMeta) (slab i : ℕ)
    → IsLaid m slab
    → i < m.objects_per_slab
    → wsub (wsub (object_at m slab i) slab) (first_object_offset m) / m.size ≡ i
index_found m slab i laid lt =
    let bound = room_for_object m.objects_per_slab i m.size lt in
    let left : wsub (wsub (slab + (first_object_offset m + i * m.size)) slab)
          (first_object_offset m)
        ≡ i * m.size =
      omega (arith, laid.ends, laid.fits, laid.sized) in
    rw (object_exact m slab i laid lt, left) (mul-div_cancel i laid.sized)

-- An object of a slab goes from taken to free, and nothing else changes in the slabs.
pub record Returns {ℓ} {P : Type ℓ} (m : SizeClassMeta) (slab i : ℕ) (s s' : SizeClassInner P)
    : Type 0 where
  pub marks : IsWritten ((s.slabs slab).objects) ((s'.slabs slab).objects) i false
  pub counts : (s'.slabs slab).allocated + 1 ≡ (s.slabs slab).allocated
  pub others : (u : ℕ) → u ≢ slab → s'.slabs u ≡ s.slabs u
  pub linked : 0 < count slab s'.partial_slabs
  pub sound : IsSound m s'

-- A slab is in the list of partial slabs where it has room, and not where it has none.
pub record IsListed {ℓ} {P : Type ℓ} (m : SizeClassMeta) (slab : ℕ) (s : SizeClassInner P)
    : Type 0 where
  pub in_order : IsSlab m (s.slabs slab)
  pub part : (s.slabs slab).allocated < m.objects_per_slab → 0 < count slab s.partial_slabs
  pub full : (s.slabs slab).allocated ≡ m.objects_per_slab → count slab s.partial_slabs ≡ 0

-- A sound state with a listed slab written that still has room is sound.
relisted-IsSound {ℓ} :
    {P : Type ℓ} (m : SizeClassMeta) (s : SizeClassInner P) (slab : ℕ) (v : Slab)
    → IsSound m s
    → IsSlab m v
    → v.allocated < m.objects_per_slab
    → IsSound m (write_slab s slab v)
relisted-IsSound m s slab v inv is_slab room = record {
  once = inv.once;
  slab = λ a h. elim (Bool-cases (slab == a)) [
    | inl here ↦ rw here is_slab
    | inr other ↦ rw other (inv.slab a h)
  ];
  part = λ a h. elim (Bool-cases (slab == a)) [
    | inl here ↦ rw here room
    | inr other ↦ rw other (inv.part a h)
  ];
}

-- A slab that is full is listed, where it loses an object, and another is listed already.
written_back {ℓ} :
    {P : Type ℓ} (m : SizeClassMeta) (s : SizeClassInner P) (slab : ℕ) (v : Slab) (push : Bool)
    → ((s.slabs slab).allocated == m.objects_per_slab) && ltb v.allocated m.objects_per_slab ≡ push
    → IsSound m s
    → IsListed m slab s
    → IsSlab m v
    → v.allocated + 1 ≡ (s.slabs slab).allocated
    → IsSound m (write_slab (if push then push_front s slab else s) slab v)
      × (0 < count slab (if push then push_front s slab else s).partial_slabs)
written_back m s slab v true e inv listed is_slab one_less =
    let full : (s.slabs slab).allocated ≡ m.objects_per_slab = ground arith in
    (
      written-IsSound m s slab v true inv (listed.full full) is_slab (λ _. omega arith),
      rw (==_refl slab) (omega arith),
    )
written_back m s slab v false e inv listed is_slab one_less =
    let le : (s.slabs slab).allocated ≤ m.objects_per_slab =
      omega
        (arith, taken-le ((s.slabs slab).objects) m.objects_per_slab, listed.in_order.counted) in
    let part : (s.slabs slab).allocated < m.objects_per_slab = ground arith in
    (relisted-IsSound m s slab v inv is_slab (omega arith), listed.part part)

-- For an object that is taken in an aligned slab which is listed where it has room, with another object
-- taken in it, `deallocate` does not panic: it finds the slab and the object from the address, frees the
-- object alone, lists the slab, and leaves the state sound.
pub deallocate_object-Returns {ℓ} :
    {P : Type ℓ} (pmm_deallocate : ℕ → ℕ → P → Outcome P) (m : SizeClassMeta) (s : SizeClassInner P)
    (slab i : ℕ)
    → IsLaid m slab
    → i < m.objects_per_slab
    → IsSound m s
    → IsListed m slab s
    → bit ((s.slabs slab).objects) i ≡ true
    → 1 < (s.slabs slab).allocated
    → (s.slabs slab).allocated < usize_mod
    → (s' : SizeClassInner P) × (deallocate_object pmm_deallocate m (object_at m slab i) s ≡ ok s')
      × Returns m slab i s s'
unfolding deallocate_object return_object
deallocate_object-Returns {P = P} pmm_deallocate m s slab i laid lt inv listed is_taken another
      small =
    let v = s.slabs slab in
    let (b, eb, bytes, same, written) =
      (set-unset_write v.objects i listed.in_order.bytes
        (omega (arith, listed.in_order.room, lt))).1 in
    let number = taken-write v.objects b i m.objects_per_slab false written lt in
    let next : wsub v.allocated 1 ≡ v.allocated - 1 = omega arith in
    let more : (v.allocated - 1 == 0) ≡ false = ground arith in
    let push = (v.allocated == m.objects_per_slab) && ltb (v.allocated - 1) m.objects_per_slab in
    let v' : Slab = record { allocated = v.allocated - 1; objects = b } in
    let in_order : IsSlab m v' = record {
      bytes = bytes;
      room = omega (arith, same, listed.in_order.room);
      counted = omega (arith, rw is_taken at number, listed.in_order.counted);
    } in
    let back = written_back m s slab v' push refl inv listed in_order (omega arith) in
    (
      write_slab (if push then push_front s slab else s) slab v',
      rw (header_found m slab i laid lt, index_found m slab i laid lt, next, more, eb) refl,
      record {
        marks = rw (==_refl slab) written;
        counts = rw (==_refl slab) (omega arith);
        others = λ u ne. others_kept s slab u v' push ne;
        linked = back.1;
        sound = back.0;
      },
    )
