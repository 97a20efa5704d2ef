-- ===== src/Mm/Heap/Slabs.antt =====
-- kernel/kernel/src/mm/heap.rs: slabs in good order, and the taking of an object.
use corrosios.Base.{
  ==_refl, ℕ, ◌+◌, ◌<◌, ◌≤◌, ◌≡◌, ◌≢◌, refl, arith, Option, none, some, Bool, true, false, count,
  ltb, ◌==◌, if◌then◌else◌, wadd, wmul, Bool-cases, inl, inr, replicate, length-replicate,
  All-replicate, usize_mod, ◌-◌, ltb→lt,
}
use corrosios.Err.{ok}
use corrosios.NumUtils.Rounding.{div_ceil_covers}
use corrosios.Bitmap.{first_zero, bytes_required}
use corrosios.Bitmap.Laws.{IsBytes, bit, size, set-unset_write}
use corrosios.Bitmap.Search.{IsFirstZero, first_zero-IsFirstZero}
use corrosios.Bitmap.Taken.{taken, taken-full, taken-zeros, taken-write, IsWritten}
use corrosios.Mm.Heap.{SizeClassMeta, first_object_offset, bitmap_bytes}
use corrosios.Mm.Heap.Slab.{Slab, SizeClassInner, take_object, write_slab, push_front}

-- The bitmap has a bit for each object, and the counter is the number of those that are set.
pub record IsSlab (m : SizeClassMeta) (v : Slab) : Type 0 where
  pub bytes : IsBytes v.objects
  pub room : m.objects_per_slab ≤ size v.objects
  pub counted : taken v.objects m.objects_per_slab ≡ v.allocated

-- The partial slabs are different, and each has an object to give.
pub record IsSound {ℓ} {P : Type ℓ} (m : SizeClassMeta) (s : SizeClassInner P) : Type 0 where
  pub once : (a : ℕ) → count a s.partial_slabs ≤ 1
  pub slab : (a : ℕ) → 0 < count a s.partial_slabs → IsSlab m (s.slabs a)
  pub part : (a : ℕ) → 0 < count a s.partial_slabs → (s.slabs a).allocated < m.objects_per_slab

pub different : (a b : ℕ) → b ≢ a → (a == b) ≡ false
different a b ne = ground arith

-- The first object that is free.
free_object :
    (m : SizeClassMeta) (v : Slab)
    → IsSlab m v
    → v.allocated < m.objects_per_slab
    → (i : ℕ) × (first_zero v.objects m.objects_per_slab ≡ some (some i))
      × (i < m.objects_per_slab)
      × (bit v.objects i ≡ false)
free_object m v is_slab part =
    let (r, e, first) = first_zero-IsFirstZero v.objects m.objects_per_slab is_slab.room in
    go r e first
  where
    go :
        (r : Option ℕ)
        → first_zero v.objects m.objects_per_slab ≡ some r
        → IsFirstZero v.objects 0 m.objects_per_slab r
        → (i : ℕ) × (first_zero v.objects m.objects_per_slab ≡ some (some i))
          × (i < m.objects_per_slab)
          × (bit v.objects i ≡ false)
    go none e all = absurd (
        omega (
          arith,
          is_slab.counted,
          taken-full v.objects m.objects_per_slab (λ j lt. all j (omega arith) (omega arith)),
        ))
    go (some i) e (_, below, clear, _) = (i, e, omega arith, clear)

-- A sound state with one slab written and the slab pushed or not is sound.
pub written-IsSound {ℓ} :
    {P : Type ℓ} (m : SizeClassMeta) (s : SizeClassInner P) (slab : ℕ) (v : Slab) (push : Bool)
    → IsSound m s
    → count slab s.partial_slabs ≡ 0
    → IsSlab m v
    → (push ≡ true → v.allocated < m.objects_per_slab)
    → IsSound m (write_slab (if push then push_front s slab else s) slab v)
written-IsSound m s slab v true inv apart is_slab part = record {
  once = λ a. elim (Bool-cases (slab == a)) [
    | inl here ↦ let e : slab ≡ a = ground arith in rw here (omega (arith, apart, rw e at apart))
    | inr other ↦ rw other (omega (arith, inv.once a))
  ];
  slab = λ a h. elim (Bool-cases (slab == a)) [
    | inl here ↦ rw here is_slab
    | inr other ↦ rw other (inv.slab a (omega (arith, rw other at h)))
  ];
  part = λ a h. elim (Bool-cases (slab == a)) [
    | inl here ↦ rw here (part refl)
    | inr other ↦ rw other (inv.part a (omega (arith, rw other at h)))
  ];
}
written-IsSound m s slab v false inv apart is_slab part = record {
  once = inv.once;
  slab = λ a h. elim (Bool-cases (slab == a)) [
    | inl here ↦ rw here is_slab
    | inr other ↦ rw other (inv.slab a h)
  ];
  part = λ a h. elim (Bool-cases (slab == a)) [
    | inl here ↦ let e : slab ≡ a = ground arith in absurd (omega (arith, h, rw e at apart))
    | inr other ↦ rw other (inv.part a h)
  ];
}

-- An object of a slab goes from free to taken, and nothing else changes in the slabs.
pub record Takes {ℓ} {P : Type ℓ} (m : SizeClassMeta) (slab i : ℕ) (before : Slab)
    (s s' : SizeClassInner P) : Type 0 where
  pub in_slab : i < m.objects_per_slab
  pub was_free : bit before.objects i ≡ false
  pub marks : IsWritten before.objects ((s'.slabs slab).objects) i true
  pub counts : (s'.slabs slab).allocated ≡ before.allocated + 1
  pub others : (u : ℕ) → u ≢ slab → s'.slabs u ≡ s.slabs u
  pub sound : IsSound m s'

-- The address of an object.
abbrev pub object_at : SizeClassMeta → ℕ → ℕ → ℕ
object_at m slab i = wadd slab (wadd (first_object_offset m) (wmul i m.size))

pub others_kept {ℓ} :
    {P : Type ℓ} (s : SizeClassInner P) (slab u : ℕ) (v : Slab) (push : Bool)
    → u ≢ slab
    → (write_slab (if push then push_front s slab else s) slab v).slabs u ≡ s.slabs u
others_kept s slab u v true ne = rw (different slab u ne) refl
others_kept s slab u v false ne = rw (different slab u ne) refl

frames_kept {ℓ} :
    {P : Type ℓ} (s : SizeClassInner P) (slab : ℕ) (v : Slab) (push : Bool)
    → (write_slab (if push then push_front s slab else s) slab v).frames ≡ s.frames
frames_kept s slab v true = refl
frames_kept s slab v false = refl

pub take_object-Takes {ℓ} :
    {P : Type ℓ} (m : SizeClassMeta) (slab : ℕ) (s : SizeClassInner P)
    → m.objects_per_slab < usize_mod
    → IsSound m s
    → count slab s.partial_slabs ≡ 0
    → IsSlab m (s.slabs slab)
    → (s.slabs slab).allocated < m.objects_per_slab
    → (i : ℕ) × (s' : SizeClassInner P) × (take_object m slab s
        ≡ ok (some (object_at m slab i), s'))
      × (s'.frames ≡ s.frames)
      × Takes m slab i (s.slabs slab) s s'
unfolding take_object
take_object-Takes {P = P} m slab s small inv apart is_slab part =
    let v = s.slabs slab in
    let (i, e, below, clear) = free_object m v is_slab part in
    let (b, eb, bytes, same, written) =
      (set-unset_write v.objects i is_slab.bytes (omega (arith, is_slab.room, below))).0 in
    let next : wadd v.allocated 1 ≡ v.allocated + 1 = omega arith in
    let push = ltb (v.allocated + 1) m.objects_per_slab in
    let v' : Slab = record { allocated = v.allocated + 1; objects = b } in
    let number = taken-write v.objects b i m.objects_per_slab true written below in
    let is_slab' : IsSlab m v' = record {
      bytes = bytes;
      room = omega (arith, same, is_slab.room);
      counted = omega (arith, is_slab.counted, rw clear at number);
    } in
    let s' : SizeClassInner P = write_slab (if push then push_front s slab else s) slab v' in
    (
      i,
      s',
      rw (e, eb, next) refl,
      frames_kept s slab v' push,
      record {
        in_slab = below;
        was_free = clear;
        marks = rw (==_refl slab) written;
        counts = rw (==_refl slab) refl;
        others = λ u ne. others_kept s slab u v' push ne;
        sound = written-IsSound m s slab v' push inv apart is_slab' (ltb→lt _ _);
      },
    )

pub blank-IsSlab :
    (m : SizeClassMeta)
    → m.objects_per_slab < usize_mod - 8
    → IsSlab m (record { allocated = 0; objects = record { bytes = replicate (bitmap_bytes m) 0 } })
unfolding bitmap_bytes bytes_required
blank-IsSlab m small = record {
  bytes = All-replicate _ (bitmap_bytes m) 0 (omega arith);
  room =
      rw (length-replicate {A = ℕ} (bitmap_bytes m) 0)
        (omega (arith, (div_ceil_covers m.objects_per_slab 8 (omega arith) (omega arith)).0));
  counted = taken-zeros (bitmap_bytes m) m.objects_per_slab;
}
