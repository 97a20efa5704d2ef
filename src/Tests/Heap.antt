-- ===== src/Tests/Heap.antt =====
-- kernel/kernel/src/mm/heap.rs: the theorems at the class of 16 bytes and a slab of two objects.
use corrosios.Base.{true, ℕ, ◌+◌, ◌*◌, ◌^◌, ◌≤◌, ◌≡◌, refl, arith, Option, some, [], ◌∷◌}
use corrosios.Err.{Outcome, ok}
use corrosios.Bitmap.{get}
use corrosios.Bitmap.Laws.{bit}
use corrosios.Mm.Heap.{
  SizeClassMeta, slab_size, slab_bytes, new_meta, first_object_offset, bitmap_bytes,
}
use corrosios.Mm.Heap.Slab.{SizeClassInner, allocate_object, deallocate_object}
use corrosios.Mm.Heap.Layouts.{new_meta-lays_out}
use corrosios.Mm.Heap.Returning.{IsLaid, IsListed, Returns, deallocate_object-Returns}
use corrosios.Mm.Heap.Slabs.{object_at, IsSound}
use corrosios.Mm.Heap.Serving.{Serves, allocate_object-Serves}

new_meta-lays_out_example :
    (m : SizeClassMeta) × (new_meta 24 16 0 ≡ ok m)
    × (24 + bitmap_bytes m ≤ first_object_offset m)
    × (first_object_offset m + m.objects_per_slab * 16 ≡ slab_size 0)
    × ((k : ℕ) → slab_bytes 24 16 k ≤ slab_size 0 → k ≤ m.objects_per_slab)
new_meta-lays_out_example = new_meta-lays_out 24 16 0 (omega arith) (omega arith) (omega arith)

abbrev two_objects : SizeClassMeta
two_objects = record { size = 2048; slab_order = 1; objects_per_slab = 2 }

-- The first object of the one slab is taken.
abbrev half_full : SizeClassInner ℕ
half_full = record {
  partial_slabs = 8192 ∷ [];
  slabs = λ a. record { allocated = 1; objects = record { bytes = 1 ∷ [] } };
  frames = 5;
}

half_full-IsSound : IsSound two_objects half_full
unfolding bit get
half_full-IsSound = record {
  once = λ a. grind arith;
  slab = λ a h. record { bytes = (omega arith, tt); room = omega arith; counted = refl };
  part = λ a h. omega arith;
}

abbrev next_block : ℕ → ℕ → Outcome (Option ℕ × ℕ)
next_block order n = ok (some n, n + 2 ^ order)

allocate_object-Serves_example :
    Serves next_block two_objects half_full (allocate_object next_block two_objects half_full)
allocate_object-Serves_example =
    allocate_object-Serves two_objects (omega arith) (omega arith) next_block half_full
      half_full-IsSound (λ f. (some f, f + 2 ^ 1, refl))

-- Both objects are taken.
abbrev all_full : SizeClassInner ℕ
all_full = record {
  partial_slabs = [];
  slabs = λ a. record { allocated = 2; objects = record { bytes = 3 ∷ [] } };
  frames = 5;
}

all_full-IsSound : IsSound two_objects all_full
all_full-IsSound = record {
  once = λ a. omega arith;
  slab = λ a h. absurd (omega arith);
  part = λ a h. absurd (omega arith);
}

all_full-IsListed : IsListed two_objects 8192 all_full
unfolding bit get
all_full-IsListed = record {
  in_order = record { bytes = (omega arith, tt); room = omega arith; counted = refl };
  part = λ h. absurd (omega arith);
  full = λ e. refl;
}

two_objects-IsLaid : IsLaid two_objects 8192
unfolding first_object_offset
two_objects-IsLaid = record {
  sized = omega arith;
  ends = refl;
  aligned = refl;
  some_address = omega arith;
  fits = omega arith;
}

taken_second : bit ((all_full.slabs 8192).objects) 1 ≡ true
unfolding bit get
taken_second = refl

keep_frames : ℕ → ℕ → ℕ → Outcome ℕ
keep_frames pfn order n = ok n

deallocate_object-Returns_example :
    (s' : SizeClassInner ℕ) × (deallocate_object keep_frames two_objects
        (object_at two_objects 8192 1)
        all_full
      ≡ ok s')
    × Returns two_objects 8192 1 all_full s'
deallocate_object-Returns_example =
    deallocate_object-Returns keep_frames two_objects all_full 8192 1 two_objects-IsLaid
      (omega arith) all_full-IsSound all_full-IsListed taken_second (omega arith) (omega arith)
