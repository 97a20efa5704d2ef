-- ===== src/Mm/Heap.antt =====
-- kernel/kernel/src/mm/heap.rs: the classes of sizes that the kernel's heap serves from slabs. The
-- arguments of `new` are constants, for which the compiler checks the arithmetic; a check that fails
-- is `panic`.
pub mod Slab
pub mod Alloc
pub mod Layouts
pub mod Classes
pub mod Slabs
pub mod Serving
pub mod Returning
use corrosios.Base.{
  ℕ, zero, suc, ◌+◌, ◌-◌, ◌*◌, ◌/◌, ◌^◌, Option, none, some, Bool, List, [], ◌∷◌, ltb, leb, ◌==◌,
  not, if◌then◌else◌, wsub, wshl, get_elem?,
}
use corrosios.Err.{Outcome, ok, panic, ensure, ◌>>=◌, ◌>>◌}
use corrosios.NumUtils.{align_up, div_ceil, log2_ceil}
use corrosios.Bitmap.{bytes_required}
use corrosios.Mm.Early.{Layout}

abbrev pub page_size : ℕ
page_size = 2 ^ 12

unfoldable pub get_effective_size : Layout → ℕ
get_effective_size layout = align_up layout.size layout.align

unfoldable pub to_page_count : ℕ → ℕ
to_page_count bytes = div_ceil bytes page_size

unfoldable pub raw_page_order : ℕ → ℕ
raw_page_order bytes = log2_ceil (to_page_count bytes)

pub record SizeClassMeta : Type 0 where
  pub size : ℕ
  pub slab_order : ℕ
  pub objects_per_slab : ℕ

-- The bytes of a slab.
abbrev pub slab_size : ℕ → ℕ
slab_size slab_order = page_size * 2 ^ slab_order

module _ (slab_header_size : ℕ) where
  -- The bytes that a slab of so many objects uses.
  abbrev pub slab_bytes : ℕ → ℕ → ℕ
  slab_bytes size objects = slab_header_size + bytes_required objects + objects * size

  -- The `while` of `new`.
  unfoldable pub shrink : ℕ → ℕ → ℕ → Outcome ℕ
  shrink room size zero = if leb (slab_bytes size 0) room then ok 0 else panic
  shrink room size (suc objects) =
      let fewer = shrink room size objects in
      if leb (slab_bytes size (suc objects)) room then ok (suc objects) else fewer

  unfoldable pub new_meta : ℕ → ℕ → Outcome SizeClassMeta
  new_meta size slab_order = do
    ensure (leb slab_header_size (slab_size slab_order))
    ensure (not (size == 0))
    n ← shrink (slab_size slab_order) size ((slab_size slab_order - slab_header_size) / size)
    ok (record { size = size; slab_order = slab_order; objects_per_slab = n })

unfoldable pub first_object_offset : SizeClassMeta → ℕ
first_object_offset m = wsub (slab_size m.slab_order) (m.size * m.objects_per_slab)

unfoldable pub bitmap_bytes : SizeClassMeta → ℕ
bitmap_bytes m = bytes_required m.objects_per_slab

-- The arguments of `ALLOCATOR`: the sizes with the orders of their slabs.
abbrev pub allocator_classes : List (ℕ × ℕ)
allocator_classes =
    (2, 0)
    ∷ (8, 0)
    ∷ (16, 0)
    ∷ (32, 0)
    ∷ (48, 0)
    ∷ (64, 0)
    ∷ (80, 0)
    ∷ (96, 0)
    ∷ (128, 0)
    ∷ (160, 0)
    ∷ (192, 0)
    ∷ (224, 0)
    ∷ (256, 1)
    ∷ (320, 1)
    ∷ (384, 1)
    ∷ (448, 1)
    ∷ (512, 2)
    ∷ (640, 2)
    ∷ (768, 2)
    ∷ (896, 2)
    ∷ (1024, 3)
    ∷ (1280, 3)
    ∷ (1536, 3)
    ∷ (1792, 3)
    ∷ (2048, 3)
    ∷ []

-- The answer of `binary_search_by_key` in ascending keys, an index in either case: how many keys are
-- below the one asked for.
unfoldable pub search_key : List ℕ → ℕ → ℕ
search_key [] key = 0
search_key (k ∷ ks) key = let later = search_key ks key in if ltb k key then suc later else 0

unfoldable pub sizes : List (ℕ × ℕ) → List ℕ
sizes [] = []
sizes ((size, slab_order) ∷ cs) = size ∷ sizes cs

-- The size of the class, with its index.
unfoldable pub get_size_class : ℕ → Option (ℕ × ℕ)
get_size_class effective_size =
    let i = search_key (sizes allocator_classes) effective_size in
    elim (get_elem? allocator_classes i) [ none ↦ none | some c ↦ some (i, c.0) ]

unfoldable pub usable_size : ℕ → ℕ
usable_size effective_size = elim (get_size_class effective_size) [
  | some c ↦ c.1
  | none ↦ wshl page_size (raw_page_order effective_size)
]
