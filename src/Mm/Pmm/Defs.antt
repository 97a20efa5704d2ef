-- ===== src/Mm/Pmm/Defs.antt =====
-- kernel/kernel/src/mm/pmm.rs, `PhysManager`: the sixteen levels, allocation, and the return of
-- blocks and of ranges. A frame number is a number, and `none` as an outcome is a panic: a failed
-- assertion, an index out of bounds. The lock around the one manager is not modelled here.
use corrosios.Base.{
  ℕ, zero, suc, ◌+◌, ◌-◌, ◌/◌, ◌%◌, ◌^◌, min, Option, none, some, Bool, List, [], ◌∷◌, ltb, leb,
  ◌==◌, if◌then◌else◌, get_elem?, set, ◌>>=◌, ◌>>◌, assert, wadd, wsub, wshl, replicate,
}
use corrosios.Bitmap
use corrosios.NumUtils.{log2, trailing_zeros, div_ceil}
use corrosios.Mm.Early.{BootHeap, alloc_phys}
use corrosios.Mm.Pmm.Level
use corrosios.Mm.Pmm.Level.{BuddyLevel}

abbrev pub order_count : ℕ
order_count = 16

pub record PhysManager : Type 0 where
  pub total_pages : ℕ
  pub levels : List BuddyLevel

-- `pfn >> (order + 1)`
unfoldable pub splitmap_index : ℕ → ℕ → ℕ
splitmap_index pfn order = pfn / 2 ^ (order + 1)

-- `pfn ^ (1 << order)`: the bit at `order` is flipped.
unfoldable pub buddy_of : ℕ → ℕ → ℕ
buddy_of pfn order = if pfn / 2 ^ order % 2 == 0 then pfn + 2 ^ order else pfn - 2 ^ order

-- `pfn & !(1 << order)`: the bit at `order` is cleared.
unfoldable pub parent_of : ℕ → ℕ → ℕ
parent_of pfn order = if pfn / 2 ^ order % 2 == 0 then pfn else pfn - 2 ^ order

-- `self.levels[order] = f(self.levels[order])`
unfoldable pub on_level : (BuddyLevel → Option BuddyLevel) → PhysManager → ℕ → Option PhysManager
on_level f m order = do
  l ← get_elem? m.levels order
  l' ← f l
  some (record m { levels = set m.levels order l' })

unfoldable pub toggle_parent_split : PhysManager → ℕ → ℕ → Option PhysManager
toggle_parent_split m pfn order =
    on_level (λ l. Level.toggle_parent_split l (splitmap_index pfn order)) m order

unfoldable pub is_parent_split : PhysManager → ℕ → ℕ → Option Bool
is_parent_split m pfn order = do
  l ← get_elem? m.levels order
  Level.is_parent_split l (splitmap_index pfn order)

unfoldable pub push_free : PhysManager → ℕ → ℕ → Option PhysManager
push_free m pfn order = on_level (λ l. some (Level.push_free l pfn)) m order

unfoldable pub remove_free : PhysManager → ℕ → ℕ → Option PhysManager
remove_free m pfn order = on_level (λ l. Level.remove_free l pfn) m order

-- The `while` that looks for a block, from order `found_order` on, with `rounds` orders left. The
-- answer is the block, its order and the manager without it.
unfoldable pub find_free : ℕ → PhysManager → ℕ → Option (Option (ℕ × ℕ × PhysManager))
find_free zero m found_order = some none
find_free (suc rounds) m found_order =
    let rest = find_free rounds m (found_order + 1) in
    get_elem? m.levels found_order >>= λ l. elim (Level.pop_free l) [
      | some (pfn, l') ↦
          some (some (pfn, found_order, record m { levels = set m.levels found_order l' }))
      | none ↦ rest
    ]

-- `for cur_order in order..found_order`, with `rounds` orders left from `cur_order` on.
unfoldable pub split_down : ℕ → PhysManager → ℕ → ℕ → Option PhysManager
split_down zero m pfn cur_order = some m
split_down (suc rounds) m pfn cur_order = toggle_parent_split m pfn cur_order >>= λ m1.
    push_free m1 (buddy_of pfn cur_order) cur_order >>= λ m2.
    split_down rounds m2 pfn (cur_order + 1)

unfoldable pub take_block :
    ℕ → Option (ℕ × ℕ × PhysManager) → PhysManager → Option (Option ℕ × PhysManager)
take_block order none m = some (none, m)
take_block order (some (pfn, found_order, m1)) m = do
  m2 ← toggle_parent_split m1 pfn found_order
  m3 ← split_down (found_order - order) m2 pfn order
  some (some pfn, m3)

unfoldable pub allocate : PhysManager → ℕ → Option (Option ℕ × PhysManager)
allocate m order =
    if leb order_count order
    then some (none, m)
    else (find_free (order_count - order) m order >>= λ found. take_block order found m)

-- The `while` that merges, with `rounds` orders left below the top one, and the final push.
unfoldable pub merge_up : ℕ → PhysManager → ℕ → ℕ → Option PhysManager
merge_up zero m pfn order = push_free m pfn order
merge_up (suc rounds) m pfn order = do
  m1 ← toggle_parent_split m pfn order
  split ← is_parent_split m1 pfn order
  let stop = push_free m1 pfn order
  let merge = remove_free m1 (buddy_of pfn order) order >>= λ m2.
      merge_up rounds m2 (parent_of pfn order) (order + 1)
  if split then stop else merge

-- `pfn & ((1 << order) - 1) == 0` says that `2 ^ order` divides `pfn`.
unfoldable pub deallocate : PhysManager → ℕ → ℕ → Option PhysManager
deallocate m pfn order = do
  assert (pfn % 2 ^ order == 0)
  merge_up (order_count - 1 - order) m pfn order

-- The order of the next block that `add_free_range` returns from `start..end`.
unfoldable pub next_order : ℕ → ℕ → ℕ
next_order start end = min (min (trailing_zeros start) (log2 (wsub end start))) (order_count - 1)

-- The `while` of `add_free_range`; out of fuel it is `none`.
unfoldable pub add_blocks : ℕ → PhysManager → ℕ → ℕ → Option PhysManager
add_blocks zero m start end = none
add_blocks (suc fuel) m start end =
    let order = next_order start end in
    let rest =
      deallocate m start order >>= λ m1. add_blocks fuel m1 (wadd start (wshl 1 order)) end in
    if ltb start end then rest else some m

-- A block has one frame at least, so a range takes as many rounds as it has frames, and one more.
unfoldable pub add_free_range : PhysManager → ℕ → ℕ → Option PhysManager
add_free_range m start end = do
  let size = wsub end start
  m1 ← add_blocks (end - start + 1) m start end
  some (record m1 { total_pages = wadd m1.total_pages size })

-- `sum` over the levels of `free_blocks << order`, from the level of the given order on.
unfoldable pub free_pages_from : ℕ → List BuddyLevel → ℕ
free_pages_from order [] = 0
free_pages_from order (l ∷ ls) = wadd (wshl l.free_blocks order) (free_pages_from (order + 1) ls)

unfoldable pub free_pages : PhysManager → ℕ
free_pages m = free_pages_from 0 m.levels

-- The size of the split bitmap of a level: the bitmap tracks pairs of blocks.
unfoldable pub splitmap_bytes : ℕ → ℕ → ℕ
splitmap_bytes max_pfn order = Bitmap.bytes_required (div_ceil max_pfn (wshl 1 (order + 1)))

-- `array::from_fn` over the orders, with `rounds` orders left from `order` on. The bitmap is the
-- zeroed memory from the boot heap.
unfoldable pub new_levels : ℕ → ℕ → ℕ → BootHeap → Option (List BuddyLevel × BootHeap)
new_levels zero order max_pfn h = some ([], h)
new_levels (suc rounds) order max_pfn h =
    let bytes = splitmap_bytes max_pfn order in
    let level : BuddyLevel = record {
      free_list = [];
      free_blocks = 0;
      splitmap = record { bytes = replicate bytes 0 };
    } in
    alloc_phys h (record { size = bytes; align = 1 }) >>= λ (_, h1).
    new_levels rounds (order + 1) max_pfn h1 >>= λ (ls, h2). some (level ∷ ls, h2)

unfoldable pub new : ℕ → BootHeap → Option (PhysManager × BootHeap)
new max_pfn h = do
  (levels, h') ← new_levels order_count 0 max_pfn h
  some (record { total_pages = 0; levels = levels }, h')
