-- ===== src/Mm/Init.antt =====
-- kernel/kernel/src/mm/init.rs: what the memory map says, and the ranges that are kept out of use. A range
-- of frames is its first frame and the frame behind its last; `none` is a panic.
pub mod Choice
pub mod Sorting
use corrosios.Base.{
  ℕ, zero, suc, ◌+◌, Option, none, some, Bool, true, false, List, [], ◌∷◌, ◌++◌, ltb, leb, ◌==◌,
  ◌||◌, if◌then◌else◌, ◌>>=◌, wadd, wsub, length,
}
use corrosios.Mm.Types.{containing_page, containing_tail_page}
use corrosios.Mm.Early.{BootHeap, used_range}
use corrosios.Mm.Usable.{iter_usable_ranges}
use corrosios.Mm.Kimage.{Image, phys_end}

pub record MemoryRange : Type 0 where
  pub start_page : ℕ
  pub page_count : ℕ
  pub kind : ℕ

abbrev pub usable : ℕ
usable = 1

abbrev firmware_boot : ℕ
firmware_boot = 2

abbrev is_usable : ℕ → Bool
is_usable kind = (kind == usable) || (kind == firmware_boot)

abbrev is_early_usable : ℕ → Bool
is_early_usable kind = kind == usable

abbrev frames_of : MemoryRange → ℕ × ℕ
frames_of r = (r.start_page, wadd r.start_page r.page_count)

-- `filter` and `map`
unfoldable pub ranges_where : (ℕ → Bool) → List MemoryRange → List (ℕ × ℕ)
ranges_where p [] = []
ranges_where p (r ∷ rs) =
    let rest = ranges_where p rs in if p r.kind then frames_of r ∷ rest else rest

abbrev pub early_usable_ranges : List MemoryRange → List (ℕ × ℕ)
early_usable_ranges mem_map = ranges_where is_early_usable mem_map

unfoldable pub iter_early_usable_ranges : List MemoryRange → List (ℕ × ℕ) → Option (List (ℕ × ℕ))
iter_early_usable_ranges mem_map reserved_ranges =
    iter_usable_ranges (early_usable_ranges mem_map) reserved_ranges

-- What the closure does with the largest range so far.
abbrev pub larger : Option (ℕ × ℕ) → ℕ × ℕ → Option (ℕ × ℕ)
larger none r = some r
larger (some (cur_start, cur_end)) (start, end) =
    if ltb (wsub cur_end cur_start) (wsub end start)
    then some (start, end)
    else some (cur_start, cur_end)

abbrev pub largest_of : Option (ℕ × ℕ) → List (ℕ × ℕ) → Option (ℕ × ℕ)
largest_of largest [] = largest
largest_of largest (r ∷ rs) = largest_of (larger largest r) rs

unfoldable pub largest_early_usable_range : List MemoryRange → List (ℕ × ℕ) → Option (ℕ × ℕ)
largest_early_usable_range mem_map reserved_ranges =
    iter_early_usable_ranges mem_map reserved_ranges >>= λ reports. largest_of none reports

-- `max`, of numbers.
abbrev max_of : List (ℕ × ℕ) → Option ℕ
max_of [] = none
max_of ((start, end) ∷ rs) =
    let rest = max_of rs in
    elim rest [ none ↦ some end | some m ↦ if ltb m end then some end else some m ]

unfoldable highest_usable_pfn : List MemoryRange → Option ℕ
highest_usable_pfn mem_map = max_of (ranges_where is_usable mem_map)

-- `sort_unstable_by_key` with the start as the key.
abbrev pub insert_range : ℕ × ℕ → List (ℕ × ℕ) → List (ℕ × ℕ)
insert_range r [] = r ∷ []
insert_range (from, to) ((start, end) ∷ rs) =
    let later = insert_range (from, to) rs in
    if ltb start from then (start, end) ∷ later else (from, to) ∷ (start, end) ∷ rs

unfoldable pub sort_reserved_ranges : List (ℕ × ℕ) → List (ℕ × ℕ)
sort_reserved_ranges [] = []
sort_reserved_ranges (r ∷ rs) = insert_range r (sort_reserved_ranges rs)

-- The room in an array of reserved ranges, and `RESERVED_RANGES`.
abbrev reserved_capacity : ℕ
reserved_capacity = 5

abbrev pub lowmem_limit : ℕ
lowmem_limit = 256

unfoldable pub gather_reserved_ranges : Image → ℕ × ℕ → List (ℕ × ℕ)
gather_reserved_ranges k bootinfo_range =
    sort_reserved_ranges ((k.phys_base, phys_end k) ∷ bootinfo_range ∷ (0, lowmem_limit) ∷ [])

unfoldable reserve_bootheap : List (ℕ × ℕ) → BootHeap → Option (List (ℕ × ℕ))
reserve_bootheap reserved_ranges heap =
    let (start, end) = used_range heap in
    if ltb (length reserved_ranges) reserved_capacity
    then some (
        sort_reserved_ranges
          (reserved_ranges ++ ((containing_page start, containing_tail_page end) ∷ [])))
    else none
