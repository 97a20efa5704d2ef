-- ===== src/Mm/Pt.antt =====
-- kernel/kernel/src/mm/pt.rs: the walk through the tables. The tables are a function from a table's
-- frame and an index to an entry. The allocator of tables is a parameter on a state of its own, and the
-- pages reported for the TLB and the tables given back are lists, in the order of the calls.
pub mod Map
pub mod Update
pub mod Cull
pub mod Walks
pub mod Finish
pub mod Mapping
pub mod Updating
pub mod Culling
use corrosios.Base.{
  ℕ, zero, suc, ◌+◌, ◌-◌, ◌*◌, ◌/◌, ◌%◌, ◌^◌, min, Option, none, some, Bool, true, false, List, [],
  ◌∷◌, ◌++◌, ltb, leb, ◌==◌, ◌&&◌, ◌||◌, not, if◌then◌else◌, wadd, wsub, wshl,
}
use corrosios.Err.{Error, resource_overlap, Outcome, ok, err, panic}
use corrosios.NumUtils.{align_up}
use corrosios.Mm.Types.{PageTablePerms, CacheMode, pt_index}
use corrosios.Mm.Mmu.{
  pt_entry_count, pt_level_count, pt_level_shift, make_empty_pte, make_terminal_pte,
  make_intermediate_pte, update_pte_perms, get_pte_frame, pte_is_present, pte_is_terminal,
  supports_page_size,
}

pub record MappingPointer : Type 0 where
  pub base : ℕ
  pub size : ℕ
  pub offset : ℕ

abbrev pub new_pointer : ℕ → ℕ → MappingPointer
new_pointer base size = record { base = base; size = size; offset = 0 }

abbrev pub virt : MappingPointer → ℕ
virt p = wadd p.base p.offset

abbrev pub remaining_pages : MappingPointer → ℕ
remaining_pages p = wsub p.size p.offset

abbrev pub advance : MappingPointer → ℕ → MappingPointer
advance p pages = record p { offset = wadd p.offset pages }

abbrev pub advance_clamped : MappingPointer → ℕ → MappingPointer
advance_clamped p pages = record p { offset = min (wadd p.offset pages) p.size }

abbrev pub level_page_count : ℕ → ℕ
level_page_count level = 2 ^ (level * 9)

-- `page_num & level_page_mask(level) == 0`
abbrev aligned_for_level : ℕ → ℕ → Bool
aligned_for_level page_num level = page_num % level_page_count level == 0

unfoldable pub covers_level_entry : MappingPointer → ℕ → Bool
covers_level_entry p level =
    aligned_for_level (virt p) level && leb (level_page_count level) (remaining_pages p)

unfoldable pub can_use_level_page : ℕ → MappingPointer → ℕ → Bool
can_use_level_page level p phys_base =
    covers_level_entry p level && aligned_for_level (wadd phys_base p.offset) level

-- How far `walk_level` goes at a level.
unfoldable pub max_virt : ℕ → MappingPointer → ℕ
max_virt level p =
    min (wadd (virt p) (remaining_pages p))
      (align_up (wadd (virt p) 1) (512 * level_page_count level))

-- How a call ends: it returns, returns an error, panics, or, in the model only, runs out of fuel.
pub data Walk : Type 0 where
  done : Walk
  failed : Error → Walk
  panicked : Walk
  stuck : Walk

abbrev pub Walked {ℓ} : Type ℓ → Type ℓ
Walked S = Walk × MappingPointer × S

abbrev pub Walker {ℓ} : Type ℓ → Type ℓ
Walker S = MappingPointer → S → Walked S

module _ {ℓ} {S : Type ℓ} where
  -- A call goes on where the one before it returned.
  abbrev pub and_walk : Walked S → (Walker S) → Walked S
  and_walk (done, p, s) k = k p s
  and_walk (failed e, p, s) k = (failed e, p, s)
  and_walk (panicked, p, s) k = (panicked, p, s)
  and_walk (stuck, p, s) k = (stuck, p, s)

  -- The `while` of `walk_level`, up to `max`.
  unfoldable pub walk_loop : ℕ → ℕ → (Walker S) → Walker S
  walk_loop zero max f p s = if ltb (virt p) max then (stuck, p, s) else (done, p, s)
  walk_loop (suc fuel) max f p s =
      if ltb (virt p) max then and_walk (f p s) (walk_loop fuel max f) else (done, p, s)

  -- A round advances the pointer by a page at least, so the rounds are at most the pages that remain.
  unfoldable pub walk_level : ℕ → (Walker S) → Walker S
  walk_level level f p s = walk_loop (remaining_pages p) (max_virt level p) f p s

abbrev pub Tables : Type 0
Tables = ℕ → ℕ → ℕ

-- The entries are read and written at indices below 512.
unfoldable pub set : Tables → ℕ → ℕ → ℕ → Tables
set t table index entry = λ u i. if (table == u) && (index == i) then entry else t u i

unfoldable pub clear_table : Tables → ℕ → Tables
clear_table t table = λ u i. if table == u then make_empty_pte else t u i

pub data NextTable : Type 0 where
  next : ℕ → NextTable
  not_present : NextTable
  terminal_entry : ℕ → NextTable

unfoldable pub next_table : Tables → ℕ → ℕ → ℕ → NextTable
next_table t table index level =
    let pte = t table index in
    if not (pte_is_present pte level)
    then not_present
    else if pte_is_terminal pte level
    then terminal_entry pte
    else next (get_pte_frame pte level)

-- `(0..PT_ENTRY_COUNT).all(..)`, for the lowest `n` entries.
unfoldable pub table_is_empty : ℕ → Tables → ℕ → ℕ → Bool
table_is_empty zero t table level = true
table_is_empty (suc n) t table level =
    let rest = table_is_empty n t table level in not (pte_is_present (t table n) level) && rest
