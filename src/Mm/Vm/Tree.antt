-- ===== src/Mm/Vm/Tree.antt =====
-- kernel/kernel/src/mm/vm/aspace/tree.rs: a slice of an address space and its direct children. A
-- child refers to its object by a number and carries the two fields that never change, its start and
-- its page count. `inner` is `none` in a detached slice.
pub mod Tiles
pub mod Fixed
pub mod Lookup
pub mod Removal
pub mod Gaps
pub mod Edges
use corrosios.Base.{
  ℕ, zero, suc, ◌^◌, Option, none, some, Bool, true, false, List, [], ◌∷◌, ltb, leb, ◌==◌, ◌&&◌,
  ◌||◌, if◌then◌else◌, wadd, wsub, wshl, checked_add,
}
use corrosios.Err.{
  Error, invalid_argument, invalid_state, bad_address, resource_overlap, out_of_resources, Outcome,
  ok, err, panic, ok_or, expect, fail_if, ◌>>=◌, ◌>>◌,
}
use corrosios.NumUtils.{align_up}
use corrosios.Mm.Vm.BTreeMap
use corrosios.Mm.Vm.BTreeMap.{insert, last_below, first_from}

pub data SliceChild : Type 0 where
  subslice : (id start page_count : ℕ) → SliceChild
  mapping : (id start page_count : ℕ) → SliceChild

abbrev pub child_start : SliceChild → ℕ
child_start (subslice id start page_count) = start
child_start (mapping id start page_count) = start

abbrev pub child_pages : SliceChild → ℕ
child_pages (subslice id start page_count) = page_count
child_pages (mapping id start page_count) = page_count

abbrev pub child_end : SliceChild → ℕ
child_end c = wadd (child_start c) (child_pages c)

pub record SliceInner : Type 0 where
  pub parent : Option ℕ
  pub children : List (ℕ × SliceChild)

pub record Slice : Type 0 where
  pub start : ℕ
  pub page_count : ℕ
  pub inner : Option SliceInner

abbrev pub slice_end : Slice → ℕ
slice_end s = wadd s.start s.page_count

-- `Slice::new`, an attached slice with no children.
unfoldable pub new_slice : Option ℕ → ℕ → ℕ → Slice
new_slice parent start page_count = record {
  start = start;
  page_count = page_count;
  inner = some (record { parent = parent; children = [] });
}

unfoldable pub check_vpn : Slice → ℕ → Outcome (Unit {0})
check_vpn s vpn = fail_if (ltb vpn s.start || leb (slice_end s) vpn) bad_address

-- The entry before `start` reaches beyond it.
abbrev pub prev_overlaps : Option (ℕ × SliceChild) → ℕ → Bool
prev_overlaps none start = false
prev_overlaps (some (k, c)) start = ltb start (child_end c)

-- The entry from `start` on begins before `end`.
abbrev pub next_overlaps : Option (ℕ × SliceChild) → ℕ → Bool
next_overlaps none end = false
next_overlaps (some (k, c)) end = ltb (child_start c) end

abbrev pub with_children : Slice → SliceInner → List (ℕ × SliceChild) → Slice
with_children s i cs = record s { inner = some (record i { children = cs }) }

unfoldable pub alloc_spot_fixed : Slice → ℕ → ℕ → SliceChild → Outcome Slice
alloc_spot_fixed s start page_count child = do
  end ← ok_or (checked_add start page_count) invalid_argument
  fail_if (ltb start s.start || ltb (slice_end s) end) invalid_argument
  i ← ok_or s.inner invalid_state
  fail_if (prev_overlaps (last_below start i.children) start) resource_overlap
  fail_if (next_overlaps (first_from start i.children) end) resource_overlap
  ok (with_children s i (insert start child i.children))

-- A break ends the iteration with its value.
abbrev pub break_or {ℓ} : {B : Type ℓ} → Option B → Option B → Option B
break_or none rest = rest
break_or (some b) rest = some b

module _ {ℓ} {B : Type ℓ} (f : ℕ → ℕ → Option B) where
  -- The call of `f` on a gap, where there is one: `some` is a break.
  abbrev pub gap : ℕ → ℕ → Option B
  gap from to = if ltb from to then f from (wsub to from) else none

  -- The loop over the children behind `last_end`, and the tail of the slice.
  unfoldable pub later_gaps : ℕ → ℕ → List (ℕ × SliceChild) → Option B
  later_gaps slice_end last_end [] = gap last_end slice_end
  later_gaps slice_end last_end ((k, c) ∷ cs) =
      break_or (gap last_end k) (later_gaps slice_end (child_end c) cs)

  unfoldable pub gaps_of : Slice → List (ℕ × SliceChild) → Option B
  gaps_of s [] = f s.start s.page_count
  gaps_of s ((k, c) ∷ cs) = break_or (gap s.start k) (later_gaps (slice_end s) (child_end c) cs)

  unfoldable pub iter_gaps : Slice → Outcome (Option B)
  iter_gaps s = ok_or s.inner invalid_state >>= λ i. ok (gaps_of s i.children)

-- What `alloc_spot_dynamic` asks of a gap.
unfoldable pub fit_gap : ℕ → ℕ → ℕ → ℕ → Option ℕ
fit_gap align page_count gap_start gap_page_count =
    let aligned_gap_start = align_up gap_start align in
    let gap_padding = wsub aligned_gap_start gap_start in
    let aligned_page_count = wsub gap_page_count gap_padding in
    if ltb page_count aligned_page_count then some aligned_gap_start else none

unfoldable pub alloc_spot_dynamic :
    Slice → ℕ → ℕ → (ℕ → Outcome SliceChild) → Outcome (SliceChild × Slice)
alloc_spot_dynamic s align_order page_count f = do
  found ← iter_gaps (fit_gap (wshl 1 align_order) page_count) s
  gap_start ← ok_or found out_of_resources
  child ← f gap_start
  i ← expect s.inner
  ok (child, with_children s i (insert gap_start child i.children))

pub data MapBase : Type 0 where
  fixed : ℕ → MapBase
  aligned : (align_order : ℕ) → MapBase

unfoldable pub alloc_spot :
    Slice → MapBase → ℕ → (ℕ → Outcome SliceChild) → Outcome (SliceChild × Slice)
alloc_spot s (fixed start) page_count f = do
  child ← f start
  s' ← alloc_spot_fixed s start page_count child
  ok (child, s')
alloc_spot s (aligned align_order) page_count f = alloc_spot_dynamic s align_order page_count f

unfoldable pub remove_child : Slice → ℕ → Outcome Slice
remove_child s start = do
  i ← ok_or s.inner invalid_state
  cs ← expect (BTreeMap.remove start i.children)
  ok (with_children s i cs)

-- `filter(|child| vpn < child.end())`
abbrev pub holding : ℕ → Option (ℕ × SliceChild) → Option SliceChild
holding vpn none = none
holding vpn (some (k, c)) = if ltb vpn (child_end c) then some c else none

unfoldable pub get_child : SliceInner → ℕ → Option SliceChild
get_child i vpn = holding vpn (last_below vpn i.children)
