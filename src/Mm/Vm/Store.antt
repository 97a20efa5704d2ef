-- ===== src/Mm/Vm/Store.antt =====
-- kernel/kernel/src/mm/vm/aspace/tree.rs: the tree of slices. A slice and a mapping are known by a
-- number, under which the store has what is behind its `Arc`. What `QCell` guards is the field `inner`.
-- A loop that runs out of fuel, which the code does not, is `none`.
pub mod Shape
pub mod Finding
pub mod Rounds
pub mod Detaching
use corrosios.Base.{
  ℕ, zero, suc, ◌+◌, Option, none, some, Bool, true, false, List, [], ◌∷◌, ◌==◌, if◌then◌else◌,
  wadd,
}
use corrosios.Err.{
  Error, invalid_state, bad_address, Outcome, ok, err, panic, ok_or, expect, ◌>>=◌, ◌>>◌,
}
use corrosios.Mm.Types.{Protection}
use corrosios.Mm.Vm.Tree.{
  SliceChild, subslice, mapping, SliceInner, Slice, new_slice, check_vpn, get_child,
}

pub record MappingInner : Type 0 where
  pub parent : ℕ
  pub prot : Protection

-- A `Mapping`; its object is a number.
pub record MappingCell : Type 0 where
  pub start : ℕ
  pub page_count : ℕ
  pub object_offset : ℕ
  pub object : ℕ
  pub inner : Option MappingInner

-- Numbers from `next_id` on are not in use.
pub record Store : Type 0 where
  pub slices : ℕ → Slice
  pub mappings : ℕ → MappingCell
  pub next_id : ℕ

abbrev pub set_slice : Store → ℕ → Slice → Store
set_slice s id v = record s { slices = λ u. if id == u then v else s.slices u }

abbrev set_mapping : Store → ℕ → MappingCell → Store
set_mapping s id v = record s { mappings = λ u. if id == u then v else s.mappings u }

-- `Slice::new` and `Mapping::new`, where `Arc::try_new` succeeds.
abbrev pub add_slice : Store → Slice → ℕ × Store
add_slice s v = (s.next_id, record (set_slice s s.next_id v) { next_id = suc s.next_id })

abbrev pub new_mapping : ℕ → ℕ → ℕ → ℕ → ℕ → Protection → MappingCell
new_mapping parent start page_count object object_offset prot = record {
  start = start;
  page_count = page_count;
  object_offset = object_offset;
  object = object;
  inner = some (record { parent = parent; prot = prot });
}

abbrev pub add_mapping : Store → MappingCell → ℕ × Store
add_mapping s v = (s.next_id, record (set_mapping s s.next_id v) { next_id = suc s.next_id })

abbrev slice_inner : Store → ℕ → Outcome SliceInner
slice_inner s id = ok_or ((s.slices id).inner) invalid_state

abbrev mapping_inner : Store → ℕ → Outcome MappingInner
mapping_inner s id = ok_or ((s.mappings id).inner) invalid_state

-- `Slice::parent`, `Mapping::parent` and `Mapping::prot`.
abbrev pub slice_parent : Store → ℕ → Outcome (Option ℕ)
slice_parent s id = slice_inner s id >>= λ i. ok i.parent

abbrev pub mapping_parent : Store → ℕ → Outcome ℕ
mapping_parent s id = mapping_inner s id >>= λ i. ok i.parent

abbrev mapping_prot : Store → ℕ → Outcome Protection
mapping_prot s id = mapping_inner s id >>= λ i. ok i.prot

-- What the loop of `get_mapping` does with a child.
abbrev pub descend : (ℕ → Option (Outcome ℕ)) → Outcome SliceChild → Option (Outcome ℕ)
descend deeper (ok (subslice id start page_count)) = deeper id
descend deeper (ok (mapping id start page_count)) = some (ok id)
descend deeper (err e) = some (err e)
descend deeper panic = some panic

-- The loop of `get_mapping`, a round for each slice.
unfoldable pub find_mapping : ℕ → Store → ℕ → ℕ → Option (Outcome ℕ)
find_mapping zero s vpn id = none
find_mapping (suc rounds) s vpn id =
    descend (find_mapping rounds s vpn)
      (slice_inner s id >>= λ i. ok_or (get_child i vpn) bad_address)

abbrev and_find : Outcome (Unit {0}) → Option (Outcome ℕ) → Option (Outcome ℕ)
and_find (ok u) r = r
and_find (err e) r = some (err e)
and_find panic r = some panic

unfoldable pub get_mapping : ℕ → Store → ℕ → ℕ → Option (Outcome ℕ)
get_mapping rounds s root vpn =
    and_find (check_vpn (s.slices root) vpn) (find_mapping rounds s vpn root)

-- `children.pop_first()`, and the slice that the loop goes on with.
abbrev pub put_children : Slice → List (ℕ × SliceChild) → Slice
put_children v cs = record v {
  inner = elim v.inner [ none ↦ none | some i ↦ some (record i { children = cs }) ];
}

abbrev set_children : Store → ℕ → List (ℕ × SliceChild) → Store
set_children s id cs = set_slice s id (put_children (s.slices id) cs)

-- `inner.rw(owner).take()`
abbrev take_inner : Store → ℕ → Store
take_inner s id = set_slice s id (record (s.slices id) { inner = none })

abbrev pub child_slice : SliceChild → ℕ → ℕ
child_slice (subslice id start page_count) cur = id
child_slice (mapping id start page_count) cur = cur

-- A round of the loop of `detach_children` at `cur`: the slice to go on with, or none at the end.
unfoldable pub detach_step : Store → ℕ → ℕ → Outcome (Option ℕ × Store)
detach_step s self cur = do
  i ← expect ((s.slices cur).inner)
  elim i.children [
    | (key, child) ∷ cs ↦ ok (some (child_slice child cur), set_children s cur cs)
    | [] ↦
        if cur == self
        then ok (none, take_inner s cur)
        else (expect i.parent >>= λ p. ok (some p, take_inner s cur))
  ]

abbrev detach_next :
    (ℕ → Store → Option (Outcome Store)) → Outcome (Option ℕ × Store) → Option (Outcome Store)
detach_next k (ok (some cur, s)) = k cur s
detach_next k (ok (none, s)) = some (ok s)
detach_next k (err e) = some (err e)
detach_next k panic = some panic

unfoldable pub detach_loop : ℕ → ℕ → ℕ → Store → Option (Outcome Store)
detach_loop zero self cur s = none
detach_loop (suc rounds) self cur s = detach_next (detach_loop rounds self) (detach_step s self cur)

unfoldable pub detach_children : ℕ → Store → ℕ → Option (Outcome Store)
detach_children rounds s self = detach_loop rounds self self s
