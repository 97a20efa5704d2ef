-- ===== src/Mm/Vm/Store/Shape.antt =====
-- kernel/kernel/src/mm/vm/aspace/tree.rs: the trees of slices that a store holds.
use corrosios.Base.{ℕ, suc, ◌+◌, ◌<◌, ◌≡◌, Option, some, List, [], ◌∷◌, ◌++◌, usize_mod, ◌⊎◌}
use Prim.Native.Nat.{max}
use corrosios.Mm.Vm.Tree.{SliceChild, subslice, mapping, Slice}
use corrosios.Mm.Vm.Tree.Tiles.{Tiles}
use corrosios.Mm.Vm.Store.{Store}

-- A slice with what is below it, as far as slices go; a mapping by its number, start and page count.
mutual
  pub data SliceTree : Type 0 where
    node : (id start page_count : ℕ) → Kids → SliceTree

  pub data Kids : Type 0 where
    no_kids : Kids
    mapping_kid : (id start page_count : ℕ) → Kids → Kids
    slice_kid : SliceTree → Kids → Kids

abbrev tree_id : SliceTree → ℕ
tree_id (node id start page_count ks) = id

-- The tree as a child of a slice, and the children of a slice.
abbrev tree_child : SliceTree → ℕ × SliceChild
tree_child (node id start page_count ks) = (start, subslice id start page_count)

abbrev pub entries : Kids → List (ℕ × SliceChild)
entries no_kids = []
entries (mapping_kid id start page_count ks) = (start, mapping id start page_count) ∷ entries ks
entries (slice_kid t ks) = tree_child t ∷ entries ks

unfoldable mutual
  -- The numbers of the slices of a tree.
  pub ids : SliceTree → List ℕ
  ids (node id start page_count ks) = id ∷ kids_ids ks

  pub kids_ids : Kids → List ℕ
  kids_ids no_kids = []
  kids_ids (mapping_kid id start page_count ks) = kids_ids ks
  kids_ids (slice_kid t ks) = ids t ++ kids_ids ks

unfoldable mutual
  pub depth : SliceTree → ℕ
  depth (node id start page_count ks) = suc (kids_depth ks)

  pub kids_depth : Kids → ℕ
  kids_depth no_kids = 0
  kids_depth (mapping_kid id start page_count ks) = kids_depth ks
  kids_depth (slice_kid t ks) = max (depth t) (kids_depth ks)

-- An attached slice.
abbrev pub attached : Option ℕ → ℕ → ℕ → List (ℕ × SliceChild) → Slice
attached parent start page_count cs = record {
  start = start;
  page_count = page_count;
  inner = some (record { parent = parent; children = cs });
}

unfoldable mutual
  -- The store has the tree, whose root has this parent.
  pub Holds : Store → Option ℕ → SliceTree → Type 0
  Holds s parent (node id start page_count ks) =
      (s.slices id ≡ attached parent start page_count (entries ks)) × HoldsAll s id ks

  pub HoldsAll : Store → ℕ → Kids → Type 0
  HoldsAll s id no_kids = Unit
  HoldsAll s id (mapping_kid m start page_count ks) = HoldsAll s id ks
  HoldsAll s id (slice_kid t ks) = Holds s (some id) t × HoldsAll s id ks

unfoldable mutual
  -- In every slice of the tree the children lie in the slice, in order, apart.
  pub IsNested : SliceTree → Type 0
  IsNested (node id start page_count ks) =
      (start + page_count < usize_mod)
      × Tiles start (start + page_count) (entries ks)
      × AllNested ks

  pub AllNested : Kids → Type 0
  AllNested no_kids = Unit
  AllNested (mapping_kid m start page_count ks) = AllNested ks
  AllNested (slice_kid t ks) = IsNested t × AllNested ks

unfoldable mutual
  -- `vpn` is a page of the mapping, and it is the first page neither of the mapping nor of a slice that
  -- is between the mapping and the root.
  pub Maps : ℕ → ℕ → SliceTree → Type 0
  Maps vpn m (node id start page_count ks) = KidsMap vpn m ks

  pub KidsMap : ℕ → ℕ → Kids → Type 0
  KidsMap vpn m no_kids = ⊥
  KidsMap vpn m (mapping_kid id start page_count ks) =
      ((id ≡ m) × (start < vpn) × (vpn < start + page_count)) ⊎ KidsMap vpn m ks
  KidsMap vpn m (slice_kid (node id start page_count below) ks) =
      ((start < vpn) × (vpn < start + page_count) × KidsMap vpn m below) ⊎ KidsMap vpn m ks
