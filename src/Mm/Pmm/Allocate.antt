-- ===== src/Mm/Pmm/Allocate.antt =====
-- kernel/kernel/src/mm/pmm.rs: `allocate` hands out an aligned block that was free, and exactly its
-- frames stop being free.
use corrosios.Base.{
  ℕ, zero, suc, ◌+◌, ◌-◌, ◌^◌, ◌≤◌, ◌<◌, ◌≡◌, ◌⊎◌, refl, arith, leb, Option, none, some, List, [],
  ◌∷◌, length, get_elem?, All, Bool-cases, inl, inr, ◌>>=◌, get_elem?-total, wsub, ℕ_discrete,
  lt_of_get_elem?, ap,
}
use corrosios.Base.Bits.{pow-pos, pow_mono}
use corrosios.Mm.Pmm.Level
use corrosios.Mm.Pmm.Level.{BuddyLevel}
use corrosios.Mm.Pmm.Defs.{
  PhysManager, order_count, toggle_parent_split, find_free, take_block, allocate,
}
use corrosios.Mm.Pmm.Blocks.{aligned_below}
use corrosios.Mm.Pmm.Cover.{within, hits, cover, with_level, cover-with_level}
use corrosios.Mm.Pmm.Invariant.{IsBlock, toggle-Toggled}
use corrosios.Mm.Pmm.Split.{rest_of_block, split_down-Frees}
use corrosios.Mm.Pmm.LevelMoves.{pop-LevelInv}
use corrosios.Mm.Pmm.Moves.{Inv, Inv-with_level, on_level_again}

-- A block `p` popped off level `f`.
record Popped (m : PhysManager) (f p : ℕ) (m1 : PhysManager) : Type 0 where
  before : BuddyLevel
  after : BuddyLevel
  at_f : get_elem? m.levels f ≡ some before
  replaced : m1 ≡ with_level m f after
  head : before.free_list ≡ p ∷ after.free_list
  fewer : after.free_blocks ≡ wsub before.free_blocks 1
  same_map : after.splitmap ≡ before.splitmap

pop_cases :
    (l : BuddyLevel) (xs : List ℕ)
    → l.free_list ≡ xs
    → ((Level.pop_free l ≡ none) × (l.free_list ≡ []))
      ⊎ ((p : ℕ) × (l1 : BuddyLevel) × (Level.pop_free l ≡ some (p, l1))
          × (l.free_list ≡ p ∷ l1.free_list)
          × (l1.free_blocks ≡ wsub l.free_blocks 1)
          × (l1.splitmap ≡ l.splitmap))
unfolding Level.pop_free
pop_cases l [] e = inl (rw e, e)
pop_cases l (p ∷ rest) e =
    inr (p, record l { free_list = rest; free_blocks = wsub l.free_blocks 1 }, rw e, e, refl, refl)

-- What the search for a block from order `k` on may answer.
abbrev IsFound : PhysManager → ℕ → Option (ℕ × ℕ × PhysManager) → Type 0
IsFound m k none =
    (j : ℕ) (l : BuddyLevel) → k ≤ j → get_elem? m.levels j ≡ some l → l.free_list ≡ []
IsFound m k (some (p, f, m1)) = (k ≤ f) × (f < order_count) × Popped m f p m1

IsFound-later :
    (m : PhysManager) (k : ℕ) (l : BuddyLevel) (r : Option (ℕ × ℕ × PhysManager))
    → get_elem? m.levels k ≡ some l
    → l.free_list ≡ []
    → IsFound m (k + 1) r
    → IsFound m k r
IsFound-later m k l none at_k e h = λ j l' le at_j. elim (ℕ_discrete k j) [
  | yes same ↦ let f : l ≡ l' = cc in rw (← f) e
  | no other ↦ h j l' (omega arith) at_j
]
IsFound-later m k l (some (p, f, m1)) at_k e h = (omega (arith, h.0), h.1, h.2)

find_free-IsFound :
    (rounds : ℕ) (m : PhysManager) (k : ℕ)
    → rounds + k ≡ order_count
    → length m.levels ≡ order_count
    → (r : Option (ℕ × ℕ × PhysManager)) × (find_free rounds m k ≡ some r) × IsFound m k r
unfolding find_free
find_free-IsFound zero m k e sized =
    (none, refl, λ j l le at_j. absurd (omega (arith, lt_of_get_elem? m.levels j at_j)))
find_free-IsFound (suc rounds) m k e sized =
    let (l, at_k) = get_elem?-total m.levels k (omega arith) in
    rw (at_k, ◌>>=◌)
      (elim (pop_cases l l.free_list refl) [
        | inl (dry, empty) ↦
            let (r, found, h) = find_free-IsFound rounds m (k + 1) (omega arith) sized in
            (r, rw dry found, IsFound-later m k l r at_k empty h)
        | inr (p, l1, popped, head, fewer, same_map) ↦ (
          some (p, k, with_level m k l1),
          rw popped,
          (
            omega arith,
            omega arith,
            record {
              before = l;
              after = l1;
              at_f = at_k;
              replaced = refl;
              head = head;
              fewer = fewer;
              same_map = same_map;
            },
          ),
        )
      ])

-- After the flip of its pair's bit the popped block is allocated.
flip-Popped :
    (max : ℕ) (m : PhysManager) (f p : ℕ) (m1 : PhysManager)
    → Inv max m
    → Popped m f p m1
    → (m2 : PhysManager) × (toggle_parent_split m1 p f ≡ some m2)
      × Inv max m2
      × IsBlock max f p
      × ((x : ℕ) → cover m x ≡ within p (2 ^ f) x + cover m2 x)
unfolding toggle_parent_split
flip-Popped max m f p m1 inv pop =
    let l = pop.before in
    let l1 = pop.after in
    let li = inv.level f l pop.at_f in
    let bs : All (IsBlock max f) (p ∷ l1.free_list) = rw pop.head at (li.blocks) in
    let (l2, e, t) =
      toggle-Toggled max f p l1 (rw pop.same_map li.bytes) (rw pop.same_map li.room) bs.0 in
    let li2 = pop-LevelInv max f p l l1 l2 li pop.head pop.fewer pop.same_map t in
    let law : (x : ℕ) → cover m x ≡ within p (2 ^ f) x + cover (with_level m f l2) x = λ x. omega (
      arith,
      cover-with_level m f l l2 x pop.at_f,
      ap (hits (2 ^ f) x) pop.head,
      ap (hits (2 ^ f) x) t.same_list,
    ) in
    (
      with_level m f l2,
      rw pop.replaced (on_level_again _ m f l1 l2 (lt_of_get_elem? m.levels f pop.at_f) e),
      Inv-with_level inv f l2 li2 (λ x. omega (arith, law x, inv.disjoint x)),
      bs.0,
      law,
    )

-- What `allocate` answers for an order: either no block, the manager unchanged, where the order is
-- too large or no level of that order or above has a free block; or an aligned block of that order
-- below `max`, every frame of which was free, and a sound manager whose free frames are the others.
abbrev pub Allocates : ℕ → PhysManager → ℕ → Option ℕ → PhysManager → Type 0
Allocates max m order none m' =
    (m' ≡ m)
    × ((k : ℕ) (l : BuddyLevel) → order ≤ k → get_elem? m.levels k ≡ some l → l.free_list ≡ [])
Allocates max m order (some p) m' =
    (order < order_count)
    × IsBlock max order p
    × Inv max m'
    × ((x : ℕ) → cover m x ≡ within p (2 ^ order) x + cover m' x)

take_block-Allocates :
    (max : ℕ) (m : PhysManager) (order : ℕ) (found : Option (ℕ × ℕ × PhysManager))
    → Inv max m
    → IsFound m order found
    → (r : Option ℕ) × (m' : PhysManager) × (take_block order found m ≡ some (r, m'))
      × Allocates max m order r m'
unfolding take_block
take_block-Allocates max m order none inv h = (none, m, refl, (refl, h))
take_block-Allocates max m order (some (p, f, m1)) inv (above, small, pop) =
    let (m2, flip, inv2, b, law) = flip-Popped max m f p m1 inv pop in
    let g : order + (f - order) ≡ f = omega arith in
    let parts : (x : ℕ) → within p (2 ^ f) x ≡ within p (2 ^ order) x + rest_of_block p order f x =
      λ x. ground (arith, pow_mono order f above) in
    let (m', done, inv', covers) =
      split_down-Frees (f - order) max m2 p order f (omega arith) small inv2 b.0 b.1
        (ground (arith, law p, inv.disjoint p, pow-pos f))
        (λ x. omega (arith, law x, inv.disjoint x, parts x)) in
    (
      some p,
      m',
      rw (flip, ◌>>=◌, done),
      (
        omega arith,
        (aligned_below p order (f - order) (rw g b.0), omega (arith, b.1, pow_mono order f above)),
        inv',
        λ x. omega (arith, law x, covers x, parts x),
      ),
    )

-- From a sound manager `allocate` never panics. It hands out no block, and leaves the manager, only
-- where no level of the order or above has a free block; else the block is aligned to its size, lies
-- below `max`, was wholly free, and exactly its frames stop being free in a manager that is sound.
pub allocate-Allocates :
    (max : ℕ) (m : PhysManager) (order : ℕ)
    → Inv max m
    → (r : Option ℕ) × (m' : PhysManager) × (allocate m order ≡ some (r, m'))
      × Allocates max m order r m'
unfolding allocate
allocate-Allocates max m order inv = elim (Bool-cases (leb order_count order)) [
  | inl large ↦ (
    none,
    m,
    rw large,
    (refl, λ k l le at_k. absurd (ground (arith, lt_of_get_elem? m.levels k at_k, inv.sized))),
  )
  | inr small ↦
      let (found, e, h) =
        find_free-IsFound (order_count - order) m order (ground arith) inv.sized in
      let (r, m', done, a) = take_block-Allocates max m order found inv h in
      (r, m', rw (small, e, ◌>>=◌) done, a)
]
