-- ===== src/Mm/Pmm/Moves.antt =====
-- kernel/kernel/src/mm/pmm.rs: the invariant of the manager, and the moves of one level seen from
-- the manager.
use corrosios.Base.{
  ℕ, zero, suc, ◌+◌, ◌^◌, ◌≤◌, ◌<◌, ◌≡◌, refl, arith, Option, some, List, [], ◌∷◌, length,
  get_elem?, set, ◌>>=◌, not, length-set, get_elem?-set_self, get_elem?-set_ne, lt_of_get_elem?,
  ℕ_discrete, ap,
}
use corrosios.Base.Bits.{pow-pos}
use corrosios.Bitmap.Laws.{bit}
use corrosios.Mm.Pmm.Level
use corrosios.Mm.Pmm.Level.{BuddyLevel}
use corrosios.Mm.Pmm.Defs.{
  PhysManager, order_count, splitmap_index, on_level, toggle_parent_split, is_parent_split,
  push_free, remove_free,
}
use corrosios.Mm.Pmm.Cover.{
  within, hits, count, count-le-hits, cover, with_level, cover-with_level, hits-le-cover,
}
use corrosios.Mm.Pmm.Invariant.{IsBlock, LevelInv, Toggled, toggle-Toggled}

-- The invariant of the manager, for frames below `max`: sixteen sound levels, and no frame in two
-- free blocks.
pub record Inv (max : ℕ) (m : PhysManager) : Type 0 where
  pub sized : length m.levels ≡ order_count
  pub level : (k : ℕ) (l : BuddyLevel) → get_elem? m.levels k ≡ some l → LevelInv max k l
  pub disjoint : (x : ℕ) → cover m x ≤ 1

set-set {ℓ} : {A : Type ℓ} (xs : List A) (i : ℕ) (a b : A) → set (set xs i a) i b ≡ set xs i b
set-set [] i a b = refl
set-set (x ∷ xs) zero a b = refl
set-set (x ∷ xs) (suc i) a b = ap (λ t. x ∷ t) (set-set xs i a b)

level-with_level :
    {max : ℕ} {m : PhysManager}
    → Inv max m
    → (k : ℕ) (l : BuddyLevel) → LevelInv max k l
    → (j : ℕ) (l' : BuddyLevel) → get_elem? (set m.levels k l) j ≡ some l'
    → LevelInv max j l'
level-with_level {max} {m} inv k l li j l' e = elim (ℕ_discrete k j) [
  | yes same ↦
      let here =
        get_elem?-set_self m.levels j l
          (omega (arith, lt_of_get_elem? (set m.levels k l) j e, length-set {0} m.levels k l)) in
      let f : l ≡ l' = cc (rw (← same) at here) in rw (← same, ← f) li
  | no other ↦ inv.level j l' (rw (get_elem?-set_ne m.levels k j l other) at e)
]

-- What the return of a range does: a sound manager whose free frames are the old ones and the range.
abbrev pub Frees : ℕ → PhysManager → ℕ → ℕ → Option PhysManager → Type 0
Frees max m start pages r =
    (m' : PhysManager) × (r ≡ some m')
    × Inv max m'
    × ((x : ℕ) → cover m' x ≡ cover m x + within start pages x)

-- The frames of a range are in no free block.
abbrev pub IsAllocated : PhysManager → ℕ → ℕ → Type 0
IsAllocated m start pages = (x : ℕ) → cover m x + within start pages x ≤ 1

-- The invariant after a change of one level.
pub Inv-with_level :
    {max : ℕ} {m : PhysManager}
    → Inv max m
    → (k : ℕ) (l : BuddyLevel) → LevelInv max k l
    → ((x : ℕ) → cover (with_level m k l) x ≤ 1)
    → Inv max (with_level m k l)
Inv-with_level {max} {m} inv k l li d = record {
  sized = omega (arith, inv.sized, length-set {0} m.levels k l);
  level = level-with_level inv k l li;
  disjoint = d;
}

pub on_level-with_level :
    (f : BuddyLevel → Option BuddyLevel) (m : PhysManager) (k : ℕ) (l l' : BuddyLevel)
    → get_elem? m.levels k ≡ some l
    → f l ≡ some l'
    → on_level f m k ≡ some (with_level m k l')
unfolding on_level
on_level-with_level f m k l l' e g = rw (e, ◌>>=◌, g)

-- An operation on a level that has just been replaced.
pub on_level_again :
    (f : BuddyLevel → Option BuddyLevel) (m : PhysManager) (k : ℕ) (l l' : BuddyLevel)
    → k < length m.levels
    → f l ≡ some l'
    → on_level f (with_level m k l) k ≡ some (with_level m k l')
unfolding on_level
on_level_again f m k l l' h g =
    rw (get_elem?-set_self m.levels k l h, ◌>>=◌, g) (rw (set-set m.levels k l l'))

module _ {max : ℕ} {m : PhysManager} (inv : Inv max m) (k : ℕ) (l : BuddyLevel)
    (at_k : get_elem? m.levels k ≡ some l) where
  -- The flip of the bit of a block's pair.
  pub toggle_at :
      (p : ℕ)
      → IsBlock max k p
      → (l' : BuddyLevel) × (toggle_parent_split m p k ≡ some (with_level m k l'))
        × Toggled k p l l'
        × (is_parent_split (with_level m k l') p k
            ≡ some (not (bit l.splitmap (splitmap_index p k))))
  unfolding toggle_parent_split is_parent_split
  toggle_at p b =
      let li = inv.level k l at_k in
      let (l', e, t) = toggle-Toggled max k p l li.bytes li.room b in
      (
        l',
        on_level-with_level _ m k l l' at_k e,
        t,
        rw (get_elem?-set_self m.levels k l' (lt_of_get_elem? m.levels k at_k), ◌>>=◌) t.read,
      )

  pub push_again :
      (l' : BuddyLevel) (q : ℕ)
      → push_free (with_level m k l') q k ≡ some (with_level m k (Level.push_free l' q))
  unfolding push_free
  push_again l' q = on_level_again _ m k l' _ (lt_of_get_elem? m.levels k at_k) refl

  pub remove_again :
      (l' r : BuddyLevel) (q : ℕ)
      → Level.remove_free l' q ≡ some r
      → remove_free (with_level m k l') q k ≡ some (with_level m k r)
  unfolding remove_free
  remove_again l' r q e = on_level_again _ m k l' r (lt_of_get_elem? m.levels k at_k) e

  -- A block that lies in no free block is in no free list.
  pub count_uncovered : (q : ℕ) → cover m q ≡ 0 → count q l.free_list ≡ 0
  count_uncovered q h =
      omega (arith, count-le-hits q (2 ^ k) l.free_list (pow-pos k), hits-le-cover m k l q at_k)

  cover-push :
      (l' : BuddyLevel) (q x : ℕ)
      → l'.free_list ≡ l.free_list
      → cover (with_level m k (Level.push_free l' q)) x ≡ cover m x + within q (2 ^ k) x
  unfolding Level.push_free
  cover-push l' q x same =
      let law = cover-with_level m k l (Level.push_free l' q) x at_k in
      omega (arith, law, ap (hits (2 ^ k) x) same)

  -- A block is pushed on a level whose sound state after the push is known.
  pub push_known :
      (l' : BuddyLevel) (q : ℕ)
      → l'.free_list ≡ l.free_list
      → LevelInv max k (Level.push_free l' q)
      → IsAllocated m q (2 ^ k)
      → Inv max (with_level m k (Level.push_free l' q))
        × ((x : ℕ)
            → cover (with_level m k (Level.push_free l' q)) x ≡ cover m x + within q (2 ^ k) x)
  push_known l' q same li free = (
    Inv-with_level inv k (Level.push_free l' q) li
        (λ x. omega (arith, cover-push l' q x same, free x)),
    λ x. cover-push l' q x same,
  )

  -- The frame `p` lies in no free block exactly if none of the blocks there counts it.
  pub uncovered_start : (p : ℕ) → IsAllocated m p (2 ^ k) → cover m p ≡ 0
  uncovered_start p free = ground (arith, free p, pow-pos k)
