-- ===== src/Mm/Pmm/Cover.antt =====
-- kernel/kernel/src/mm/pmm.rs: the frames that the free lists cover. `cover` is the abstract view of
-- the allocator: the number of free blocks that hold a frame.
use corrosios.Base.{
  ℕ, zero, suc, ◌+◌, ◌^◌, ◌≤◌, ◌<◌, ◌≡◌, arith, ◌==◌, ltb, leb, ◌&&◌, to_nat, some, List, [], ◌∷◌,
  length, get_elem?, set, All, Bool-cases, Option-cases, inl, inr,
}
pub use corrosios.Base.{count}
use native.Mathlib.Nat.{add-zero, zero-add}
use corrosios.Mm.Pmm.Level.{BuddyLevel, unlink}
use corrosios.Mm.Pmm.Defs.{PhysManager}

-- 1 where frame `x` lies in `start..start + pages`, and 0 elsewhere.
abbrev pub within : ℕ → ℕ → ℕ → ℕ
within start pages x = to_nat (leb start x && ltb x (start + pages))

-- The number of blocks of `pages` frames in the list that hold frame `x`.
abbrev pub hits : ℕ → ℕ → List ℕ → ℕ
hits pages x [] = 0
hits pages x (p ∷ l) = within p pages x + hits pages x l

pub count-All {κ} : (P : ℕ → Type κ) (q : ℕ) (l : List ℕ) → 0 < count q l → All P l → P q
count-All P q [] h a = absurd (omega arith)
count-All P q (p ∷ l) h a = elim (Bool-cases (p == q)) [
  | inl here ↦ let e : p ≡ q = ground arith in rw (← e) a.0
  | inr other ↦ count-All P q l (ground arith) a.1
]

abbrev pub cover_from : ℕ → List BuddyLevel → ℕ → ℕ
cover_from k [] x = 0
cover_from k (l ∷ ls) x = hits (2 ^ k) x l.free_list + cover_from (suc k) ls x

unfoldable pub cover : PhysManager → ℕ → ℕ
cover m x = cover_from 0 m.levels x

-- Two neighbouring ranges make one.
pub within_split :
    (start a b x : ℕ) → within start (a + b) x ≡ within start a x + within (start + a) b x
within_split start a b x = ground arith

pub count-le-hits : (q pages : ℕ) (l : List ℕ) → 0 < pages → count q l ≤ hits pages q l
count-le-hits q pages [] h = omega arith
count-le-hits q pages (p ∷ l) h = ground (arith, count-le-hits q pages l h)

-- A block that stands in a list can be taken out of it.
pub record Unlinked (q : ℕ) (l r : List ℕ) : Type 0 where
  pub shorter : length l ≡ length r + 1
  pub hit : (pages x : ℕ) → hits pages x l ≡ within q pages x + hits pages x r
  pub counted : (p : ℕ) → count p l ≡ to_nat (q == p) + count p r

Unlinked-cons : (x q : ℕ) (l r : List ℕ) → Unlinked q l r → Unlinked q (x ∷ l) (x ∷ r)
Unlinked-cons x q l r u = record {
  shorter = omega (arith, u.shorter);
  hit = λ pages y. omega (arith, u.hit pages y);
  counted = λ p. omega (arith, u.counted p);
}

pub unlink-Unlinked :
    (q : ℕ) (l : List ℕ) → 0 < count q l → (r : List ℕ) × (unlink q l ≡ some r) × Unlinked q l r
unfolding unlink
unlink-Unlinked q [] h = absurd (omega arith)
unlink-Unlinked q (x ∷ l) h = elim (Bool-cases (x == q)) [
  | inl here ↦
      let e : x ≡ q = ground arith in
      (l, rw here, record { shorter = omega arith; hit = λ pages y. rw e; counted = λ p. rw e })
  | inr other ↦
      let (r, e, u) = unlink-Unlinked q l (ground arith) in
      (x ∷ r, rw (other, e), Unlinked-cons x q l r u)
]

pub unlink-All {κ} :
    (P : ℕ → Type κ) (q : ℕ) (l r : List ℕ) → All P l → unlink q l ≡ some r → All P r
unfolding unlink
unlink-All P q [] r a e = absurd (ground arith)
unlink-All P q (x ∷ l) r a e = elim (Bool-cases (x == q)) [
  | inl here ↦ let f : l ≡ r = ground arith in rw (← f) a.1
  | inr other ↦ elim (Option-cases (unlink q l)) [
    | inl gone ↦ absurd (ground arith)
    | inr (ys, g) ↦ let f : x ∷ ys ≡ r = ground arith in rw (← f) (a.0, unlink-All P q l ys a.1 g)
  ]
]

-- A change of one level changes the cover by what it changes of that level.
cover_from-set :
    (k i : ℕ) (ls : List BuddyLevel) (l l' : BuddyLevel) (x : ℕ)
    → get_elem? ls i ≡ some l
    → cover_from k (set ls i l') x + hits (2 ^ (k + i)) x l.free_list
      ≡ cover_from k ls x + hits (2 ^ (k + i)) x l'.free_list
cover_from-set k i [] l l' x e = absurd (ground arith)
cover_from-set k zero (l0 ∷ ls) l l' x e = let f : l0 ≡ l = cc in rw (add-zero k, f) (omega arith)
cover_from-set k (suc i) (l0 ∷ ls) l l' x e =
    let f : k + suc i ≡ suc k + i = omega arith in
    rw f (omega (arith, cover_from-set (suc k) i ls l l' x e))

hits-le-cover_from :
    (k i : ℕ) (ls : List BuddyLevel) (l : BuddyLevel) (x : ℕ)
    → get_elem? ls i ≡ some l
    → hits (2 ^ (k + i)) x l.free_list ≤ cover_from k ls x
hits-le-cover_from k i [] l x e = absurd (ground arith)
hits-le-cover_from k zero (l0 ∷ ls) l x e = let f : l0 ≡ l = cc in rw (add-zero k, f) (omega arith)
hits-le-cover_from k (suc i) (l0 ∷ ls) l x e =
    let f : k + suc i ≡ suc k + i = omega arith in
    rw f (omega (arith, hits-le-cover_from (suc k) i ls l x e))

abbrev pub with_level : PhysManager → ℕ → BuddyLevel → PhysManager
with_level m k l = record m { levels = set m.levels k l }

pub cover-with_level :
    (m : PhysManager) (k : ℕ) (l l' : BuddyLevel) (x : ℕ)
    → get_elem? m.levels k ≡ some l
    → cover (with_level m k l') x + hits (2 ^ k) x l.free_list
      ≡ cover m x + hits (2 ^ k) x l'.free_list
unfolding cover
cover-with_level m k l l' x e = rw zero-add at (cover_from-set 0 k m.levels l l' x e)

pub hits-le-cover :
    (m : PhysManager) (k : ℕ) (l : BuddyLevel) (x : ℕ)
    → get_elem? m.levels k ≡ some l
    → hits (2 ^ k) x l.free_list ≤ cover m x
unfolding cover
hits-le-cover m k l x e = rw zero-add at (hits-le-cover_from 0 k m.levels l x e)
