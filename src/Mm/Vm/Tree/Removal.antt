-- ===== src/Mm/Vm/Tree/Removal.antt =====
-- kernel/kernel/src/mm/vm/aspace/tree.rs: what `remove_child` leaves of the children.
use corrosios.Base.{
  ℕ, ◌+◌, ◌≤◌, ◌<◌, ◌≡◌, refl, ap, sym, arith, none, some, false, List, [], ◌∷◌, ◌++◌, ◌==◌,
  Bool-cases, Option-cases, inl, inr,
}
use corrosios.Mm.Vm.BTreeMap
use corrosios.Mm.Vm.Tree.{SliceChild, child_pages}
use corrosios.Mm.Vm.Tree.Tiles.{Tiles}

Tiles-from :
    (lo' lo hi : ℕ) (cs : List (ℕ × SliceChild)) → lo' ≤ lo → Tiles lo hi cs → Tiles lo' hi cs
Tiles-from lo' lo hi [] le t = omega (arith, t)
Tiles-from lo' lo hi ((k, c) ∷ cs) le (at, from, pages, t) = (at, omega arith, pages, t)

-- A key below the range is not in it.
remove-outside :
    (k lo hi : ℕ) (cs : List (ℕ × SliceChild))
    → Tiles lo hi cs
    → k < lo
    → BTreeMap.remove k cs ≡ none
unfolding BTreeMap.remove
remove-outside k lo hi [] t lt = refl
remove-outside k lo hi ((j, c) ∷ cs) t lt =
    let ne : (j == k) ≡ false = ground (arith, t.1) in
    let rest = remove-outside k (j + child_pages c) hi cs t.3 (omega (arith, t.1)) in
    rw (ne, rest) refl

-- One child at the key is gone, the others are as they were, and there is none at the key any more.
pub record Removes (k lo hi : ℕ) (cs cs' : List (ℕ × SliceChild)) : Type 0 where
  pub before : List (ℕ × SliceChild)
  pub child : SliceChild
  pub behind : List (ℕ × SliceChild)
  pub was : cs ≡ before ++ ((k, child) ∷ behind)
  pub is : cs' ≡ before ++ behind
  pub tiles : Tiles lo hi cs'
  pub gone : BTreeMap.remove k cs' ≡ none

remove_later :
    (k lo hi j : ℕ) (c : SliceChild) (cs cs' : List (ℕ × SliceChild))
    → Tiles lo hi ((j, c) ∷ cs)
    → (j == k) ≡ false
    → Removes k (j + child_pages c) hi cs cs'
    → Removes k lo hi ((j, c) ∷ cs) ((j, c) ∷ cs')
unfolding BTreeMap.remove
remove_later k lo hi j c cs cs' (at, from, pages, t) ne r = record {
  before = (j, c) ∷ r.before;
  child = r.child;
  behind = r.behind;
  was = ap (λ l. (j, c) ∷ l) r.was;
  is = ap (λ l. (j, c) ∷ l) r.is;
  tiles = (at, from, pages, r.tiles);
  gone = rw (ne, r.gone) refl;
}

remove_here :
    (k lo hi j : ℕ) (c : SliceChild) (cs cs' : List (ℕ × SliceChild))
    → Tiles lo hi ((j, c) ∷ cs)
    → j ≡ k
    → cs ≡ cs'
    → Removes k lo hi ((j, c) ∷ cs) cs'
remove_here k lo hi j c cs cs' (at, from, pages, t) here same = record {
  before = [];
  child = c;
  behind = cs';
  was = rw (here, same) refl;
  is = refl;
  tiles = rw (sym same) (Tiles-from lo (j + child_pages c) hi cs (omega arith) t);
  gone = rw (sym same) (remove-outside k (j + child_pages c) hi cs t (omega (arith, here)));
}

pub remove-Removes :
    (k lo hi : ℕ) (cs cs' : List (ℕ × SliceChild))
    → Tiles lo hi cs
    → BTreeMap.remove k cs ≡ some cs'
    → Removes k lo hi cs cs'
unfolding BTreeMap.remove
remove-Removes k lo hi [] cs' t e = absurd (ground arith)
remove-Removes k lo hi ((j, c) ∷ cs) cs' t e = elim (Bool-cases (j == k)) [
  | inl here ↦
      let left : some cs ≡ some cs' = rw here at e in
      remove_here k lo hi j c cs cs' t (ground arith) cc
  | inr ne ↦ elim (Option-cases (BTreeMap.remove k cs)) [
    | inl missing ↦ absurd (ground (arith, e, ne, missing))
    | inr (cs2, found) ↦
        let left : some ((j, c) ∷ cs2) ≡ some cs' = rw (ne, found) at e in
        let same : (j, c) ∷ cs2 ≡ cs' = cc in
        rw (sym same) (
          remove_later k lo hi j c cs cs2 t ne
            (remove-Removes k (j + child_pages c) hi cs cs2 t.3 found))
  ]
]
