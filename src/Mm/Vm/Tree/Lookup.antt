-- ===== src/Mm/Vm/Tree/Lookup.antt =====
-- kernel/kernel/src/mm/vm/aspace/tree.rs: what `get_child` finds.
use corrosios.Base.{
  ℕ, ◌+◌, ◌≤◌, ◌<◌, ◌≡◌, refl, arith, Option, none, some, List, [], ◌∷◌, ltb, usize_mod, Bool-cases,
  Option-cases, inl, inr, ◌⊎◌, ltb→lt,
}
use corrosios.Mm.Vm.BTreeMap.{last_below}
use corrosios.Mm.Vm.Tree.{SliceChild, child_pages, child_end, SliceInner, Slice, holding, get_child}
use corrosios.Mm.Vm.Tree.Tiles.{Tiles, end_exact, last_below_bounds}
use corrosios.Mm.Vm.Tree.Fixed.{IsTiled}

-- The child `c` stands in the list, and `vpn` is one of its pages but not the first.
abbrev Inside : ℕ → SliceChild → List (ℕ × SliceChild) → Type 0
Inside vpn c [] = ⊥
Inside vpn c ((k, d) ∷ cs) = ((d ≡ c) × (k < vpn) × (vpn < k + child_pages d)) ⊎ Inside vpn c cs

-- In every child of the list, `vpn` is the first page or no page.
abbrev Outside : ℕ → List (ℕ × SliceChild) → Type 0
Outside vpn [] = Unit {0}
Outside vpn ((k, c) ∷ cs) = ((vpn ≤ k) ⊎ (k + child_pages c ≤ vpn)) × Outside vpn cs

abbrev pub Finds : ℕ → List (ℕ × SliceChild) → Option SliceChild → Type 0
Finds vpn cs none = Outside vpn cs
Finds vpn cs (some c) = Inside vpn c cs

beyond-Outside :
    (lo hi vpn : ℕ) (cs : List (ℕ × SliceChild)) → Tiles lo hi cs → vpn ≤ lo → Outside vpn cs
beyond-Outside lo hi vpn [] t le = tt
beyond-Outside lo hi vpn ((k, c) ∷ cs) t le = (
  inl (omega (arith, t.1)),
  beyond-Outside (k + child_pages c) hi vpn cs t.3 (omega (arith, t.1)),
)

Finds-cons :
    (vpn k : ℕ) (c : SliceChild) (cs : List (ℕ × SliceChild)) (r : Option SliceChild)
    → k + child_pages c ≤ vpn
    → Finds vpn cs r
    → Finds vpn ((k, c) ∷ cs) r
Finds-cons vpn k c cs none le h = (inr le, h)
Finds-cons vpn k c cs (some d) le h = inr h

holding-Finds :
    (lo hi vpn : ℕ) (cs : List (ℕ × SliceChild))
    → Tiles lo hi cs
    → hi < usize_mod
    → Finds vpn cs (holding vpn (last_below vpn cs))
unfolding last_below
holding-Finds lo hi vpn [] t small = tt
holding-Finds lo hi vpn ((k, c) ∷ cs) t small = elim (Bool-cases (ltb k vpn)) [
  | inr beyond ↦
      rw beyond
        (inl (ground arith), beyond-Outside (k + child_pages c) hi vpn cs t.3 (ground arith))
  | inl below ↦
      let rest = holding-Finds (k + child_pages c) hi vpn cs t.3 small in
      elim (Option-cases (last_below vpn cs)) [
        | inr ((j, w), more) ↦
            let (above, under) = last_below_bounds (k + child_pages c) hi vpn j w cs t.3 more in
            rw (below, more)
              (Finds-cons vpn k c cs (holding vpn (some (j, w))) (omega arith) (rw more at rest))
        | inl last ↦
            rw (below, last)
              (elim (Bool-cases (ltb vpn (child_end c))) [
                | inl within ↦
                    rw within (
                      inl
                        (refl, ltb→lt k vpn below, ground (arith, end_exact lo hi k c cs t small)))
                | inr out ↦
                    rw out (inr (ground (arith, end_exact lo hi k c cs t small)), rw last at rest)
              ])
      ]
]

-- In an attached slice in good order, `get_child` finds the child that has `vpn` as a page other than
-- its first; where it finds none, `vpn` is the first page or no page of every child.
pub get_child-Finds :
    (s : Slice) (i : SliceInner) (vpn : ℕ) → IsTiled s i → Finds vpn i.children (get_child i vpn)
unfolding get_child
get_child-Finds s i vpn inv =
    holding-Finds s.start (s.start + s.page_count) vpn i.children inv.tiles inv.small

-- A child begins at `vpn`.
abbrev Begins : ℕ → List (ℕ × SliceChild) → Type 0
Begins vpn [] = ⊥
Begins vpn ((k, c) ∷ cs) = (k ≡ vpn) ⊎ Begins vpn cs

Begins-le : (lo hi vpn : ℕ) (cs : List (ℕ × SliceChild)) → Tiles lo hi cs → Begins vpn cs → lo ≤ vpn
Begins-le lo hi vpn [] t b = absurd b
Begins-le lo hi vpn ((k, c) ∷ cs) t (inl e) = omega (arith, t.1)
Begins-le lo hi vpn ((k, c) ∷ cs) t (inr b) =
    omega (arith, t.1, Begins-le (k + child_pages c) hi vpn cs t.3 b)

Inside-le :
    (lo hi vpn : ℕ) (c : SliceChild) (cs : List (ℕ × SliceChild))
    → Tiles lo hi cs
    → vpn ≤ lo
    → Inside vpn c cs
    → ⊥
Inside-le lo hi vpn c [] t le h = h
Inside-le lo hi vpn c ((k, d) ∷ cs) t le (inl h) = omega (arith, t.1, h.1)
Inside-le lo hi vpn c ((k, d) ∷ cs) t le (inr h) =
    Inside-le (k + child_pages d) hi vpn c cs t.3 (omega (arith, t.1)) h

Begins-none :
    (lo hi vpn : ℕ) (c : SliceChild) (cs : List (ℕ × SliceChild))
    → Tiles lo hi cs
    → Begins vpn cs
    → Inside vpn c cs
    → ⊥
Begins-none lo hi vpn c [] t b h = b
Begins-none lo hi vpn c ((k, d) ∷ cs) t (inl e) (inl h) = omega (arith, h.1)
Begins-none lo hi vpn c ((k, d) ∷ cs) t (inr b) (inl h) =
    omega (arith, h.2, Begins-le (k + child_pages d) hi vpn cs t.3 b)
Begins-none lo hi vpn c ((k, d) ∷ cs) t (inr b) (inr h) =
    Begins-none (k + child_pages d) hi vpn c cs t.3 b h
Begins-none lo hi vpn c ((k, d) ∷ cs) t (inl e) (inr h) =
    Inside-le (k + child_pages d) hi vpn c cs t.3 (omega (arith, t.2)) h

-- The first page of a child is never found: in an attached slice in good order, `get_child` answers
-- `None` at the start of every child.
pub get_child-first_page :
    (s : Slice) (i : SliceInner) (vpn : ℕ)
    → IsTiled s i
    → Begins vpn i.children
    → get_child i vpn ≡ none
get_child-first_page s i vpn inv b = elim (Option-cases (get_child i vpn)) [
  | inl e ↦ e
  | inr (c, e) ↦
      let found = get_child-Finds s i vpn inv in
      absurd
        (Begins-none s.start (s.start + s.page_count) vpn c i.children inv.tiles b (rw e at found))
]
