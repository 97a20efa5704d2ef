-- ===== src/Mm/Vm/Tree/Tiles.antt =====
-- kernel/kernel/src/mm/vm/aspace/tree.rs: the children of a slice lie in it, in order, apart.
use corrosios.Base.{
  ℕ, ◌+◌, ◌≤◌, ◌<◌, ◌≡◌, arith, some, false, List, [], ◌∷◌, ltb, usize_mod, Bool-cases,
  Option-cases, inl, inr, dec_lt, ltb→lt, lt→ltb,
}
use corrosios.Mm.Vm.BTreeMap.{insert, last_below, first_from}
use corrosios.Mm.Vm.Tree.{
  SliceChild, child_start, child_pages, child_end, prev_overlaps, next_overlaps,
}

-- The children in `lo..hi`: each is stored under its start, has a page at least, and begins at or
-- behind the end of the one before.
abbrev pub Tiles : ℕ → ℕ → List (ℕ × SliceChild) → Type 0
Tiles lo hi [] = lo ≤ hi
Tiles lo hi ((k, c) ∷ cs) =
    (k ≡ child_start c) × (lo ≤ k) × (0 < child_pages c) × Tiles (k + child_pages c) hi cs

pub Tiles-le : (lo hi : ℕ) (cs : List (ℕ × SliceChild)) → Tiles lo hi cs → lo ≤ hi
Tiles-le lo hi [] t = t
Tiles-le lo hi ((k, c) ∷ cs) t = omega (arith, t.1, Tiles-le (k + child_pages c) hi cs t.3)

pub end_exact :
    (lo hi k : ℕ) (c : SliceChild) (cs : List (ℕ × SliceChild))
    → Tiles lo hi ((k, c) ∷ cs)
    → hi < usize_mod
    → child_end c ≡ k + child_pages c
end_exact lo hi k c cs t small = omega (arith, t.0, Tiles-le (k + child_pages c) hi cs t.3)

-- The entry before `start` lies in the range and begins before `start`.
pub last_below_bounds :
    (lo hi start j : ℕ) (w : SliceChild) (cs : List (ℕ × SliceChild))
    → Tiles lo hi cs
    → last_below start cs ≡ some (j, w)
    → (lo ≤ j) × (j < start)
unfolding last_below
last_below_bounds lo hi start j w [] t e = absurd (ground arith)
last_below_bounds lo hi start j w ((k, c) ∷ cs) t e = elim (Bool-cases (ltb k start)) [
  | inl below ↦ elim (Option-cases (last_below start cs)) [
    | inl last ↦
        let f : k ≡ j = ground arith in (omega (arith, t.1), omega (arith, ltb→lt k start below))
    | inr ((j', w'), more) ↦
        let f : j' ≡ j = ground arith in
        let (above, under) = last_below_bounds (k + child_pages c) hi start j' w' cs t.3 more in
        (omega (arith, t.1), omega arith)
  ]
  | inr beyond ↦ absurd (ground arith)
]

-- Where nothing before `start` reaches beyond it, neither does the first entry nor any later one.
prev-cons :
    (lo hi start k : ℕ) (c : SliceChild) (cs : List (ℕ × SliceChild))
    → Tiles lo hi ((k, c) ∷ cs)
    → hi < usize_mod
    → k < start
    → prev_overlaps (last_below start ((k, c) ∷ cs)) start ≡ false
    → (k + child_pages c ≤ start) × (prev_overlaps (last_below start cs) start ≡ false)
unfolding last_below
prev-cons lo hi start k c cs t small lt prev =
    let end = end_exact lo hi k c cs t small in
    let below = lt→ltb k start lt in
    elim (Option-cases (last_below start cs)) [
      | inl last ↦ (ground (arith, last, below), rw last)
      | inr ((j, w), more) ↦
          let (above, under) = last_below_bounds (k + child_pages c) hi start j w cs t.3 more in
          (omega arith, ground (arith, more, below))
    ]

next-cons :
    (start end k : ℕ) (c : SliceChild) (cs : List (ℕ × SliceChild))
    → k < start
    → next_overlaps (first_from start ((k, c) ∷ cs)) end ≡ false
    → next_overlaps (first_from start cs) end ≡ false
unfolding first_from
next-cons start end k c cs lt next = rw (lt→ltb k start lt) at next

-- Where nothing from `start` on begins before `end`, an entry from `start` on begins at `end` or later.
next_here :
    (lo hi start end k : ℕ) (c : SliceChild) (cs : List (ℕ × SliceChild))
    → Tiles lo hi ((k, c) ∷ cs)
    → start ≤ k
    → next_overlaps (first_from start ((k, c) ∷ cs)) end ≡ false
    → end ≤ k
unfolding first_from
next_here lo hi start end k c cs t le next = ground (arith, t.0)

pub insert_front :
    (k j : ℕ) (v w : SliceChild) (m : List (ℕ × SliceChild))
    → k < j
    → insert k v ((j, w) ∷ m) ≡ (k, v) ∷ (j, w) ∷ m
unfolding insert
insert_front k j v w m lt = rw (lt→ltb k j lt)

pub insert_later :
    (k j : ℕ) (v w : SliceChild) (m : List (ℕ × SliceChild))
    → j < k
    → insert k v ((j, w) ∷ m) ≡ (j, w) ∷ insert k v m
unfolding insert
insert_later k j v w m lt = ground arith

-- A child that overlaps neither its neighbour below nor its neighbour above can be inserted.
pub insert-Tiles :
    (lo hi start : ℕ) (child : SliceChild) (cs : List (ℕ × SliceChild))
    → Tiles lo hi cs
    → hi < usize_mod
    → start ≡ child_start child
    → 0 < child_pages child
    → lo ≤ start
    → start + child_pages child ≤ hi
    → prev_overlaps (last_below start cs) start ≡ false
    → next_overlaps (first_from start cs) (start + child_pages child) ≡ false
    → Tiles lo hi (insert start child cs)
insert-Tiles lo hi start child [] t small e pos low high prev next =
    unfold insert in (e, low, pos, high)
insert-Tiles lo hi start child ((k, c) ∷ cs) t small e pos low high prev next =
    elim (dec_lt k start) [
      | yes later ↦
          let (apart, prev') = prev-cons lo hi start k c cs t small later prev in
          rw (insert_later start k child c cs later) (
            t.0,
            t.1,
            t.2,
            insert-Tiles (k + child_pages c) hi start child cs t.3 small e pos apart high prev'
                (next-cons start (start + child_pages child) k c cs later next),
          )
      | no here ↦
          let apart : start + child_pages child ≤ k =
            next_here lo hi start (start + child_pages child) k c cs t (omega arith) next in
          rw (insert_front start k child c cs (omega arith)) (e, low, pos, (t.0, apart, t.2, t.3))
    ]
