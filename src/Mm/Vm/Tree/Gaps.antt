-- ===== src/Mm/Vm/Tree/Gaps.antt =====
-- kernel/kernel/src/mm/vm/aspace/tree.rs: what `alloc_spot_dynamic` answers, on every branch.
use corrosios.Base.{
  ℕ, ◌+◌, ◌-◌, ◌≤◌, ◌<◌, ◌≡◌, refl, ap, arith, Option, none, some, List, [], ◌∷◌, ltb, usize_mod,
  wadd, wsub, wshl, Bool-cases, Option-cases, inl, inr, ◌⊎◌, dec_lt, lt→ltb,
}
use corrosios.Err.{
  out_of_resources, invalid_state, Outcome, ok, err, panic, ok_or, expect, Outcome-cases, ◌>>=◌,
}
use corrosios.NumUtils.{align_up}
use corrosios.Mm.Vm.BTreeMap.{insert}
use corrosios.Mm.Vm.Tree.{
  SliceChild, child_start, child_pages, SliceInner, Slice, with_children, gap, break_or, later_gaps,
  gaps_of, iter_gaps, fit_gap, alloc_spot_dynamic,
}
use corrosios.Mm.Vm.Tree.Tiles.{Tiles, Tiles-le, end_exact, insert_front, insert_later}
use corrosios.Mm.Vm.Tree.Fixed.{IsTiled}

module _ (align pages : ℕ) where
  -- The gap `lo..hi`, if it is not empty, holds its start rounded up to `align`.
  abbrev Padded : ℕ → ℕ → Type 0
  Padded lo hi = (hi ≤ lo) ⊎ ((lo ≤ align_up lo align) × (align_up lo align ≤ hi))

  -- Every gap of the children in `lo..hi` does.
  abbrev pub AllPadded : ℕ → ℕ → List (ℕ × SliceChild) → Type 0
  AllPadded lo hi [] = Padded lo hi
  AllPadded lo hi ((k, c) ∷ cs) = Padded lo k × AllPadded (k + child_pages c) hi cs

  -- No gap has more than `pages` pages from its aligned start on.
  abbrev NoRoom : ℕ → ℕ → List (ℕ × SliceChild) → Type 0
  NoRoom lo hi [] = (hi ≤ lo) ⊎ (hi ≤ align_up lo align + pages)
  NoRoom lo hi ((k, c) ∷ cs) =
      ((k ≤ lo) ⊎ (k ≤ align_up lo align + pages)) × NoRoom (k + child_pages c) hi cs

  -- `g..g + pages` lies in a gap, and `g` is the gap's aligned start.
  abbrev Free : ℕ → ℕ → ℕ → List (ℕ × SliceChild) → Type 0
  Free g lo hi [] = (g ≡ align_up lo align) × (lo ≤ g) × (g + pages < hi)
  Free g lo hi ((k, c) ∷ cs) =
      ((g ≡ align_up lo align) × (lo ≤ g) × (g + pages < k))
      ⊎ ((k + child_pages c ≤ g) × Free g (k + child_pages c) hi cs)

  Free-le : (g lo hi : ℕ) (cs : List (ℕ × SliceChild)) → Tiles lo hi cs → Free g lo hi cs → lo ≤ g
  Free-le g lo hi [] t f = f.1
  Free-le g lo hi ((k, c) ∷ cs) t (inl f) = f.1
  Free-le g lo hi ((k, c) ∷ cs) t (inr f) = omega (arith, t.1, f.0)

  Free-Tiles :
      (g lo hi : ℕ) (child : SliceChild) (cs : List (ℕ × SliceChild))
      → Tiles lo hi cs
      → Free g lo hi cs
      → g ≡ child_start child
      → pages ≡ child_pages child
      → 0 < pages
      → Tiles lo hi (insert g child cs)
  Free-Tiles g lo hi child [] t f e p pos =
      unfold insert in (e, f.1, omega arith, omega (arith, f.2))
  Free-Tiles g lo hi child ((k, c) ∷ cs) t (inl f) e p pos =
      rw (insert_front g k child c cs (omega (arith, f.2)))
        (e, f.1, omega arith, (t.0, omega (arith, f.2), t.2, t.3))
  Free-Tiles g lo hi child ((k, c) ∷ cs) t (inr f) e p pos =
      rw (insert_later g k child c cs (omega (arith, t.2, f.0)))
        (t.0, t.1, t.2, Free-Tiles g (k + child_pages c) hi child cs t.3 f.1 e p pos)

  -- The answer for one gap.
  abbrev Fit : ℕ → ℕ → Option ℕ → Type 0
  Fit lo hi none = (hi ≤ lo) ⊎ (hi ≤ align_up lo align + pages)
  Fit lo hi (some g) = (g ≡ align_up lo align) × (lo ≤ g) × (g + pages < hi)

  gap-Fit :
      (lo hi : ℕ) → hi < usize_mod → Padded lo hi → Fit lo hi (gap (fit_gap align pages) lo hi)
  unfolding fit_gap
  gap-Fit lo hi small pad = elim (dec_lt lo hi) [
    | no empty ↦ elim (Bool-cases (ltb lo hi)) [
      | inl h ↦ absurd (ground arith)
      | inr h ↦ rw h (inl (omega arith))
    ]
    | yes lt ↦ elim pad [
      | inl le ↦ absurd (omega arith)
      | inr (up, fits) ↦
          let room : wsub (wsub hi lo) (wsub (align_up lo align) lo) ≡ hi - align_up lo align =
            omega arith in
          rw (lt→ltb lo hi lt, room)
            (elim (Bool-cases (ltb pages (hi - align_up lo align))) [
              | inl more ↦ rw more (refl, up, ground arith)
              | inr less ↦ rw less (inr (ground arith))
            ])
    ]
  ]

  -- The answer of the search through the gaps of `lo..hi`.
  abbrev Searched : ℕ → ℕ → List (ℕ × SliceChild) → Option ℕ → Type 0
  Searched lo hi cs none = NoRoom lo hi cs
  Searched lo hi cs (some g) = Free g lo hi cs

  Searched-cons :
      (lo hi k : ℕ) (c : SliceChild) (cs : List (ℕ × SliceChild)) (here rest : Option ℕ)
      → Tiles (k + child_pages c) hi cs
      → Fit lo k here
      → Searched (k + child_pages c) hi cs rest
      → Searched lo hi ((k, c) ∷ cs) (break_or here rest)
  Searched-cons lo hi k c cs (some g) rest t fit more = inl fit
  Searched-cons lo hi k c cs none none t fit more = (fit, more)
  Searched-cons lo hi k c cs none (some g) t fit more =
      inr (Free-le g (k + child_pages c) hi cs t more, more)

  later_gaps-Searched :
      (lo hi : ℕ) (cs : List (ℕ × SliceChild))
      → Tiles lo hi cs
      → hi < usize_mod
      → AllPadded lo hi cs
      → Searched lo hi cs (later_gaps (fit_gap align pages) hi lo cs)
  unfolding later_gaps
  later_gaps-Searched lo hi [] t small pad = elim (Option-cases (gap (fit_gap align pages) lo hi)) [
    | inl e ↦ let fit = gap-Fit lo hi small pad in rw e (rw e at fit)
    | inr (g, e) ↦ let fit = gap-Fit lo hi small pad in rw e (rw e at fit)
  ]
  later_gaps-Searched lo hi ((k, c) ∷ cs) t small pad = rw (end_exact lo hi k c cs t small) (
      Searched-cons lo hi k c cs (gap (fit_gap align pages) lo k)
        (later_gaps (fit_gap align pages) hi (k + child_pages c) cs) t.3
        (gap-Fit lo k (omega (arith, small, Tiles-le (k + child_pages c) hi cs t.3)) pad.0)
        (later_gaps-Searched (k + child_pages c) hi cs t.3 small pad.1))

-- The first gap is a gap behind no child.
gaps_of-eq-later_gaps {ℓ} :
    {B : Type ℓ} (f : ℕ → ℕ → Option B) (s : Slice) (cs : List (ℕ × SliceChild))
    → s.start + s.page_count < usize_mod
    → 0 < s.page_count
    → gaps_of f s cs ≡ later_gaps f (s.start + s.page_count) s.start cs
unfolding gaps_of later_gaps
gaps_of-eq-later_gaps f s [] small pos =
    let size : wsub (s.start + s.page_count) s.start ≡ s.page_count = omega arith in
    rw (lt→ltb s.start (s.start + s.page_count) (omega arith), size) refl
gaps_of-eq-later_gaps f s ((k, c) ∷ cs) small pos =
    let end : wadd s.start s.page_count ≡ s.start + s.page_count = omega arith in rw end refl

iter_gaps-eq-gaps_of {ℓ} :
    {B : Type ℓ} (f : ℕ → ℕ → Option B) (s : Slice) (i : SliceInner)
    → s.inner ≡ some i
    → iter_gaps f s ≡ ok (gaps_of f s i.children)
unfolding iter_gaps
iter_gaps-eq-gaps_of f s i e =
    ap (λ o. ok_or o invalid_state >>= λ j. ok (gaps_of f s j.children)) e

-- The answers of `alloc_spot_dynamic` for `pages` pages, where the child is built by `f`.
abbrev pub Allots :
    Slice → SliceInner → ℕ → ℕ → (ℕ → Outcome SliceChild) → Outcome (SliceChild × Slice) → Type 0
Allots s i align pages f (ok (child, s')) =
    (g : ℕ) × (f g ≡ ok child)
    × (s' ≡ with_children s i (insert g child i.children))
    × Free align pages g s.start (s.start + s.page_count) i.children
    × Tiles s.start (s.start + s.page_count) (insert g child i.children)
Allots s i align pages f (err e) =
    ((e ≡ out_of_resources) × NoRoom align pages s.start (s.start + s.page_count) i.children)
    ⊎ ((g : ℕ) × (f g ≡ err e))
Allots s i align pages f panic = (g : ℕ) × (f g ≡ panic)

-- What follows the search.
dynamic_rest :
    (s : Slice) (i : SliceInner) (align pages : ℕ) (f : ℕ → Outcome SliceChild) (found : Option ℕ)
    → IsTiled s i
    → 0 < pages
    → ((g : ℕ) (c : SliceChild) → f g ≡ ok c → (g ≡ child_start c) × (pages ≡ child_pages c))
    → Searched align pages s.start (s.start + s.page_count) i.children found
    → Allots s i align pages f (
        ok_or found out_of_resources >>= λ g.
        (f g >>= λ child.
        (expect s.inner >>= λ j. ok (child, with_children s j (insert g child j.children)))))
dynamic_rest s i align pages f none inv pos builds h = inl (refl, h)
dynamic_rest s i align pages f (some g) inv pos builds h =
    rw (inv.attached) (elim (Outcome-cases (f g)) [
      | inl (child, e) ↦
          let (at_start, sized) = builds g child e in
          rw e (
            g,
            e,
            refl,
            h,
            Free-Tiles align pages g s.start (s.start + s.page_count) child i.children inv.tiles h
                at_start sized pos,
          )
      | inr (inl (x, e)) ↦ rw e (inr (g, e))
      | inr (inr e) ↦ rw e (g, e)
    ])

-- In an attached slice in good order, for a request of at least one page that `f` builds at the given
-- start and of the given size, and where every gap holds its start rounded up to the alignment,
-- `alloc_spot_dynamic` either builds the child at the aligned start of a gap that has more than
-- `page_count` pages from there on, and inserts it, and the children tile the slice as before; or
-- answers OUT_OF_RESOURCES, and no gap has so many pages; or answers what `f` answers.
pub alloc_spot_dynamic-Allots :
    (s : Slice) (i : SliceInner) (align_order page_count : ℕ) (f : ℕ → Outcome SliceChild)
    → IsTiled s i
    → 0 < s.page_count
    → 0 < page_count
    → AllPadded (wshl 1 align_order) page_count s.start (s.start + s.page_count) i.children
    → ((g : ℕ) (c : SliceChild) → f g ≡ ok c → (g ≡ child_start c) × (page_count ≡ child_pages c))
    → Allots s i (wshl 1 align_order) page_count f (alloc_spot_dynamic s align_order page_count f)
unfolding alloc_spot_dynamic
alloc_spot_dynamic-Allots s i align_order page_count f inv held pos pad builds =
    let align = wshl 1 align_order in
    rw
      (
        iter_gaps-eq-gaps_of (fit_gap align page_count) s i inv.attached,
        gaps_of-eq-later_gaps (fit_gap align page_count) s i.children inv.small held,
      )
      (dynamic_rest s i align page_count f
        (later_gaps (fit_gap align page_count) (s.start + s.page_count) s.start i.children) inv pos
        builds
        (later_gaps-Searched align page_count s.start (s.start + s.page_count) i.children inv.tiles
          inv.small pad))
