-- ===== src/Mm/Vm/Store/Finding.antt =====
-- kernel/kernel/src/mm/vm/aspace/tree.rs: what `get_mapping` finds in a tree of slices.
use corrosios.Base.{
  ℕ, zero, suc, ◌+◌, ◌≤◌, ◌<◌, ◌≡◌, refl, arith, Option, none, some, true, List, ◌∷◌, ltb, leb,
  ◌||◌, usize_mod, ◌⊎◌, inl, inr, Bool-cases, Option-cases, ltb→lt, wadd,
}
use corrosios.Err.{Outcome, ok, err, panic, ok_or, bad_address}
use corrosios.Mm.Vm.BTreeMap.{last_below}
use corrosios.Mm.Vm.Tree.{
  SliceChild, subslice, mapping, child_pages, child_end, holding, get_child, check_vpn,
}
use corrosios.Mm.Vm.Tree.Tiles.{Tiles, Tiles-le, end_exact, last_below_bounds}
use corrosios.Mm.Vm.Store.{Store, descend, find_mapping, get_mapping}
use corrosios.Mm.Vm.Store.Shape.{
  SliceTree, node, Kids, no_kids, mapping_kid, slice_kid, AllNested, kids_depth, entries, depth,
  Holds, HoldsAll, attached, IsNested, Maps, KidsMap,
}

-- The answer is the one mapping that maps the page, or that there is none.
abbrev pub Answers : ℕ → SliceTree → Option (Outcome ℕ) → Type 0
Answers vpn t (some (ok m)) = (n : ℕ) → (Maps vpn n t → n ≡ m) × (n ≡ m → Maps vpn n t)
Answers vpn t (some (err e)) = (e ≡ bad_address) × ((m : ℕ) → ¬ Maps vpn m t)
Answers vpn t (some panic) = ⊥
Answers vpn t none = ⊥

abbrev KidsAnswer : ℕ → Kids → Option (Outcome ℕ) → Type 0
KidsAnswer vpn ks (some (ok m)) = (n : ℕ) → (KidsMap vpn n ks → n ≡ m) × (n ≡ m → KidsMap vpn n ks)
KidsAnswer vpn ks (some (err e)) = (e ≡ bad_address) × ((m : ℕ) → ¬ KidsMap vpn m ks)
KidsAnswer vpn ks (some panic) = ⊥
KidsAnswer vpn ks none = ⊥

-- No child that begins at or behind the page maps it.
beyond : (lo hi vpn n : ℕ) (ks : Kids) → Tiles lo hi (entries ks) → vpn ≤ lo → ¬ KidsMap vpn n ks
unfolding KidsMap
beyond lo hi vpn n no_kids t le h = h
beyond lo hi vpn n (mapping_kid id start pages ks) t le (inl h) = omega (arith, t.1, h.1)
beyond lo hi vpn n (mapping_kid id start pages ks) t le (inr h) =
    beyond (start + pages) hi vpn n ks t.3 (omega (arith, t.1)) h
beyond lo hi vpn n (slice_kid (node id start pages below) ks) t le (inl h) = omega (arith, t.1, h.0)
beyond lo hi vpn n (slice_kid (node id start pages below) ks) t le (inr h) =
    beyond (start + pages) hi vpn n ks t.3 (omega (arith, t.1)) h

-- No child in the range maps a page behind it.
behind : (lo hi vpn n : ℕ) (ks : Kids) → Tiles lo hi (entries ks) → hi ≤ vpn → ¬ KidsMap vpn n ks
unfolding KidsMap
behind lo hi vpn n no_kids t le h = h
behind lo hi vpn n (mapping_kid id start pages ks) t le (inl h) =
    omega (arith, Tiles-le (start + pages) hi (entries ks) t.3, h.2)
behind lo hi vpn n (mapping_kid id start pages ks) t le (inr h) =
    behind (start + pages) hi vpn n ks t.3 le h
behind lo hi vpn n (slice_kid (node id start pages below) ks) t le (inl h) =
    omega (arith, Tiles-le (start + pages) hi (entries ks) t.3, h.1)
behind lo hi vpn n (slice_kid (node id start pages below) ks) t le (inr h) =
    behind (start + pages) hi vpn n ks t.3 le h

-- What the children behind the first answer is what all answer, where the first does not have the page.
KidsAnswer-mapping :
    (vpn id start pages : ℕ) (ks : Kids) (r : Option (Outcome ℕ))
    → start + pages ≤ vpn
    → KidsAnswer vpn ks r
    → KidsAnswer vpn (mapping_kid id start pages ks) r
unfolding KidsMap
KidsAnswer-mapping vpn id start pages ks (some (ok m)) le a = λ n. (
  λ h. elim h [ inl here ↦ absurd (omega (arith, here.2)) | inr later ↦ (a n).0 later ],
  λ e. inr ((a n).1 e),
)
KidsAnswer-mapping vpn id start pages ks (some (err e)) le a =
    (a.0, λ m h. elim h [ inl here ↦ absurd (omega (arith, here.2)) | inr later ↦ a.1 m later ])
KidsAnswer-mapping vpn id start pages ks (some panic) le a = a
KidsAnswer-mapping vpn id start pages ks none le a = a

KidsAnswer-slice :
    (vpn id start pages : ℕ) (below ks : Kids) (r : Option (Outcome ℕ))
    → start + pages ≤ vpn
    → KidsAnswer vpn ks r
    → KidsAnswer vpn (slice_kid (node id start pages below) ks) r
unfolding KidsMap
KidsAnswer-slice vpn id start pages below ks (some (ok m)) le a = λ n. (
  λ h. elim h [ inl here ↦ absurd (omega (arith, here.1)) | inr later ↦ (a n).0 later ],
  λ e. inr ((a n).1 e),
)
KidsAnswer-slice vpn id start pages below ks (some (err e)) le a =
    (a.0, λ m h. elim h [ inl here ↦ absurd (omega (arith, here.1)) | inr later ↦ a.1 m later ])
KidsAnswer-slice vpn id start pages below ks (some panic) le a = a
KidsAnswer-slice vpn id start pages below ks none le a = a

-- What the slices below the first child answer is what all answer, where the first has the page and no
-- later one does.
KidsAnswer-below :
    (vpn id start pages : ℕ) (below ks : Kids) (r : Option (Outcome ℕ))
    → start < vpn
    → vpn < start + pages
    → ((n : ℕ) → ¬ KidsMap vpn n ks)
    → KidsAnswer vpn below r
    → KidsAnswer vpn (slice_kid (node id start pages below) ks) r
unfolding KidsMap
KidsAnswer-below vpn id start pages below ks (some (ok m)) lo hi out a = λ n. (
  λ h. elim h [ inl here ↦ (a n).0 (here.2) | inr later ↦ absurd (out n later) ],
  λ e. inl (lo, hi, (a n).1 e),
)
KidsAnswer-below vpn id start pages below ks (some (err e)) lo hi out a =
    (a.0, λ m h. elim h [ inl here ↦ a.1 m (here.2) | inr later ↦ out m later ])
KidsAnswer-below vpn id start pages below ks (some panic) lo hi out a = a
KidsAnswer-below vpn id start pages below ks none lo hi out a = a

-- Where the page stands to the first child, and what `get_child` makes of it.
first_cases :
    (lo hi vpn k : ℕ) (c : SliceChild) (cs : List (ℕ × SliceChild))
    → Tiles lo hi ((k, c) ∷ cs)
    → hi < usize_mod
    → ((vpn ≤ k) × (holding vpn (last_below vpn ((k, c) ∷ cs)) ≡ none))
      ⊎ (((k + child_pages c ≤ vpn)
            × (holding vpn (last_below vpn ((k, c) ∷ cs)) ≡ holding vpn (last_below vpn cs)))
          ⊎ ((k < vpn)
              × (vpn < k + child_pages c)
              × (holding vpn (last_below vpn ((k, c) ∷ cs)) ≡ some c)))
unfolding last_below
first_cases lo hi vpn k c cs t small = elim (Bool-cases (ltb k vpn)) [
  | inr before ↦ inl (ground arith, rw before refl)
  | inl below ↦ elim (Option-cases (last_below vpn cs)) [
    | inr ((j, w), more) ↦
        let (above, under) = last_below_bounds (k + child_pages c) hi vpn j w cs t.3 more in
        inr (inl (omega arith, rw (below, more) refl))
    | inl last ↦ elim (Bool-cases (ltb vpn (child_end c))) [
      | inl within ↦ inr (
          inr (
            ltb→lt k vpn below,
            ground (arith, end_exact lo hi k c cs t small),
            rw (below, last, within) refl,
          ))
      | inr out ↦
          inr (inl (ground (arith, end_exact lo hi k c cs t small), rw (below, last, out) refl))
    ]
  ]
]

no_mapping :
    (lo hi vpn n m k pages : ℕ) (ks : Kids)
    → Tiles lo hi (entries (mapping_kid m k pages ks))
    → vpn ≤ k
    → ¬ KidsMap vpn n (mapping_kid m k pages ks)
no_mapping lo hi vpn n m k pages ks t le =
    beyond k hi vpn n (mapping_kid m k pages ks) (refl, omega arith, t.2, t.3) le

no_slice :
    (lo hi vpn n c k pages : ℕ) (below ks : Kids)
    → Tiles lo hi (entries (slice_kid (node c k pages below) ks))
    → vpn ≤ k
    → ¬ KidsMap vpn n (slice_kid (node c k pages below) ks)
no_slice lo hi vpn n c k pages below ks t le =
    beyond k hi vpn n (slice_kid (node c k pages below) ks) (refl, omega arith, t.2, t.3) le

KidsAnswer-here :
    (hi vpn m k pages : ℕ) (ks : Kids)
    → k < vpn
    → vpn < k + pages
    → Tiles (k + pages) hi (entries ks)
    → KidsAnswer vpn (mapping_kid m k pages ks) (some (ok m))
unfolding KidsMap
KidsAnswer-here hi vpn m k pages ks above under t n = (
  λ h. elim h [
    | inl here ↦ omega (arith, here.0)
    | inr later ↦ absurd (beyond (k + pages) hi vpn n ks t (omega arith) later)
  ],
  λ e. inl (omega (arith, e), above, under),
)

-- A round of the loop at a slice, by what its children answer in the rounds that are left.
slice_find :
    (s : Store) (parent : Option ℕ) (vpn id start pages rounds : ℕ) (ks : Kids)
    → s.slices id ≡ attached parent start pages (entries ks)
    → suc (kids_depth ks) ≤ rounds
    → ((r : ℕ)
        → kids_depth ks ≤ r
        → KidsAnswer vpn ks (
            descend
              (find_mapping r s vpn)
              (ok_or (holding vpn (last_below vpn (entries ks))) bad_address)))
    → KidsAnswer vpn ks (find_mapping rounds s vpn id)
unfolding find_mapping get_child
slice_find s parent vpn id start pages zero ks holds deep kids = absurd (omega arith)
slice_find s parent vpn id start pages (suc rounds) ks holds deep kids =
    rw holds (kids rounds (omega arith))

kids_find :
    (s : Store) (vpn id lo hi rounds : ℕ) (ks : Kids)
    → Tiles lo hi (entries ks)
    → hi < usize_mod
    → AllNested ks
    → HoldsAll s id ks
    → kids_depth ks ≤ rounds
    → KidsAnswer vpn ks (
        descend
          (find_mapping rounds s vpn)
          (ok_or (holding vpn (last_below vpn (entries ks))) bad_address))
unfolding IsNested Holds depth last_below KidsMap
kids_find s vpn id lo hi rounds no_kids t small nested holds deep = (refl, λ m h. h)
kids_find s vpn id lo hi rounds (mapping_kid m k pages ks) t small nested holds deep =
    let rest = kids_find s vpn id (k + pages) hi rounds ks t.3 small nested holds deep in
    elim (first_cases lo hi vpn k (mapping m k pages) (entries ks) t small) [
      | inl (before, e) ↦ rw e (refl, λ n. no_mapping lo hi vpn n m k pages ks t before)
      | inr (inl (passed, e)) ↦ rw e (
          KidsAnswer-mapping vpn m k pages ks
            (descend (find_mapping rounds s vpn)
              (ok_or (holding vpn (last_below vpn (entries ks))) bad_address))
            passed rest)
      | inr (inr (above, under, e)) ↦ rw e (KidsAnswer-here hi vpn m k pages ks above under t.3)
    ]
kids_find s vpn id lo hi rounds (slice_kid (node c k pages below) ks) t small (inner, nested)
      (held, holds) deep =
    let rest = kids_find s vpn id (k + pages) hi rounds ks t.3 small nested holds (omega arith) in
    elim (first_cases lo hi vpn k (subslice c k pages) (entries ks) t small) [
      | inl (before, e) ↦ rw e (refl, λ n. no_slice lo hi vpn n c k pages below ks t before)
      | inr (inl (passed, e)) ↦ rw e (
          KidsAnswer-slice vpn c k pages below ks
            (descend (find_mapping rounds s vpn)
              (ok_or (holding vpn (last_below vpn (entries ks))) bad_address))
            passed rest)
      | inr (inr (above, under, e)) ↦ rw e (
          KidsAnswer-below vpn c k pages below ks (find_mapping rounds s vpn c) above under
            (λ n. beyond (k + pages) hi vpn n ks t.3 (omega arith))
            (slice_find s (some id) vpn c k pages rounds below (held.0) (omega arith) (λ r fits.
              kids_find s vpn c k (k + pages) r below (inner.1) (inner.0) (inner.2) (held.1) fits)))
    ]

KidsAnswer-Answers :
    (vpn id start pages : ℕ) (ks : Kids) (r : Option (Outcome ℕ))
    → KidsAnswer vpn ks r
    → Answers vpn (node id start pages ks) r
unfolding Maps
KidsAnswer-Answers vpn id start pages ks (some (ok m)) a = a
KidsAnswer-Answers vpn id start pages ks (some (err e)) a = a
KidsAnswer-Answers vpn id start pages ks (some panic) a = a
KidsAnswer-Answers vpn id start pages ks none a = a

no_page :
    (vpn n start pages : ℕ) (ks : Kids)
    → start + pages < usize_mod
    → Tiles start (start + pages) (entries ks)
    → (ltb vpn start || leb (wadd start pages) vpn) ≡ true
    → ¬ KidsMap vpn n ks
no_page vpn n start pages ks small t e = elim (Bool-cases (ltb vpn start)) [
  | inl before ↦ beyond start (start + pages) vpn n ks t (ground arith)
  | inr from ↦
      let exact : wadd start pages ≡ start + pages = omega arith in
      behind start (start + pages) vpn n ks t (ground (arith, exact))
]

-- In a store that has a tree of slices in good order, with as many rounds as the tree is deep,
-- `get_mapping` at the root answers. Its answer is the one mapping that has the page as a page which is
-- the first page neither of the mapping nor of a slice on the way to it, or BAD_ADDRESS, where no
-- mapping does or the page is outside of the root.
pub get_mapping-Answers :
    (s : Store) (parent : Option ℕ) (vpn id start pages rounds : ℕ) (ks : Kids)
    → IsNested (node id start pages ks)
    → Holds s parent (node id start pages ks)
    → depth (node id start pages ks) ≤ rounds
    → Answers vpn (node id start pages ks) (get_mapping rounds s id vpn)
unfolding IsNested Holds depth Maps get_mapping check_vpn
get_mapping-Answers s parent vpn id start pages rounds ks (small, t, nested) (held, holds) deep =
    elim (Bool-cases (ltb vpn start || leb (wadd start pages) vpn)) [
      | inr inside ↦
          rw (held, inside)
            (KidsAnswer-Answers vpn id start pages ks (find_mapping rounds s vpn id) (
              slice_find s parent vpn id start pages rounds ks held deep (λ r fits.
                kids_find s vpn id start (start + pages) r ks t small nested holds fits)))
      | inl outside ↦ rw (held, outside) (refl, λ n. no_page vpn n start pages ks small t outside)
    ]
