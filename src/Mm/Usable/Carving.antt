-- ===== src/Mm/Usable/Carving.antt =====
-- kernel/kernel/src/mm/utils.rs: what `iter_usable_ranges` reports of one usable range, and where it
-- stops to look at the reserved ranges.
use corrosios.Base.{
  ℕ, ◌+◌, ◌≤◌, ◌<◌, ◌≡◌, refl, arith, Option, some, Bool, true, false, List, [], ◌∷◌, ◌++◌, ltb,
  leb, ◌||◌, ◌&&◌, not, to_nat, ◌∙◌, dec_lt, lt→ltb, Bool-cases, inl, inr,
}
use corrosios.Mm.Usable.{report, carve, iter_usable_ranges}

abbrev pub in_range : ℕ → ℕ → ℕ → Bool
in_range start end x = leb start x && ltb x end

-- How many of the ranges hold the frame.
abbrev pub reports_of : ℕ → List (ℕ × ℕ) → ℕ
reports_of x [] = 0
reports_of x ((start, end) ∷ rs) = to_nat (in_range start end x) + reports_of x rs

abbrev is_reserved : ℕ → List (ℕ × ℕ) → Bool
is_reserved x [] = false
is_reserved x ((from, to) ∷ rs) = in_range from to x || is_reserved x rs

-- Ranges in ascending order from `lo` on, apart.
abbrev Ascends : ℕ → List (ℕ × ℕ) → Type 0
Ascends lo [] = Unit {0}
Ascends lo ((from, to) ∷ rs) = (lo ≤ from) × (from ≤ to) × Ascends to rs

-- The same, where the first range may begin below `start`, but does not end there.
abbrev Meets : ℕ → List (ℕ × ℕ) → Type 0
Meets start [] = Unit {0}
Meets start ((from, to) ∷ rs) = (from ≤ to) × (start ≤ to) × Ascends to rs

Ascends-Meets : (lo : ℕ) (rs : List (ℕ × ℕ)) → Ascends lo rs → Meets lo rs
Ascends-Meets lo [] a = tt
Ascends-Meets lo ((from, to) ∷ rs) a = (a.1, omega (arith, a.0, a.1), a.2)

Ascends-below : (lo x : ℕ) (rs : List (ℕ × ℕ)) → Ascends lo rs → x < lo → is_reserved x rs ≡ false
Ascends-below lo x [] a lt = refl
Ascends-below lo x ((from, to) ∷ rs) a lt =
    ground (arith, a.0, a.1, Ascends-below to x rs a.2 (omega (arith, a.0, a.1)))

reports_of-++ :
    (x : ℕ) (fs bs : List (ℕ × ℕ)) → reports_of x (fs ++ bs) ≡ reports_of x fs + reports_of x bs
reports_of-++ x [] bs = omega arith
reports_of-++ x ((start, end) ∷ fs) bs = omega (arith, reports_of-++ x fs bs)

reports_of-report :
    (x start end : ℕ) → reports_of x (report start end) ≡ to_nat (in_range start end x)
reports_of-report x start end = elim (Bool-cases (ltb start end)) [
  | inl some_pages ↦ rw some_pages (omega arith)
  | inr empty ↦ rw empty (ground arith)
]

-- A reserved range from `from` to `to` cuts a range, where the later ones, summed up in `later`, hold
-- no frame below `to`.
cut :
    (start end from to x : ℕ) (later : Bool)
    → from ≤ to
    → start ≤ to
    → from < end
    → (x < to → later ≡ false)
    → to_nat (in_range start from x) + to_nat (in_range to end x && not later)
      ≡ to_nat (in_range start end x && not (in_range from to x || later))
cut start end from to x later ordered meets inside none_below = elim (dec_lt x to) [
  | yes below ↦ rw (none_below below) (ground arith)
  | no above ↦ ground arith
]

-- What the reports for one usable range are.
abbrev pub Carves : ℕ → ℕ → List (ℕ × ℕ) → Option (List (ℕ × ℕ) × List (ℕ × ℕ)) → Type 0
Carves start end reserved r =
    (reports : List (ℕ × ℕ)) × (left : List (ℕ × ℕ)) × (r ≡ some (reports, left))
    × ((x : ℕ)
        → reports_of x reports ≡ to_nat (in_range start end x && not (is_reserved x reserved)))

-- For reserved ranges in ascending order and apart, the first of which does not end below the start of
-- the usable range, no assertion fails, and the reports for the usable range hold each of its frames
-- that is not reserved exactly once, and no other frame.
pub carve-Carves :
    (start end : ℕ) (reserved : List (ℕ × ℕ))
    → Meets start reserved
    → Carves start end reserved (carve start end reserved)
unfolding carve
carve-Carves start end [] meets =
    (report start end, [], refl, λ x. reports_of-report x start end ∙ ground arith)
carve-Carves start end ((from, to) ∷ rs) meets = elim (Bool-cases (ltb to from)) [
  | inl wrong ↦ absurd (ground (arith, meets.0))
  | inr ordered ↦ elim (Bool-cases (leb end from || ltb to start)) [
    | inl apart ↦ (
      report start end,
      (from, to) ∷ rs,
      rw (ordered, apart),
      λ x. reports_of-report x start end ∙ untouched x (ground (arith, meets.1)),
    )
    | inr touches ↦ elim (Bool-cases (ltb end to)) [
      | inl beyond ↦ (
        report start from,
        (from, to) ∷ rs,
        rw (ordered, touches, beyond),
        λ x. reports_of-report x start from ∙ last x (ground arith) (ground arith),
      )
      | inr within ↦ elim (Bool-cases (leb end to)) [
        | inl all ↦ (
          report start from,
          rs,
          rw (ordered, touches, within, all),
          λ x. reports_of-report x start from ∙ last x (ground arith) (ground arith),
        )
        | inr more ↦
            let (reports, left, e, law) = carve-Carves to end rs (Ascends-Meets to rs meets.2) in
            (
              report start from ++ reports,
              left,
              rw (ordered, touches, within, more, e),
              λ x.
                  reports_of-++ x (report start from) reports
                  ∙ (rw (reports_of-report x start from, law x)
                      (cut start end from to x (is_reserved x rs) meets.0 meets.1 (ground arith)
                        (Ascends-below to x rs meets.2))),
            )
      ]
    ]
  ]
]
  where
    untouched :
        (x : ℕ)
        → end ≤ from
        → to_nat (in_range start end x)
          ≡ to_nat (in_range start end x && not (is_reserved x ((from, to) ∷ rs)))
    untouched x le = elim (dec_lt x from) [
      | yes below ↦
          rw (Ascends-below from x ((from, to) ∷ rs) (omega arith, meets.0, meets.2) below)
            (ground arith)
      | no above ↦ ground arith
    ]

    last :
        (x : ℕ)
        → end ≤ to
        → from < end
        → to_nat (in_range start from x)
          ≡ to_nat (in_range start end x && not (is_reserved x ((from, to) ∷ rs)))
    last x le inside =
        let c =
          cut start end from to x (is_reserved x rs) meets.0 meets.1 inside
            (λ lt. Ascends-below to x rs meets.2 lt) in
        let nothing : to_nat (in_range to end x && not (is_reserved x rs)) ≡ 0 = ground arith in
        omega (arith, c, nothing)

-- Usable ranges that are not empty and begin behind `to`.
abbrev pub Beyond : ℕ → List (ℕ × ℕ) → Type 0
Beyond to [] = Unit {0}
Beyond to ((start, end) ∷ usable) = (to < start) × (start < end) × Beyond to usable

carve-beyond :
    (start end from to : ℕ) (reserved : List (ℕ × ℕ))
    → from ≤ to
    → to < start
    → start < end
    → carve start end ((from, to) ∷ reserved) ≡ some ((start, end) ∷ [], (from, to) ∷ reserved)
unfolding carve
carve-beyond start end from to reserved ordered behind pages =
    let sound : ltb to from ≡ false = ground arith in
    let below : (leb end from || ltb to start) ≡ true = ground arith in
    rw (sound, below, lt→ltb start end pages) refl

-- A reserved range that ends below the remaining usable ranges stays in the iterator for good: those
-- ranges are reported whole, whatever is reserved behind it.
pub iter_usable_ranges-stuck :
    (usable : List (ℕ × ℕ)) (from to : ℕ) (reserved : List (ℕ × ℕ))
    → from ≤ to
    → Beyond to usable
    → iter_usable_ranges usable ((from, to) ∷ reserved) ≡ some usable
unfolding iter_usable_ranges
iter_usable_ranges-stuck [] from to reserved ordered beyond = refl
iter_usable_ranges-stuck ((start, end) ∷ usable) from to reserved ordered beyond =
    rw
      (
        carve-beyond start end from to reserved ordered beyond.0 beyond.1,
        iter_usable_ranges-stuck usable from to reserved ordered beyond.2,
      )
      refl
