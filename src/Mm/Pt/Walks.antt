-- ===== src/Mm/Pt/Walks.antt =====
-- kernel/kernel/src/mm/pt.rs: what every walk does with its pointer, and with a relation between states
-- that each round keeps.
use corrosios.Base.{
  ℕ, zero, suc, ◌+◌, ◌-◌, ◌*◌, ◌^◌, min, ◌<◌, ◌≤◌, ◌≡◌, refl, arith, true, false, ltb, wadd,
  Bool-cases, inl, inr, ltb→lt, lt→ltb,
}
use corrosios.Base.Bits.{pow-pos, pow_mono}
use corrosios.NumUtils.{align_up}
use corrosios.NumUtils.Rounding.{align_up-least}
use corrosios.Mm.Pt.{
  MappingPointer, virt, remaining_pages, advance, advance_clamped, level_page_count,
  covers_level_entry, max_virt, Walk, done, failed, panicked, stuck, Walked, Walker, and_walk,
  walk_loop, walk_level,
}

-- The range ends at 2 ^ 52 or before, and the pointer is in it.
pub record IsPointer (p : MappingPointer) : Type 0 where
  pub inside : p.offset ≤ p.size
  pub small : p.base + p.size ≤ 2 ^ 52

-- The pointer has moved forward in the same range.
pub record Moved (p p' : MappingPointer) : Type 0 where
  pub same_base : p'.base ≡ p.base
  pub same_size : p'.size ≡ p.size
  pub forward : p.offset ≤ p'.offset
  pub inside : p'.offset ≤ p'.size

-- A walk that is done has reached `stop`; no walk runs out of fuel.
abbrev Reaches : ℕ → Walk → MappingPointer → Type 0
Reaches stop done p = stop ≤ p.base + p.offset
Reaches stop (failed e) p = Unit {0}
Reaches stop panicked p = Unit {0}
Reaches stop stuck p = ⊥

abbrev pub Ends {ℓ κ} : {S : Type ℓ} → (S → S → Type κ) → MappingPointer → S → ℕ → Walked S → Type κ
Ends R p s stop (w, p', s') = Moved p p' × Reaches stop w p' × R s s'

pub Moved-IsPointer : (p p' : MappingPointer) → IsPointer p → Moved p p' → IsPointer p'
Moved-IsPointer p p' i m = record {
  inside = m.inside;
  small = omega (arith, m.same_base, m.same_size, i.small);
}

Moved-trans : (p q r : MappingPointer) → Moved p q → Moved q r → Moved p r
Moved-trans p q r m n = record {
  same_base = omega (arith, m.same_base, n.same_base);
  same_size = omega (arith, m.same_size, n.same_size);
  forward = omega (arith, m.forward, n.forward);
  inside = n.inside;
}

pub Moved-refl : (p : MappingPointer) → IsPointer p → Moved p p
Moved-refl p i = record {
  same_base = refl;
  same_size = refl;
  forward = omega arith;
  inside = i.inside;
}

virt_exact : (p : MappingPointer) → IsPointer p → virt p ≡ p.base + p.offset
virt_exact p i = omega (arith, i.inside, i.small)

-- How far a walk at a level goes.
abbrev pub level_stop : ℕ → MappingPointer → ℕ
level_stop level p =
    min (p.base + p.size) (align_up (p.base + p.offset + 1) (512 * level_page_count level))

pub max_virt_exact :
    (level : ℕ) (p : MappingPointer) → IsPointer p → max_virt level p ≡ level_stop level p
unfolding max_virt
max_virt_exact level p i =
    let v = virt_exact p i in
    let end : wadd (virt p) (remaining_pages p) ≡ p.base + p.size =
      omega (arith, i.inside, i.small) in
    let one : wadd (virt p) 1 ≡ p.base + p.offset + 1 = omega (arith, i.inside, i.small) in
    rw (end, one) refl

-- A walk that is over, and one that is over after one round.
walk_loop-over {ℓ} :
    {S : Type ℓ} (fuel max : ℕ) (f : Walker S) (p : MappingPointer) (s : S)
    → ltb (virt p) max ≡ false
    → walk_loop fuel max f p s ≡ (done, p, s)
unfolding walk_loop
walk_loop-over zero max f p s over = rw over refl
walk_loop-over (suc fuel) max f p s over = rw over refl

pub walk_level-round {ℓ} :
    {S : Type ℓ} (level : ℕ) (f : Walker S) (p q : MappingPointer) (s t : S)
    → IsPointer p
    → p.offset < p.size
    → virt p < max_virt level p
    → f p s ≡ (done, q, t)
    → max_virt level p ≤ virt q
    → walk_level level f p s ≡ (done, q, t)
unfolding walk_level walk_loop
walk_level-round level f p q s t i more lt e over =
    let left : remaining_pages p ≡ suc (p.size - p.offset - 1) = omega (arith, i.inside, i.small) in
    let here = lt→ltb (virt p) (max_virt level p) lt in
    let there : ltb (virt q) (max_virt level p) ≡ false = ground arith in
    rw (left, here, e) (walk_loop-over (p.size - p.offset - 1) (max_virt level p) f q t there)

module _ {ℓ κ} {S : Type ℓ} (R : S → S → Type κ) (R_refl : (s : S) → R s s)
    (R_trans : (s t u : S) → R s t → R t u → R s u) where
  -- What a round has to do: in a range that is not at its end it advances by a page at least.
  abbrev pub Rounds : Walker S → Type (ℓ ⊔ κ)
  Rounds f =
      (p : MappingPointer) (s : S)
      → IsPointer p
      → p.offset < p.size
      → Ends R p s (suc (virt p)) (f p s)

  pub Ends-trans :
      (p q : MappingPointer) (s t : S) (stop : ℕ) (r : Walked S)
      → Moved p q
      → R s t
      → Ends R q t stop r
      → Ends R p s stop r
  Ends-trans p q s t stop (w, p', s') m k (n, reaches, k') =
      (Moved-trans p q p' m n, reaches, R_trans s t s' k k')

  pub and_walk-Ends :
      (p : MappingPointer) (s : S) (mid stop : ℕ) (r : Walked S) (k : Walker S)
      → Ends R p s mid r
      → ((q : MappingPointer) (t : S)
          → Moved p q
          → mid ≤ q.base + q.offset
          → Ends R q t stop (k q t))
      → Ends R p s stop (and_walk r k)
  and_walk-Ends p s mid stop (done, q, t) k (m, reaches, kept) next =
      Ends-trans p q s t stop (k q t) m kept (next q t m reaches)
  and_walk-Ends p s mid stop (failed e, q, t) k (m, reaches, kept) next = (m, tt, kept)
  and_walk-Ends p s mid stop (panicked, q, t) k (m, reaches, kept) next = (m, tt, kept)
  and_walk-Ends p s mid stop (stuck, q, t) k (m, reaches, kept) next = absurd reaches

  walk_loop-Ends :
      (fuel max : ℕ) (f : Walker S) (p : MappingPointer) (s : S)
      → IsPointer p
      → max ≤ p.base + p.size
      → p.size ≤ p.offset + fuel
      → Rounds f
      → Ends R p s max (walk_loop fuel max f p s)
  unfolding walk_loop
  walk_loop-Ends zero max f p s i top enough rounds = elim (Bool-cases (ltb (virt p) max)) [
    | inl more ↦ absurd (omega (arith, virt_exact p i, ltb→lt _ _ more, i.inside))
    | inr over ↦ rw over (Moved-refl p i, ground (arith, virt_exact p i), R_refl s)
  ]
  walk_loop-Ends (suc fuel) max f p s i top enough rounds = elim (Bool-cases (ltb (virt p) max)) [
    | inr over ↦ rw over (Moved-refl p i, ground (arith, virt_exact p i), R_refl s)
    | inl more ↦ rw more (
        and_walk-Ends p s (suc (virt p)) max (f p s) (walk_loop fuel max f)
          (rounds p s i (omega (arith, virt_exact p i, ltb→lt _ _ more)))
          (λ q t m reaches.
            walk_loop-Ends fuel max f q t (Moved-IsPointer p q i m)
              (omega (arith, m.same_base, m.same_size))
              (omega (arith, m.same_base, m.same_size, virt_exact p i, reaches)) rounds))
  ]

  pub walk_level-Ends :
      (level : ℕ) (f : Walker S) (p : MappingPointer) (s : S)
      → level < 4
      → IsPointer p
      → Rounds f
      → Ends R p s (level_stop level p) (walk_level level f p s)
  unfolding walk_level
  walk_level-Ends level f p s small i rounds =
      let left : remaining_pages p ≡ p.size - p.offset = omega (arith, i.inside, i.small) in
      rw (max_virt_exact level p i, left)
        (walk_loop-Ends (p.size - p.offset) (level_stop level p) f p s i (omega arith)
          (omega (arith, i.inside)) rounds)

  pub Ends-weaken :
      (p : MappingPointer) (s : S) (stop stop' : ℕ) (r : Walked S)
      → stop' ≤ stop
      → Ends R p s stop r
      → Ends R p s stop' r
  Ends-weaken p s stop stop' (done, q, t) le (m, reaches, kept) = (m, omega arith, kept)
  Ends-weaken p s stop stop' (failed e, q, t) le (m, reaches, kept) = (m, tt, kept)
  Ends-weaken p s stop stop' (panicked, q, t) le (m, reaches, kept) = (m, tt, kept)
  Ends-weaken p s stop stop' (stuck, q, t) le (m, reaches, kept) = absurd reaches

level_small : (level : ℕ) → level < 4 → level_page_count level ≤ 2 ^ 27
level_small level small = pow_mono (level * 9) 27 (omega arith)

-- A walk goes beyond the page that it begins at.
pub level_stop-above :
    (level : ℕ) (p : MappingPointer)
    → level < 4
    → IsPointer p
    → p.offset < p.size
    → suc (virt p) ≤ level_stop level p
level_stop-above level p small i more =
    let lpc = level_small level small in
    let pos = pow-pos (level * 9) in
    let (_, above, _, _) =
      align_up-least (p.base + p.offset + 1) (512 * level_page_count level) (omega arith)
        (omega (arith, i.small)) in
    omega (arith, virt_exact p i, i.small)

-- The pointer after an entry that the rest of the range covers.
pub advance-Moved :
    (level : ℕ) (p : MappingPointer)
    → IsPointer p
    → covers_level_entry p level ≡ true
    → Moved p (advance p (level_page_count level))
      × (suc (virt p) ≤ p.base + wadd p.offset (level_page_count level))
unfolding covers_level_entry
advance-Moved level p i covers =
    let pos = pow-pos (level * 9) in
    let left : remaining_pages p ≡ p.size - p.offset = omega (arith, i.inside, i.small) in
    let le : level_page_count level ≤ remaining_pages p = ground arith in
    let e : wadd p.offset (level_page_count level) ≡ p.offset + level_page_count level =
      omega (arith, i.small, i.inside) in
    (
      record {
        same_base = refl;
        same_size = refl;
        forward = omega arith;
        inside = omega (arith, i.inside);
      },
      omega (arith, virt_exact p i),
    )

pub advance_clamped-Moved :
    (level : ℕ) (p : MappingPointer)
    → level < 4
    → IsPointer p
    → p.offset < p.size
    → Moved p (advance_clamped p (level_page_count level))
      × (suc (virt p) ≤ p.base + min (wadd p.offset (level_page_count level)) p.size)
advance_clamped-Moved level p small i more =
    let pos = pow-pos (level * 9) in
    let lpc = level_small level small in
    let e : wadd p.offset (level_page_count level) ≡ p.offset + level_page_count level =
      omega (arith, i.small) in
    (
      record { same_base = refl; same_size = refl; forward = omega arith; inside = omega arith },
      omega (arith, virt_exact p i),
    )
