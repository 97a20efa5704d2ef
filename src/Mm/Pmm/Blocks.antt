-- ===== src/Mm/Pmm/Blocks.antt =====
-- kernel/kernel/src/mm/pmm.rs: the arithmetic of blocks, their pairs and their parents.
use native.Mathlib.Nat.{
  div-div-eq-div-mul, div-add-mod', mul-le-mul_right, add-mul, mul-mod_left, mul-div_cancel,
  mul-add-div_right, div-eq_of_lt,
}
use corrosios.Base.{
  ℕ, zero, suc, ◌+◌, ◌*◌, ◌/◌, ◌%◌, ◌^◌, ◌<◌, ◌≡◌, ◌⊎◌, inl, inr, refl, arith, ◌==◌, to_nat,
  Bool-cases, dec_lt, ◌∙◌, ap, subst, sym,
}
use corrosios.Base.Bits.{pow-pos, pow-double}
use corrosios.Mm.Pmm.Defs.{splitmap_index, buddy_of, parent_of}

half_generic : (p q i b d D : ℕ) → q * d ≡ p → q ≡ i * 2 + b → D ≡ d + d → p ≡ i * D + b * d
half_generic p q i b d D e f g = omega (arith, ap (λ (t : ℕ). t * d) f, ap (λ (t : ℕ). i * t) g)

half_index : (p k : ℕ) → p / 2 ^ (k + 1) ≡ p / 2 ^ k / 2
half_index p k =
    let e : 2 ^ (k + 1) ≡ 2 ^ k * 2 = omega (arith, pow-double k) in
    rw (e, div-div-eq-div-mul p (2 ^ k) 2)

-- A block of order `k` is the lower or the upper half of its parent's block.
block_half : (p k : ℕ) → p % 2 ^ k ≡ 0 → p ≡ p / 2 ^ (k + 1) * 2 ^ (k + 1) + p / 2 ^ k % 2 * 2 ^ k
block_half p k h =
    half_generic p (p / 2 ^ k) (p / 2 ^ (k + 1)) (p / 2 ^ k % 2) (2 ^ k) (2 ^ (k + 1))
      (omega (arith, div-add-mod' p (2 ^ k)))
      (omega (arith, half_index p k, div-add-mod' (p / 2 ^ k) 2)) (pow-double k)

index_mono : (i j d r : ℕ) → i < j → r < d → i * d + r < j * d
index_mono i j d r lt small =
    omega (arith, mul-le-mul_right {m = i + 1} {n = j} d (omega arith), add-mul i 1 d)

-- Two numbers with remainders below `d` are equal only if their quotients are.
index_unique : (i j d r s : ℕ) → r < d → s < d → i * d + r ≡ j * d + s → i ≡ j
index_unique i j d r s hr hs e = elim (dec_lt i j) [
  | yes lt ↦ absurd (omega (arith, index_mono i j d r lt hr))
  | no ge ↦ elim (dec_lt j i) [
    | yes gt ↦ absurd (omega (arith, index_mono j i d s gt hs))
    | no le ↦ omega arith
  ]
]

-- The same with the parent's size `D`, the half `d`, and the position `b` of the block in the pair.
indicator_generic :
    (p i j b d D : ℕ)
    → 0 < d
    → D ≡ d + d
    → b < 2
    → p ≡ i * D + b * d
    → to_nat (p == j * D) + to_nat (p == j * D + d) ≡ to_nat (i == j)
indicator_generic p i j zero d D pos e lt at_ =
    ground (arith, index_unique i j D 0 0, index_unique i j D 0 d)
indicator_generic p i j (suc zero) d D pos e lt at_ =
    ground (arith, index_unique i j D d 0, index_unique i j D d d)
indicator_generic p i j (suc (suc b)) d D pos e lt at_ = absurd (omega arith)

-- Of the two halves of the parent's block `j`, a block of order `k` is exactly one if `j` is the
-- index of its parent, and else none.
pub pair_indicator :
    (p k j : ℕ)
    → p % 2 ^ k ≡ 0
    → to_nat (p == j * 2 ^ (k + 1)) + to_nat (p == j * 2 ^ (k + 1) + 2 ^ k)
      ≡ to_nat (splitmap_index p k == j)
unfolding splitmap_index
pair_indicator p k j h =
    indicator_generic p (p / 2 ^ (k + 1)) j (p / 2 ^ k % 2) (2 ^ k) (2 ^ (k + 1)) (pow-pos k)
      (pow-double k) (omega arith) (block_half p k h)

-- What the buddy and the parent of a block are, with `D`, `d`, `i` and `b` as above.
pub record IsPair (p k : ℕ) : Type 0 where
  pub base : parent_of p k ≡ splitmap_index p k * 2 ^ (k + 1)
  pub parent_aligned : parent_of p k % 2 ^ (k + 1) ≡ 0
  pub buddy_aligned : buddy_of p k % 2 ^ k ≡ 0
  pub same_parent : splitmap_index (buddy_of p k) k ≡ splitmap_index p k
  pub halves :
      ((p ≡ parent_of p k) × (buddy_of p k ≡ parent_of p k + 2 ^ k))
      ⊎ ((p ≡ parent_of p k + 2 ^ k) × (buddy_of p k ≡ parent_of p k))

base_lem : (p k : ℕ) → p % 2 ^ k ≡ 0 → parent_of p k ≡ splitmap_index p k * 2 ^ (k + 1)
unfolding parent_of splitmap_index
base_lem p k h = elim (Bool-cases (p / 2 ^ k % 2 == 0)) [
  | inl even ↦
      let e : p / 2 ^ k % 2 ≡ 0 = ground arith in rw even (rw e at (block_half p k h) ∙ omega arith)
  | inr odd ↦
      let e : p / 2 ^ k % 2 ≡ 1 = ground arith in
      let q = rw e at (block_half p k h) in rw odd (omega arith)
]

halves_lem :
    (p k : ℕ)
    → p % 2 ^ k ≡ 0
    → ((p ≡ parent_of p k) × (buddy_of p k ≡ parent_of p k + 2 ^ k))
      ⊎ ((p ≡ parent_of p k + 2 ^ k) × (buddy_of p k ≡ parent_of p k))
unfolding parent_of buddy_of
halves_lem p k h = elim (Bool-cases (p / 2 ^ k % 2 == 0)) [
  | inl even ↦ inl (rw even (refl, refl))
  | inr odd ↦
      let e : p / 2 ^ k % 2 ≡ 1 = ground arith in
      let q = rw e at (block_half p k h) in inr (rw odd (omega arith, refl))
]

multiple_mod : (i d D r : ℕ) → D ≡ d + d → (r ≡ 0) ⊎ (r ≡ d) → (i * D + r) % d ≡ 0
multiple_mod i d D r e (inl z) =
    let f : i * D + r ≡ (i + i) * d = omega (arith, ap (λ (t : ℕ). i * t) e) in
    rw f (mul-mod_left (i + i) d)
multiple_mod i d D r e (inr z) =
    let f : i * D + r ≡ (i + i + 1) * d = omega (arith, ap (λ (t : ℕ). i * t) e) in
    rw f (mul-mod_left (i + i + 1) d)

multiple_div : (i D r : ℕ) → r < D → (i * D + r) / D ≡ i
multiple_div i D r h = omega (arith, mul-add-div_right {m = D} (omega arith) i r, div-eq_of_lt h)

-- A half of the parent's block, by its offset `r`.
half_block :
    (p k q r : ℕ)
    → p % 2 ^ k ≡ 0
    → q ≡ parent_of p k + r
    → (r ≡ 0) ⊎ (r ≡ 2 ^ k)
    → (q % 2 ^ k ≡ 0) × (splitmap_index q k ≡ splitmap_index p k)
unfolding splitmap_index
half_block p k q r h e side =
    let f : q ≡ p / 2 ^ (k + 1) * 2 ^ (k + 1) + r = rw e (rw (base_lem p k h)) in
    rw f (
      multiple_mod (p / 2 ^ (k + 1)) (2 ^ k) (2 ^ (k + 1)) r (pow-double k) side,
      multiple_div (p / 2 ^ (k + 1)) (2 ^ (k + 1)) r (omega (arith, pow-double k, pow-pos k)),
    )

buddy_block :
    (p k : ℕ)
    → p % 2 ^ k ≡ 0
    → (buddy_of p k % 2 ^ k ≡ 0) × (splitmap_index (buddy_of p k) k ≡ splitmap_index p k)
buddy_block p k h = elim (halves_lem p k h) [
  | inl low ↦ half_block p k (buddy_of p k) (2 ^ k) h low.1 (inr refl)
  | inr high ↦ half_block p k (buddy_of p k) 0 h (omega (arith, high.1)) (inl refl)
]

-- The alignment of the three blocks, from the two equations above.
pub IsPair-of_aligned : (p k : ℕ) → p % 2 ^ k ≡ 0 → IsPair p k
IsPair-of_aligned p k h = record {
  base = base_lem p k h;
  parent_aligned = rw (base_lem p k h) (mul-mod_left (splitmap_index p k) (2 ^ (k + 1)));
  buddy_aligned = (buddy_block p k h).0;
  same_parent = (buddy_block p k h).1;
  halves = halves_lem p k h;
}

twice_half : (p k : ℕ) → p % 2 ^ (k + 1) ≡ 0 → p ≡ (p / 2 ^ (k + 1) + p / 2 ^ (k + 1)) * 2 ^ k
twice_half p k h =
    let whole = div-add-mod' p (2 ^ (k + 1)) in
    omega (arith, whole, ap (λ (t : ℕ). p / 2 ^ (k + 1) * t) (pow-double k))

aligned_half : (p k : ℕ) → p % 2 ^ (k + 1) ≡ 0 → p % 2 ^ k ≡ 0
aligned_half p k h =
    subst (λ t. t % 2 ^ k ≡ 0) (sym (twice_half p k h))
      (mul-mod_left (p / 2 ^ (k + 1) + p / 2 ^ (k + 1)) (2 ^ k))

-- A number aligned to a power of two is aligned to every smaller one.
pub aligned_below : (p c n : ℕ) → p % 2 ^ (c + n) ≡ 0 → p % 2 ^ c ≡ 0
aligned_below p c zero h = let f : c + 0 ≡ c = omega arith in rw f at h
aligned_below p c (suc n) h =
    let f : c + suc n ≡ c + n + 1 = omega arith in
    aligned_below p c n (aligned_half p (c + n) (rw f at h))

-- The lower half of an aligned pair has the upper half for its buddy.
pub buddy_above : (p k : ℕ) → p % 2 ^ (k + 1) ≡ 0 → buddy_of p k ≡ p + 2 ^ k
unfolding buddy_of
buddy_above p k h =
    let q = p / 2 ^ (k + 1) in
    let even : p / 2 ^ k ≡ q + q =
      ap (λ (t : ℕ). t / 2 ^ k) (twice_half p k h) ∙ mul-div_cancel (q + q) (pow-pos k) in
    ground (arith, even)
