-- ===== src/Mm/Heap/Classes.antt =====
-- kernel/kernel/src/mm/heap.rs: the class that serves a size.
use corrosios.Base.{
  ℕ, zero, suc, ◌*◌, ◌/◌, ◌%◌, ◌^◌, ◌<◌, ◌≤◌, ◌≡◌, refl, arith, Option, none, some, Bool, true,
  false, List, [], ◌∷◌, ltb, ◌==◌, ◌&&◌, ◌||◌, get_elem?, Bool-cases, inl, inr, ◌⊎◌, ltb→lt, ==_iff,
  ℕ_discrete,
}
use native.Mathlib.Nat.{le-div_iff_mul-le, div-add-mod', mod-eq_of_lt}
use corrosios.Base.Bits.{pow_mono, pow-pos}
use corrosios.Mm.Heap.{allocator_classes, search_key, sizes, get_size_class}

-- Each size is a multiple of every power of two up to 2 ^ 11 of which a multiple lies above the size
-- before it.
keeps_powers : ℕ → ℕ → ℕ → Bool
keeps_powers zero before size = true
keeps_powers (suc k) before size =
    ((size % 2 ^ k == 0) || (size / 2 ^ k == before / 2 ^ k)) && keeps_powers k before size

all_keep : ℕ → List ℕ → Bool
all_keep before [] = true
all_keep before (s ∷ ss) = keeps_powers 12 before s && all_keep s ss

classes_keep : all_keep 0 (sizes allocator_classes) ≡ true
unfolding all_keep keeps_powers sizes
classes_keep = refl

and_left : (a b : Bool) → (a && b) ≡ true → a ≡ true
and_left true b h = refl
and_left false b h = absurd (ground arith)

and_right : (a b : Bool) → (a && b) ≡ true → b ≡ true
and_right true b h = h
and_right false b h = absurd (ground arith)

keeps_power_at :
    (n k before size : ℕ)
    → k < n
    → keeps_powers n before size ≡ true
    → (size % 2 ^ k ≡ 0) ⊎ (size / 2 ^ k ≡ before / 2 ^ k)
unfolding keeps_powers
keeps_power_at zero k before size lt h = absurd (omega arith)
keeps_power_at (suc n) k before size lt h = elim (ℕ_discrete k n) [
  | no other ↦ keeps_power_at n k before size (omega arith) (and_right _ _ h)
  | yes same ↦ rw same (elim (Bool-cases (size % 2 ^ n == 0)) [
    | inl whole ↦ inl ((==_iff _ _).0 whole)
    | inr part ↦ inr (
        (==_iff _ _).0 (
          rw part at (
            and_left ((size % 2 ^ n == 0) || (size / 2 ^ n == before / 2 ^ n))
              (keeps_powers n before size) h)))
  ])
]

-- A multiple of a power between two sizes is a multiple where the upper size is not.
between-whole :
    (before n s k : ℕ)
    → before < n
    → n ≤ s
    → n % 2 ^ k ≡ 0
    → (s % 2 ^ k ≡ 0) ⊎ (s / 2 ^ k ≡ before / 2 ^ k)
    → s % 2 ^ k ≡ 0
between-whole before n s k lt le whole (inl e) = e
between-whole before n s k lt le whole (inr e) =
    let q = n / 2 ^ k in
    let exact : q * 2 ^ k ≡ n = omega (arith, div-add-mod' n (2 ^ k)) in
    let under : q ≤ s / 2 ^ k = (le-div_iff_mul-le (pow-pos k)).1 (exact_le exact le) in
    let small : q ≤ before / 2 ^ k = omega (arith, e, under) in
    absurd (omega (arith, exact, lt, (le-div_iff_mul-le (pow-pos k)).0 small))
  where
    exact_le : {a b c : ℕ} → a ≡ b → b ≤ c → a ≤ c
    exact_le e h = omega arith

-- The class that a size finds in a table, and what it keeps of the size's powers of two.
Finds : ℕ → List (ℕ × ℕ) → Type 0
Finds n cs =
    (c : ℕ × ℕ) × (get_elem? cs (search_key (sizes cs) n) ≡ some c)
    × (n ≤ c.0)
    × ((k : ℕ) → k < 12 → n % 2 ^ k ≡ 0 → c.0 % 2 ^ k ≡ 0)

room : Option (ℕ × ℕ) → ℕ
room none = 0
room (some c) = c.0

all_keep-Finds :
    (n before : ℕ) (cs : List (ℕ × ℕ)) (j : ℕ)
    → all_keep before (sizes cs) ≡ true
    → before < n
    → n ≤ room (get_elem? cs j)
    → Finds n cs
unfolding all_keep sizes search_key Finds room
all_keep-Finds n before [] j keep lt le = absurd (omega arith)
all_keep-Finds n before ((s, o) ∷ cs) zero keep lt le =
    let enough : ltb s n ≡ false = ground arith in
    rw enough (
      (s, o),
      refl,
      le,
      λ k small whole.
          between-whole before n s k lt le whole
            (keeps_power_at 12 k before s small (and_left _ _ keep)),
    )
all_keep-Finds n before ((s, o) ∷ cs) (suc j) keep lt le = elim (Bool-cases (ltb s n)) [
  | inr enough ↦
      let fits : n ≤ s = ground arith in
      rw enough (
        (s, o),
        refl,
        fits,
        λ k small whole.
            between-whole before n s k lt fits whole
              (keeps_power_at 12 k before s small (and_left _ _ keep)),
      )
  | inl below ↦ rw below (all_keep-Finds n s cs j (and_right _ _ keep) (ltb→lt s n below) le)
]

-- No class before the one found has room.
search_key-le :
    (n : ℕ) (cs : List (ℕ × ℕ)) (j : ℕ)
    → 0 < n
    → n ≤ room (get_elem? cs j)
    → search_key (sizes cs) n ≤ j
unfolding sizes search_key room
search_key-le n [] j pos le = absurd (omega arith)
search_key-le n ((s, o) ∷ cs) zero pos le =
    let enough : ltb s n ≡ false = ground arith in rw enough (omega arith)
search_key-le n ((s, o) ∷ cs) (suc j) pos le = elim (Bool-cases (ltb s n)) [
  | inr enough ↦ rw enough (omega arith)
  | inl below ↦ rw below (omega (arith, search_key-le n cs j pos le))
]

-- A size from 1 to 2048 has a class, the first of the table that has room for it, and the size of the
-- class is a multiple of each power of two of which the size asked for is one.
pub get_size_class-serves :
    (n : ℕ)
    → 0 < n
    → n ≤ 2048
    → (i size : ℕ) × (get_size_class n ≡ some (i, size))
      × (n ≤ size)
      × ((j : ℕ) (c : ℕ × ℕ) → get_elem? allocator_classes j ≡ some c → n ≤ c.0 → i ≤ j)
      × ((k : ℕ) → n % 2 ^ k ≡ 0 → size % 2 ^ k ≡ 0)
unfolding get_size_class Finds room
get_size_class-serves n pos le =
    let (c, e, fits, keeps) = all_keep-Finds n 0 allocator_classes 24 classes_keep pos le in
    (
      search_key (sizes allocator_classes) n,
      c.0,
      rw (get_size_class, e) refl,
      fits,
      λ j d at_j fits'. search_key-le n allocator_classes j pos (rw at_j fits'),
      λ k whole. elim (Bool-cases (ltb k 12)) [
        | inl small ↦ keeps k (ltb→lt k 12 small) whole
        | inr large ↦
            let power : 2 ^ 12 ≤ 2 ^ k = pow_mono 12 k (ground arith) in
            let below : n < 2 ^ k = omega arith in absurd (omega (arith, whole, mod-eq_of_lt below))
      ],
    )
