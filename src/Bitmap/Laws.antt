-- ===== src/Bitmap/Laws.antt =====
-- lib/bitmap/src/lib.rs: each bit operation changes one bit and leaves the others.
use corrosios.Base.{
  ℕ, zero, suc, ◌+◌, ◌≤◌, ◌*◌, ◌/◌, ◌%◌, ◌^◌, ◌<◌, ◌≡◌, refl, Option, none, some, Bool, true, false,
  ◌==◌, if◌then◌else◌, not, get_elem?, set, All, length, ◌>>=◌, arith, ltb, ltb→lt, get_elem?-total,
  All-get_elem?, All-set, length-set, ℕ_discrete, get_elem?-set_self, get_elem?-set_ne, subst, inl,
  inr, replicate, Option-cases, Bool-cases, All-replicate, ◌∙◌,
}
use native.Mathlib.Nat.{zero-div}
use corrosios.Bitmap.{
  Bitmap, test_bit, get, modify, or_bit, clear_bit, xor_bit, set_bit, unset, toggle,
}

-- The test holds for each of `rounds` numbers up from `from`.
holds_from : ℕ → ℕ → (ℕ → Bool) → Bool
holds_from from zero test = true
holds_from from (suc rounds) test =
    let rest = holds_from (from + 1) rounds test in if test from then rest else false

holds_at :
    (from rounds : ℕ) (test : ℕ → Bool) (x : ℕ)
    → holds_from from rounds test ≡ true
    → from ≤ x
    → x < from + rounds
    → test x ≡ true
unfolding holds_from
holds_at from zero test x all low high = absurd (omega arith)
holds_at from (suc rounds) test x all low high = elim (Bool-cases (test from)) [
  | inr fails ↦ absurd (ground arith)
  | inl here ↦ elim (ℕ_discrete from x) [
    | yes same ↦ rw (← same) here
    | no other ↦ holds_at (from + 1) rounds test x (rw here at all) (omega arith) (omega arith)
  ]
]

bool_eq : Bool → Bool → Bool
bool_eq true b = b
bool_eq false b = not b

bool_eq_sound : (a b : Bool) → bool_eq a b ≡ true → a ≡ b
unfolding bool_eq
bool_eq_sound true b h = ground arith
bool_eq_sound false b h = ground arith

-- What a change of bit `i` by `f` does to bit `j` of a byte.
abbrev expected : (Bool → Bool) → ℕ → ℕ → ℕ → Bool
expected g i j v = if i == j then g (test_bit v j) else test_bit v j

agrees : (ℕ → ℕ → ℕ) → (Bool → Bool) → ℕ → ℕ → ℕ → Bool
agrees f g i j v = bool_eq (test_bit (f i v) j) (expected g i j v)

table : (ℕ → ℕ → ℕ) → (Bool → Bool) → Bool
table f g = holds_from 0 8 (λ i. holds_from 0 8 (λ j. holds_from 0 256 (agrees f g i j)))

table_sound :
    (f : ℕ → ℕ → ℕ) (g : Bool → Bool)
    → table f g ≡ true
    → (i j v : ℕ) → i < 8
    → j < 8
    → v < 256
    → test_bit (f i v) j ≡ expected g i j v
unfolding table agrees
table_sound f g h i j v hi hj hv = bool_eq_sound _ _ (
    holds_at 0 256 (agrees f g i j) v
      (holds_at 0 8 (λ j. holds_from 0 256 (agrees f g i j)) j
        (holds_at 0 8 (λ i. holds_from 0 8 (λ j. holds_from 0 256 (agrees f g i j))) i h
          (omega arith) (omega arith))
        (omega arith) (omega arith))
      (omega arith) (omega arith))

-- The three changes of a byte, bit by bit, by evaluation at every byte.
table_xor : table xor_bit not ≡ true
unfolding table holds_from agrees bool_eq
table_xor = refl

table_or : table or_bit (λ _. true) ≡ true
unfolding table holds_from agrees bool_eq
table_or = refl

table_clear : table clear_bit (λ _. false) ≡ true
unfolding table holds_from agrees bool_eq
table_clear = refl

stays_byte : (ℕ → ℕ → ℕ) → Bool
stays_byte f = holds_from 0 8 (λ i. holds_from 0 256 (λ v. ltb (f i v) 256))

stays_byte_sound : (f : ℕ → ℕ → ℕ) → stays_byte f ≡ true → (i v : ℕ) → i < 8 → v < 256 → f i v < 256
unfolding stays_byte
stays_byte_sound f h i v hi hv = ltb→lt _ _ (
    holds_at 0 256 (λ v. ltb (f i v) 256) v
      (holds_at 0 8 (λ i. holds_from 0 256 (λ v. ltb (f i v) 256)) i h (omega arith) (omega arith))
      (omega arith) (omega arith))

xor_stays : stays_byte xor_bit ≡ true
unfolding stays_byte holds_from
xor_stays = refl

or_stays : stays_byte or_bit ≡ true
unfolding stays_byte holds_from
or_stays = refl

clear_stays : stays_byte clear_bit ≡ true
unfolding stays_byte holds_from
clear_stays = refl

-- The bytes are bytes.
abbrev pub IsBytes : Bitmap → Type 0
IsBytes b = All (λ v. v < 256) b.bytes

-- The number of bits.
abbrev pub size : Bitmap → ℕ
size b = 8 * length b.bytes

-- The bit at an index, `false` beyond the slice.
unfoldable pub bit : Bitmap → ℕ → Bool
bit b i = elim (get b i) [ none ↦ false | some v ↦ v ]

bit_at : (b : Bitmap) (i v : ℕ) → get_elem? b.bytes (i / 8) ≡ some v → bit b i ≡ test_bit v (i % 8)
unfolding bit get
bit_at b i v e = rw (e, bit, get, ◌>>=◌)

get_at :
    (b : Bitmap) (i v : ℕ)
    → get_elem? b.bytes (i / 8) ≡ some v
    → get b i ≡ some (test_bit v (i % 8))
unfolding get
get_at b i v e = rw (e, ◌>>=◌)

bit_same :
    (b c : Bitmap) (i : ℕ)
    → get_elem? b.bytes (i / 8) ≡ get_elem? c.bytes (i / 8)
    → bit b i ≡ bit c i
unfolding bit get
bit_same b c i e = rw (e, bit, get, ◌>>=◌)

-- Within the slice a read gives the bit.
pub get-eq-bit : (b : Bitmap) (i : ℕ) → i < size b → get b i ≡ some (bit b i)
get-eq-bit b i h =
    let (v, e) = get_elem?-total b.bytes (i / 8) (omega arith) in
    rw (get_at b i v e, bit_at b i v e)

-- What the three changes have in common.
module _ (f : ℕ → ℕ → ℕ) (g : Bool → Bool) (bits : table f g ≡ true)
    (stays : stays_byte f ≡ true) where
  bit_after :
      (b : Bitmap) (i j v : ℕ)
      → IsBytes b
      → i < size b
      → get_elem? b.bytes (i / 8) ≡ some v
      → bit (record { bytes = set b.bytes (i / 8) (f (i % 8) v) }) j
        ≡ (if i == j then g (bit b j) else bit b j)
  bit_after b i j v ok h e = elim (ℕ_discrete (i / 8) (j / 8)) [
    | yes same ↦
        let here = get_elem?-set_self b.bytes (i / 8) (f (i % 8) v) (omega arith) in
        let law =
          table_sound f g bits (i % 8) (j % 8) v (omega arith) (omega arith)
            (All-get_elem? _ b.bytes (i / 8) ok e) in
        ground (
          arith,
          law,
          bit_at b j v (rw same at e),
          bit_at (record { bytes = set b.bytes (i / 8) (f (i % 8) v) }) j (f (i % 8) v)
              (subst (λ k. get_elem? (set b.bytes (i / 8) (f (i % 8) v)) k ≡ some (f (i % 8) v))
                same here),
        )
    | no other ↦ ground (
      arith,
      bit_same (record { bytes = set b.bytes (i / 8) (f (i % 8) v) }) b j
          (get_elem?-set_ne b.bytes (i / 8) (j / 8) (f (i % 8) v) other),
    )
  ]

  modify_law :
      (b : Bitmap) (i : ℕ)
      → IsBytes b
      → i < size b
      → (b' : Bitmap) × (modify (f (i % 8)) b (i / 8) ≡ some b')
        × IsBytes b'
        × (size b' ≡ size b)
        × ((j : ℕ) → bit b' j ≡ (if i == j then g (bit b j) else bit b j))
  modify_law b i ok h =
      let (v, e) = get_elem?-total b.bytes (i / 8) (omega arith) in
      let small : v < 256 = All-get_elem? _ b.bytes (i / 8) ok e in
      (
        record { bytes = set b.bytes (i / 8) (f (i % 8) v) },
        rw (e, ◌>>=◌),
        All-set _ b.bytes (i / 8) (f (i % 8) v) ok
            (stays_byte_sound f stays (i % 8) v (omega arith) small),
        omega (arith, length-set {0} b.bytes (i / 8) (f (i % 8) v)),
        λ j. bit_after b i j v ok h e,
      )

-- A write into a bitmap: it succeeds, keeps the size and the bytes, and changes bit `i` by `g`.
abbrev pub Writes : (Bool → Bool) → Bitmap → ℕ → Option Bitmap → Type 0
Writes g b i r =
    (b' : Bitmap) × (r ≡ some b')
    × IsBytes b'
    × (size b' ≡ size b)
    × ((j : ℕ) → bit b' j ≡ (if i == j then g (bit b j) else bit b j))

-- Within the slice `toggle` succeeds, keeps the size, flips the bit at the index and leaves every
-- other bit.
pub toggle_flips : (b : Bitmap) (i : ℕ) → IsBytes b → i < size b → Writes not b i (toggle b i)
unfolding toggle
toggle_flips = modify_law xor_bit not table_xor xor_stays

-- Within the slice `set` and `unset` succeed, keep the size, make the bit at the index true and
-- false respectively, and leave every other bit.
pub set-unset_write :
    (b : Bitmap) (i : ℕ)
    → IsBytes b
    → i < size b
    → Writes (λ _. true) b i (set_bit b i) × Writes (λ _. false) b i (unset b i)
unfolding set_bit unset
set-unset_write b i ok h = (
  modify_law or_bit (λ _. true) table_or or_stays b i ok h,
  modify_law clear_bit (λ _. false) table_clear clear_stays b i ok h,
)

zero_bits : (k : ℕ) → test_bit 0 k ≡ false
zero_bits k = rw (zero-div (2 ^ k)) refl

-- Zeroed memory is a bitmap with no bit set.
pub bit-zeros : (n i : ℕ) → bit (record { bytes = replicate n 0 }) i ≡ false
unfolding bit get
bit-zeros n i = elim (Option-cases (get_elem? {A = ℕ} (replicate n 0) (i / 8))) [
  | inl out ↦ rw (out, bit, get, ◌>>=◌)
  | inr (v, e) ↦
      let z : v ≡ 0 =
        All-get_elem? (λ t. t ≡ 0) (replicate n 0) (i / 8) (All-replicate _ n 0 refl) e in
      bit_at (record { bytes = replicate n 0 }) i v e ∙ rw z (zero_bits (i % 8))
]
