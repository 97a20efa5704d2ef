-- ===== src/Bootinfo/Bytes.antt =====
-- kernel/bootinfo: reading back the bytes that were written.
use corrosios.Base.{
  ℕ, zero, suc, ◌+◌, ◌/◌, ◌%◌, ◌^◌, ◌≤◌, ◌<◌, ◌≡◌, refl, ◌∙◌, arith, true, false, List, [], ◌∷◌,
  ◌==◌, if◌then◌else◌, length,
}
use corrosios.Bootinfo.{le_word, put_bytes, get_bytes}

pub put_bytes-below : (f : ℕ → ℕ) (off i : ℕ) (bs : List ℕ) → i < off → put_bytes f off bs i ≡ f i
unfolding put_bytes
put_bytes-below f off i [] lt = refl
put_bytes-below f off i (b ∷ bs) lt =
    let other : (off == i) ≡ false = ground arith in
    put_bytes-below (λ j. if off == j then b else f j) (suc off) i bs (omega arith) ∙ rw other refl

pub get_bytes-same :
    (f g : ℕ → ℕ) (off n : ℕ)
    → ((i : ℕ) → off ≤ i → i < off + n → g i ≡ f i)
    → get_bytes g off n ≡ get_bytes f off n
unfolding get_bytes
get_bytes-same f g off zero same = refl
get_bytes-same f g off (suc n) same =
    let first : g off ≡ f off = same off (omega arith) (omega arith) in
    let rest : get_bytes g (suc off) n ≡ get_bytes f (suc off) n =
      get_bytes-same f g (suc off) n (λ i le lt. same i (omega arith) (omega arith)) in
    rw (first, rest) refl

pub get_bytes-put_bytes :
    (f : ℕ → ℕ) (off : ℕ) (bs : List ℕ) → get_bytes (put_bytes f off bs) off (length bs) ≡ bs
unfolding get_bytes put_bytes
get_bytes-put_bytes f off [] = refl
get_bytes-put_bytes f off (b ∷ bs) =
    let g : ℕ → ℕ = λ i. if off == i then b else f i in
    let here : (off == off) ≡ true = ground arith in
    let first : put_bytes g (suc off) bs off ≡ b =
      put_bytes-below g (suc off) off bs (omega arith) ∙ rw here refl in
    rw (first, get_bytes-put_bytes g (suc off) bs) refl

-- A word of 32 bits is what its bytes stand for.
pub le_word_lem :
    (w : ℕ)
    → w < 2 ^ 32
    → le_word (w % 256) (w / 256 % 256) (w / 65536 % 256) (w / 16777216 % 256) ≡ w
le_word_lem w small = omega arith
