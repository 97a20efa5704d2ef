-- ===== src/Mm/Mmu/Words.antt =====
-- kernel/kernel/src/arch/x86_64/mmu.rs: the words of entries and their binary digits.
use corrosios.Base.{
  ℕ, ◌+◌, ◌*◌, ◌/◌, ◌%◌, ◌^◌, ◌<◌, ◌≡◌, refl, arith, ◌∙◌, ap, sym, Bool, true, false, not, to_nat,
  ltb, ◌==◌, ==_iff, ◌&&◌, or64, wshl, or_digit, digitwise, digitwise_split, digitwise-zero_left,
  digitwise-zero_right,
}
use corrosios.Mm.Types.{PageTablePerms, CacheMode, cached, write_through, write_combining, uncached}
use corrosios.Mm.Mmu.{
  present, large, set_flag, flags_from_perms, pat_selector_for_cache_mode, pat_selector_to_pte_bits,
  make_terminal_pte,
}

every : (Bool → Bool) → Bool
every p = p true && p false

every_at : (p : Bool → Bool) → every p ≡ true → (b : Bool) → p b ≡ true
unfolding every
every_at p h true = ground arith
every_at p h false = ground arith

-- The flags of an entry below bit 12, and bit 63.
abbrev low_flags : Bool → Bool → Bool → Bool → ℕ
low_flags w u g l = 1 + to_nat w * 2 + to_nat u * 4 + to_nat l * 128 + to_nat g * 256

abbrev perms_of : Bool → Bool → Bool → Bool → PageTablePerms
perms_of w x u g = record { p_read = true; p_write = w; p_execute = x; p_user = u; p_global = g }

flags_test : Bool → Bool → Bool → Bool → Bool → Bool
flags_test w x u g l =
    set_flag (or64 present (flags_from_perms (perms_of w x u g))) large l
    == low_flags w u g l + to_nat (not x) * 2 ^ 63

flags_table :
    every (λ w. every (λ x. every (λ u. every (λ g. every (λ l. flags_test w x u g l))))) ≡ true
unfolding every flags_test flags_from_perms digitwise
flags_table = refl

flags_sum :
    (perms : PageTablePerms) (l : Bool)
    → set_flag (or64 present (flags_from_perms perms)) large l
      ≡ low_flags perms.p_write perms.p_user perms.p_global l
        + to_nat (not perms.p_execute) * 2 ^ 63
unfolding flags_test flags_from_perms
flags_sum perms l =
    let w = perms.p_write in
    let x = perms.p_execute in
    let u = perms.p_user in
    let g = perms.p_global in
    (==_iff _ _).0 (
      every_at (λ l. flags_test w x u g l)
        (every_at (λ g. every (λ l. flags_test w x u g l))
          (every_at (λ u. every (λ g. every (λ l. flags_test w x u g l)))
            (every_at (λ x. every (λ u. every (λ g. every (λ l. flags_test w x u g l))))
              (every_at
                (λ w. every (λ x. every (λ u. every (λ g. every (λ l. flags_test w x u g l)))))
                flags_table w)
              x)
            u)
          g)
        l)

-- The bits that the four cache modes set: 3, 5 and 9.
abbrev pub pat_a : CacheMode → Bool
pat_a cached = false
pat_a _ = true

abbrev pub uses_pcd : CacheMode → Bool
uses_pcd write_combining = true
uses_pcd uncached = true
uses_pcd _ = false

abbrev pub pat_c : CacheMode → Bool
pat_c write_combining = true
pat_c _ = false

abbrev pat_bits : CacheMode → ℕ
pat_bits mode = to_nat (pat_a mode) * 8 + to_nat (uses_pcd mode) * 32 + to_nat (pat_c mode) * 512

pat_sum :
    (mode : CacheMode) → pat_selector_to_pte_bits (pat_selector_for_cache_mode mode) ≡ pat_bits mode
unfolding pat_selector_to_pte_bits digitwise
pat_sum cached = refl
pat_sum write_through = refl
pat_sum write_combining = refl
pat_sum uncached = refl

pat_test : CacheMode → Bool → Bool → Bool → Bool → Bool
pat_test mode w u g l =
    digitwise or_digit 12 (low_flags w u g l) (pat_bits mode) == low_flags w u g l + pat_bits mode

pat_table :
    (mode : CacheMode)
    → every (λ w. every (λ u. every (λ g. every (λ l. pat_test mode w u g l)))) ≡ true
unfolding every pat_test digitwise
pat_table cached = refl
pat_table write_through = refl
pat_table write_combining = refl
pat_table uncached = refl

pat_joins :
    (mode : CacheMode) (w u g l : Bool)
    → digitwise or_digit 12 (low_flags w u g l) (pat_bits mode) ≡ low_flags w u g l + pat_bits mode
unfolding pat_test
pat_joins mode w u g l = (==_iff _ _).0 (
    every_at (λ l. pat_test mode w u g l)
      (every_at (λ g. every (λ l. pat_test mode w u g l))
        (every_at (λ u. every (λ g. every (λ l. pat_test mode w u g l)))
          (every_at (λ w. every (λ u. every (λ g. every (λ l. pat_test mode w u g l))))
            (pat_table mode) w)
          u)
        g)
      l)

-- A frame's address and flags whose bits do not meet.
pub or-addr :
    (frame low : ℕ) (nx : Bool)
    → frame < 2 ^ 40
    → low < 2 ^ 12
    → or64 (wshl frame 12) (low + to_nat nx * 2 ^ 63) ≡ (frame + to_nat nx * 2 ^ 51) * 2 ^ 12 + low
or-addr frame low nx small flags =
    let a : wshl frame 12 ≡ frame * 2 ^ 12 + 0 = omega arith in
    let b : low + to_nat nx * 2 ^ 63 ≡ to_nat nx * 2 ^ 51 * 2 ^ 12 + low = omega arith in
    let f : frame ≡ 0 * 2 ^ 40 + frame = omega arith in
    let n : to_nat nx * 2 ^ 51 ≡ to_nat nx * 2 ^ 11 * 2 ^ 40 + 0 = omega arith in
    let bit : to_nat nx < 2 = ground arith in
    let outer =
      digitwise_split or_digit 12 52 0 frame low (to_nat nx * 2 ^ 51) (omega arith) flags in
    let inner = digitwise_split or_digit 40 12 frame 0 0 (to_nat nx * 2 ^ 11) small (omega arith) in
    let top = digitwise-zero_left or_digit 12 (to_nat nx * 2 ^ 11) refl refl (omega arith) in
    let mid = digitwise-zero_right or_digit 40 frame refl refl small in
    let bottom = digitwise-zero_left or_digit 12 low refl refl flags in
    let e : digitwise or_digit 52 frame (to_nat nx * 2 ^ 51) ≡ to_nat nx * 2 ^ 11 * 2 ^ 40 + frame =
      ap (λ t. digitwise or_digit 52 t (to_nat nx * 2 ^ 51)) f
      ∙ ap (λ t. digitwise or_digit 52 (0 * 2 ^ 40 + frame) t) n
      ∙ omega (arith, inner, top, mid) in
    rw (a, b) (omega (arith, outer, bottom, e))

-- The word of a terminal entry.
pub terminal_sum :
    (level frame : ℕ) (perms : PageTablePerms) (mode : CacheMode)
    → frame < 2 ^ 40
    → make_terminal_pte level frame perms mode
      ≡ (frame + to_nat (not perms.p_execute) * 2 ^ 51) * 2 ^ 12
        + (low_flags perms.p_write perms.p_user perms.p_global (ltb 0 level) + pat_bits mode)
unfolding make_terminal_pte
terminal_sum level frame perms mode small =
    let low = low_flags perms.p_write perms.p_user perms.p_global (ltb 0 level) in
    let high = frame + to_nat (not perms.p_execute) * 2 ^ 51 in
    let short : low < 2 ^ 12 = ground arith in
    let bit : to_nat (not perms.p_execute) < 2 = ground arith in
    let pat : pat_bits mode < 2 ^ 12 = ground arith in
    let z : 0 * 2 ^ 12 + pat_bits mode ≡ pat_bits mode = omega arith in
    let outer = digitwise_split or_digit 12 52 low high (pat_bits mode) 0 short pat in
    let kept = digitwise-zero_right or_digit 52 high refl refl (omega arith) in
    let joined = pat_joins mode perms.p_write perms.p_user perms.p_global (ltb 0 level) in
    rw
      (
        flags_sum perms (ltb 0 level),
        pat_sum mode,
        or-addr frame low (not perms.p_execute) small short,
      )
      (ap (λ t. or64 (high * 2 ^ 12 + low) t) (sym z) ∙ omega (arith, outer, kept, joined))

-- A word made of a frame, its highest bit and eight digits.
abbrev pub word : ℕ → ℕ → ℕ → ℕ → ℕ → ℕ → ℕ → ℕ → ℕ → ℕ
word frame n w u g l a b c =
    (frame + n * 2 ^ 51) * 2 ^ 12
    + (1 + w * 2 + u * 4 + l * 128 + g * 256 + (a * 8 + b * 32 + c * 512))

pub record Reads (pte frame n w u g l b : ℕ) : Type 0 where
  pub digit_0 : pte / 2 ^ 0 % 2 ≡ 1
  pub digit_1 : pte / 2 ^ 1 % 2 ≡ w
  pub digit_2 : pte / 2 ^ 2 % 2 ≡ u
  pub digit_4 : pte / 2 ^ 4 % 2 ≡ 0
  pub digit_5 : pte / 2 ^ 5 % 2 ≡ b
  pub digit_7 : pte / 2 ^ 7 % 2 ≡ l
  pub digit_8 : pte / 2 ^ 8 % 2 ≡ g
  pub digit_63 : pte / 2 ^ 63 % 2 ≡ n
  pub middle : pte % 2 ^ 52 / 2 ^ 12 ≡ frame

pub word-Reads :
    (frame n w u g l a b c : ℕ)
    → frame < 2 ^ 40
    → n < 2
    → w < 2
    → u < 2
    → g < 2
    → l < 2
    → a < 2
    → b < 2
    → c < 2
    → Reads (word frame n w u g l a b c) frame n w u g l b
word-Reads frame n w u g l a b c hf hn hw hu hg hl ha hb hc = record {
  digit_0 = omega arith;
  digit_1 = omega arith;
  digit_2 = omega arith;
  digit_4 = omega arith;
  digit_5 = omega arith;
  digit_7 = omega arith;
  digit_8 = omega arith;
  digit_63 = omega arith;
  middle = omega arith;
}
