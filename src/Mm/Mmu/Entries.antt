-- ===== src/Mm/Mmu/Entries.antt =====
-- kernel/kernel/src/arch/x86_64/mmu.rs: what is put into an entry can be read from it.
use corrosios.Base.{
  ℕ, ◌+◌, ◌*◌, ◌/◌, ◌%◌, ◌^◌, ◌<◌, ◌≡◌, refl, arith, ◌∙◌, ap, Bool, true, false, not, to_nat, ltb,
  ◌==◌, ℕ_discrete, or64, wshl, digitwise,
}
use corrosios.Mm.Types.{PageTablePerms, CacheMode}
use corrosios.Mm.Mmu.{
  accessed, writable, user_mode, global, no_exec, contains, make_terminal_pte,
  make_intermediate_pte, get_pte_frame, pte_is_present, pte_is_terminal,
}
use corrosios.Mm.Mmu.Words.{uses_pcd, pat_a, pat_c, or-addr, terminal_sum, word-Reads, Reads}

-- What is read from a terminal entry for a frame below 2 ^ 40: it is present, it is terminal at its
-- level, its frame is the frame, and its flags are those of the permissions.
pub record Encodes (level frame pte : ℕ) (perms : PageTablePerms) : Type 0 where
  pub is_present : pte_is_present pte level ≡ true
  pub is_terminal : pte_is_terminal pte level ≡ true
  pub same_frame : get_pte_frame pte level ≡ frame
  pub can_write : contains pte writable ≡ perms.p_write
  pub can_user : contains pte user_mode ≡ perms.p_user
  pub is_global : contains pte global ≡ perms.p_global
  pub cannot_execute : contains pte no_exec ≡ not perms.p_execute

bit_small : (b : Bool) → to_nat b < 2
bit_small true = omega arith
bit_small false = omega arith

terminal-Reads :
    (level frame : ℕ) (perms : PageTablePerms) (mode : CacheMode)
    → frame < 2 ^ 40
    → Reads
        (make_terminal_pte level frame perms mode)
        frame
        (to_nat (not perms.p_execute))
        (to_nat perms.p_write)
        (to_nat perms.p_user)
        (to_nat perms.p_global)
        (to_nat (ltb 0 level))
        (to_nat (uses_pcd mode))
terminal-Reads level frame perms mode small = rw (terminal_sum level frame perms mode small) (
    word-Reads frame (to_nat (not perms.p_execute)) (to_nat perms.p_write) (to_nat perms.p_user)
      (to_nat perms.p_global) (to_nat (ltb 0 level)) (to_nat (pat_a mode)) (to_nat (uses_pcd mode))
      (to_nat (pat_c mode)) small (bit_small _) (bit_small _) (bit_small _) (bit_small _)
      (bit_small _) (bit_small _) (bit_small _) (bit_small _))

digit_flag : (n : ℕ) (b : Bool) → n ≡ to_nat b → (n == 1) ≡ b
digit_flag n true e = rw e refl
digit_flag n false e = rw e refl

-- A terminal entry for a frame below 2 ^ 40 is present and terminal, and its frame and its flags are
-- those it was made of.
pub make_terminal_pte-Encodes :
    (level frame : ℕ) (perms : PageTablePerms) (mode : CacheMode)
    → frame < 2 ^ 40
    → Encodes level frame (make_terminal_pte level frame perms mode) perms
unfolding pte_is_present pte_is_terminal get_pte_frame
make_terminal_pte-Encodes level frame perms mode small =
    let r = terminal-Reads level frame perms mode small in
    record {
      is_present = digit_flag _ true r.digit_0;
      is_terminal = elim (ℕ_discrete level 0) [
        | yes leaf ↦ rw leaf refl
        | no above ↦
            let b : ltb 0 level ≡ true = ground arith in
            let z : (level == 0) ≡ false = ground arith in
            rw z (digit_flag _ true (r.digit_7 ∙ ap to_nat b))
      ];
      same_frame = r.middle;
      can_write = digit_flag _ perms.p_write r.digit_1;
      can_user = digit_flag _ perms.p_user r.digit_2;
      is_global = digit_flag _ perms.p_global r.digit_8;
      cannot_execute = digit_flag _ (not perms.p_execute) r.digit_63;
    }

-- The modes write-combining and uncached, and no other, set the flag `ACCESSED` (bit 5) of a terminal
-- entry for a frame below 2 ^ 40, and no mode sets the cache-disable bit of the processor (bit 4).
pub make_terminal_pte-accessed :
    (level frame : ℕ) (perms : PageTablePerms) (mode : CacheMode)
    → frame < 2 ^ 40
    → (contains (make_terminal_pte level frame perms mode) accessed ≡ uses_pcd mode)
      × (contains (make_terminal_pte level frame perms mode) (2 ^ 4) ≡ false)
make_terminal_pte-accessed level frame perms mode small =
    let r = terminal-Reads level frame perms mode small in
    (digit_flag _ (uses_pcd mode) r.digit_5, digit_flag _ false r.digit_4)

-- An entry for a table below 2 ^ 40 is present, is not terminal above level 0, and refers to the
-- table.
pub make_intermediate_pte-refers :
    (level table : ℕ)
    → 0 < level
    → table < 2 ^ 40
    → (pte_is_present (make_intermediate_pte level table) level ≡ true)
      × (pte_is_terminal (make_intermediate_pte level table) level ≡ false)
      × (get_pte_frame (make_intermediate_pte level table) level ≡ table)
unfolding make_intermediate_pte pte_is_present pte_is_terminal get_pte_frame digitwise
make_intermediate_pte-refers level table pos small =
    let z : (level == 0) ≡ false = ground arith in
    let e : or64 (wshl table 12) 7 ≡ (table + 0) * 2 ^ 12 + 7 =
      or-addr table 7 false small (omega arith) in
    rw (z, e)
      (
        digit_flag (((table + 0) * 2 ^ 12 + 7) / 2 ^ 0 % 2) true (omega arith),
        digit_flag (((table + 0) * 2 ^ 12 + 7) / 2 ^ 7 % 2) false (omega arith),
        omega arith,
      )
