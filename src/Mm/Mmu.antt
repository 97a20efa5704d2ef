-- ===== src/Mm/Mmu.antt =====
-- kernel/kernel/src/arch/x86_64/mmu.rs: the entries of page tables. An entry is a 64-bit word; `|` and
-- `& !` on words are `or64` and `clear64`, and a test of one bit is written with division.
pub mod Words
pub mod Entries
use corrosios.Base.{
  ℕ, ◌+◌, ◌*◌, ◌/◌, ◌%◌, ◌^◌, Bool, true, false, not, ltb, ◌==◌, if◌then◌else◌, or64, clear64, wshl,
}
use corrosios.Mm.Types.{PageTablePerms, CacheMode, cached, write_through, write_combining, uncached}

abbrev page_shift : ℕ
page_shift = 12

abbrev pub pt_level_count : ℕ
pt_level_count = 4

abbrev pub pt_level_shift : ℕ
pt_level_shift = 9

abbrev pub pt_entry_count : ℕ
pt_entry_count = 512

-- `X86PageTableFlags`
abbrev pub present : ℕ
present = 2 ^ 0

abbrev pub writable : ℕ
writable = 2 ^ 1

abbrev pub user_mode : ℕ
user_mode = 2 ^ 2

abbrev pub accessed : ℕ
accessed = 2 ^ 5

abbrev pub large : ℕ
large = 2 ^ 7

abbrev pub global : ℕ
global = 2 ^ 8

abbrev pub no_exec : ℕ
no_exec = 2 ^ 63

-- `flags.set(flag, on)` and `flags.contains(flag)`, for a flag of one bit.
abbrev pub set_flag : ℕ → ℕ → Bool → ℕ
set_flag bits flag on = if on then or64 bits flag else clear64 bits flag

abbrev pub contains : ℕ → ℕ → Bool
contains bits flag = bits / flag % 2 == 1

unfoldable pub flags_from_perms : PageTablePerms → ℕ
flags_from_perms perms =
    set_flag
      (set_flag (set_flag (set_flag 0 writable perms.p_write) user_mode perms.p_user) no_exec
        (not perms.p_execute))
      global perms.p_global

abbrev pub pat_selector_for_cache_mode : CacheMode → ℕ
pat_selector_for_cache_mode cached = 0
pat_selector_for_cache_mode write_through = 1
pat_selector_for_cache_mode write_combining = 7
pat_selector_for_cache_mode uncached = 3

-- `((s & 1) << 3) | ((s & 2) << 4) | ((s & 4) << 7)`
unfoldable pub pat_selector_to_pte_bits : ℕ → ℕ
pat_selector_to_pte_bits s =
    or64 (or64 (wshl (s % 2) 3) (wshl (s / 2 % 2 * 2) 4)) (wshl (s / 4 % 2 * 4) 7)

abbrev pub make_empty_pte : ℕ
make_empty_pte = 0

unfoldable pub make_terminal_pte : ℕ → ℕ → PageTablePerms → CacheMode → ℕ
make_terminal_pte level frame perms cache_mode =
    or64
      (or64 (wshl frame page_shift)
        (set_flag (or64 present (flags_from_perms perms)) large (ltb 0 level)))
      (pat_selector_to_pte_bits (pat_selector_for_cache_mode cache_mode))

unfoldable pub make_intermediate_pte : ℕ → ℕ → ℕ
make_intermediate_pte level next_table =
    or64 (wshl next_table page_shift) (or64 (or64 present writable) user_mode)

-- `PERMS_MASK` is the three flags that `update_pte_perms` clears.
unfoldable pub update_pte_perms : ℕ → ℕ → PageTablePerms → ℕ
update_pte_perms pte level perms =
    or64 (clear64 pte (or64 (or64 writable user_mode) no_exec)) (flags_from_perms perms)

unfoldable pub get_pte_frame : ℕ → ℕ → ℕ
get_pte_frame pte level = pte % 2 ^ 52 / 2 ^ page_shift

unfoldable pub pte_is_present : ℕ → ℕ → Bool
pte_is_present pte level = contains pte present

unfoldable pub pte_is_terminal : ℕ → ℕ → Bool
pte_is_terminal pte level = if level == 0 then true else contains pte large

unfoldable pub supports_page_size : ℕ → Bool
supports_page_size level = ltb level 2
