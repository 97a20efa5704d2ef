-- ===== src/Mm/Pt/Update.antt =====
-- kernel/kernel/src/mm/pt.rs: `unmap` and `protect`. The state is the tables and what is gathered for
-- the TLB.
use corrosios.Base.{ℕ, zero, suc, ◌-◌, if◌then◌else◌}
use corrosios.Err.{resource_overlap}
use corrosios.Mm.Types.{PageTablePerms, pt_index}
use corrosios.Mm.Mmu.{pt_level_count, make_empty_pte, update_pte_perms}
use corrosios.Mm.Pt.{
  virt, advance, advance_clamped, level_page_count, covers_level_entry, done, failed, walk_level,
  Walker, Tables, set, NextTable, next, not_present, terminal_entry, next_table,
}

module _ {ℓ} {G : Type ℓ} (add_tlb_flush : G → ℕ → G) (update : ℕ → ℕ → ℕ → ℕ) where
  unfoldable pub update_terminal : ℕ → ℕ → Walker (Tables × G)
  update_terminal table level p (t, g) =
      let index = pt_index (virt p) level in
      (
        done,
        advance p (level_page_count level),
        (set t table index (update (virt p) (t table index) level), add_tlb_flush g (virt p)),
      )

  -- What is done above level 0, by what the entry is; `deeper` is `walk_update` at the level below.
  unfoldable pub update_next : NextTable → ℕ → (ℕ → Walker (Tables × G)) → ℕ → Walker (Tables × G)
  update_next (next table') level deeper table p s = deeper table' p s
  update_next (terminal_entry pte) level deeper table p s =
      if covers_level_entry p level
      then update_terminal table level p s
      else (failed resource_overlap, p, s)
  update_next not_present level deeper table p s =
      (done, advance_clamped p (level_page_count level), s)

  unfoldable pub update_step : ℕ → (ℕ → Walker (Tables × G)) → ℕ → Walker (Tables × G)
  update_step level deeper table p (t, g) =
      update_next (next_table t table (pt_index (virt p) level) level) level deeper table p (t, g)

  unfoldable pub walk_update : ℕ → ℕ → Walker (Tables × G)
  walk_update zero table p s = walk_level 0 (update_terminal table 0) p s
  walk_update (suc level) table p s =
      walk_level (suc level) (update_step (suc level) (walk_update level) table) p s

module _ {ℓ} {G : Type ℓ} (add_tlb_flush : G → ℕ → G) where
  unfoldable pub unmap : ℕ → Walker (Tables × G)
  unmap root p s =
      walk_update add_tlb_flush (λ vpn pte level. make_empty_pte) (pt_level_count - 1) root p s

  unfoldable pub protect : PageTablePerms → ℕ → Walker (Tables × G)
  protect perms root p s =
      walk_update add_tlb_flush (λ vpn pte level. update_pte_perms pte level perms)
        (pt_level_count - 1) root p s
