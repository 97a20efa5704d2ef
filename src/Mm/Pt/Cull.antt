-- ===== src/Mm/Pt/Cull.antt =====
-- kernel/kernel/src/mm/pt.rs: `cull_tables`. The state is the tables and that of the object that takes
-- the tables back.
use corrosios.Base.{ℕ, zero, suc, ◌-◌, Bool, ◌&&◌, ◌||◌, if◌then◌else◌}
use corrosios.Mm.Types.{pt_index}
use corrosios.Mm.Mmu.{pt_level_count, pt_entry_count, make_empty_pte}
use corrosios.Mm.Pt.{
  new_pointer, virt, advance_clamped, level_page_count, covers_level_entry, done, and_walk,
  walk_level, Walked, Walker, Tables, set, NextTable, next, not_present, terminal_entry, next_table,
  table_is_empty,
}

module _ {ℓ} {C : Type ℓ} (can_cull : C → ℕ → ℕ → Bool) (cull : C → ℕ → ℕ → C) where
  -- The end of a round: the next table is unlinked and given back.
  unfoldable pub unlink : ℕ → ℕ → ℕ → Bool → ℕ → Walker (Tables × C)
  unlink next_level table index covered table' p (t, c) =
      if can_cull c table' next_level
        && (covered || table_is_empty pt_entry_count t table' next_level)
      then (done, p, (set t table index make_empty_pte, cull c table' next_level))
      else (done, p, (t, c))

  -- A round at level `suc next_level`, where `deeper` goes through the next table.
  unfoldable pub cull_next : NextTable → ℕ → (ℕ → Walker (Tables × C)) → ℕ → Walker (Tables × C)
  cull_next (next table') next_level deeper table p s = and_walk (deeper table' p s) (
      unlink next_level table (pt_index (virt p) (suc next_level))
        (covers_level_entry p (suc next_level)) table')
  cull_next not_present next_level deeper table p s =
      (done, advance_clamped p (level_page_count (suc next_level)), s)
  cull_next (terminal_entry pte) next_level deeper table p s =
      (done, advance_clamped p (level_page_count (suc next_level)), s)

  unfoldable pub cull_step : ℕ → (ℕ → Walker (Tables × C)) → ℕ → Walker (Tables × C)
  cull_step next_level deeper table p (t, c) =
      cull_next (next_table t table (pt_index (virt p) (suc next_level)) (suc next_level))
        next_level deeper table p (t, c)

  -- At level `suc next_level`. A table of level 0 has pages only.
  unfoldable pub cull_level : ℕ → ℕ → Walker (Tables × C)
  cull_level zero table p s =
      walk_level 1
        (cull_step 0 (λ _ p' s'. (done, advance_clamped p' (level_page_count 1), s')) table) p s
  cull_level (suc next_level) table p s =
      walk_level (suc (suc next_level)) (cull_step (suc next_level) (cull_level next_level) table) p
        s

  unfoldable pub cull_tables : ℕ → ℕ → ℕ → Tables × C → Walked (Tables × C)
  cull_tables root base size s = cull_level (pt_level_count - 2) root (new_pointer base size) s
