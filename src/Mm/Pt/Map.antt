-- ===== src/Mm/Pt/Map.antt =====
-- kernel/kernel/src/mm/pt.rs: `map`. The state is the tables and that of the allocator of tables.
use corrosios.Base.{ℕ, zero, suc, ◌-◌, ◌&&◌, if◌then◌else◌, wadd}
use corrosios.Err.{resource_overlap, Outcome, ok, err, panic}
use corrosios.Mm.Types.{PageTablePerms, CacheMode, pt_index}
use corrosios.Mm.Mmu.{
  pt_level_count, make_terminal_pte, make_intermediate_pte, pte_is_present, supports_page_size,
}
use corrosios.Mm.Pt.{
  MappingPointer, virt, advance, level_page_count, can_use_level_page, done, failed, panicked,
  walk_level, Walked, Walker, Tables, set, clear_table, NextTable, next, not_present,
  terminal_entry, next_table,
}

module _ {ℓ} {A : Type ℓ} (alloc : A → A × Outcome ℕ) (phys_base : ℕ) (perms : PageTablePerms)
    (cache_mode : CacheMode) where
  unfoldable pub map_terminal : ℕ → ℕ → Walker (Tables × A)
  map_terminal table level p (t, a) =
      let index = pt_index (virt p) level in
      if pte_is_present (t table index) level then (failed resource_overlap, p, (t, a)) else (
        done,
        advance p (level_page_count level),
        (set t table index (make_terminal_pte level (wadd phys_base p.offset) perms cache_mode), a),
      )

  -- What `next_table_or_create` does with the answer of the allocator.
  unfoldable pub created :
      ℕ
      → ℕ
      → ℕ
      → Tables
      → (ℕ → Walker (Tables × A))
      → MappingPointer
      → A × Outcome ℕ
      → Walked (Tables × A)
  created table index level t k p (a, ok new_table) =
      k new_table p
        (set (clear_table t new_table) table index (make_intermediate_pte level new_table), a)
  created table index level t k p (a, err e) = (failed e, p, (t, a))
  created table index level t k p (a, panic) = (panicked, p, (t, a))

  -- `next_table_or_create`, with what the caller does with the table.
  unfoldable pub with_next_table :
      NextTable → ℕ → ℕ → (ℕ → Walker (Tables × A)) → Walker (Tables × A)
  with_next_table (next table') table level k p s = k table' p s
  with_next_table (terminal_entry pte) table level k p s = (failed resource_overlap, p, s)
  with_next_table not_present table level k p (t, a) =
      created table (pt_index (virt p) level) level t k p (alloc a)

  -- The closure of `map` at a level, where `deeper` is `map` at the level below.
  unfoldable pub map_step : ℕ → (ℕ → Walker (Tables × A)) → ℕ → Walker (Tables × A)
  map_step level deeper table p (t, a) =
      if supports_page_size level && can_use_level_page level p phys_base
      then map_terminal table level p (t, a)
      else with_next_table (next_table t table (pt_index (virt p) level) level) table level deeper p
          (t, a)

  -- At level 0 every page can be mapped, and there is no level below.
  unfoldable pub map_level : ℕ → ℕ → Walker (Tables × A)
  map_level zero table p s = walk_level 0 (map_step 0 (λ _ p' s'. (panicked, p', s')) table) p s
  map_level (suc level) table p s =
      walk_level (suc level) (map_step (suc level) (map_level level) table) p s

  unfoldable pub map : ℕ → Walker (Tables × A)
  map root p s = map_level (pt_level_count - 1) root p s
