-- ===== src/Mm/Pt/Culling.antt =====
-- kernel/kernel/src/mm/pt.rs: how `cull_tables` ends, and what it changes.
use corrosios.Base.{ℕ, zero, suc, ◌+◌, ◌<◌, ◌≤◌, arith, Bool, ◌&&◌, ◌||◌, Bool-cases, inl, inr}
use corrosios.Mm.Types.{pt_index}
use corrosios.Mm.Mmu.{pt_entry_count}
use corrosios.Mm.Pt.{
  MappingPointer, new_pointer, virt, covers_level_entry, Walker, Tables, NextTable, next,
  not_present, terminal_entry, next_table, table_is_empty,
}
use corrosios.Mm.Pt.Cull.{unlink, cull_next, cull_step, cull_level, cull_tables}
use corrosios.Mm.Pt.Walks.{
  IsPointer, Ends, Moved-refl, Moved-IsPointer, level_stop, walk_level-Ends, Ends-weaken,
  and_walk-Ends, level_stop-above, advance_clamped-Moved,
}
use corrosios.Mm.Pt.Finish.{Finishes, IsRange, range-IsPointer, Ends-Finishes}
use corrosios.Mm.Pt.Updating.{Empties, Empties-refl, Empties-trans, set-Empties}

module _ {ℓ} {C : Type ℓ} (can_cull : C → ℕ → ℕ → Bool) (cull : C → ℕ → ℕ → C) where
  unlink-Ends :
      (next_level table index : ℕ) (covered : Bool) (table' stop : ℕ) (p : MappingPointer)
      (s : Tables × C)
      → IsPointer p
      → stop ≤ p.base + p.offset
      → Ends Empties p s stop (unlink can_cull cull next_level table index covered table' p s)
  unfolding unlink
  unlink-Ends next_level table index covered table' stop p (t, c) i reaches =
      elim (Bool-cases (
        can_cull c table' next_level
        && (covered || table_is_empty pt_entry_count t table' next_level))) [
          | inl culls ↦
              rw culls
                (Moved-refl p i, reaches, set-Empties t c (cull c table' next_level) table index)
          | inr keeps ↦ rw keeps (Moved-refl p i, reaches, Empties-refl (t, c))
        ]

  cull_next-Ends :
      (n : NextTable) (next_level : ℕ) (deeper : ℕ → Walker (Tables × C)) (table : ℕ)
      (p : MappingPointer) (s : Tables × C)
      → suc next_level < 4
      → IsPointer p
      → p.offset < p.size
      → ((table' : ℕ) → Ends Empties p s (suc (virt p)) (deeper table' p s))
      → Ends Empties p s (suc (virt p)) (cull_next can_cull cull n next_level deeper table p s)
  unfolding cull_next
  cull_next-Ends (next table') next_level deeper table p s small i more below =
      and_walk-Ends Empties Empties-refl Empties-trans p s (suc (virt p)) (suc (virt p))
        (deeper table' p s)
        (unlink can_cull cull next_level table (pt_index (virt p) (suc next_level))
          (covers_level_entry p (suc next_level)) table')
        (below table')
        (λ q t m reaches.
          unlink-Ends next_level table (pt_index (virt p) (suc next_level))
            (covers_level_entry p (suc next_level)) table' (suc (virt p)) q t
            (Moved-IsPointer p q i m) reaches)
  cull_next-Ends not_present next_level deeper table p s small i more below =
      let (moved, ahead) = advance_clamped-Moved (suc next_level) p small i more in
      (moved, ahead, Empties-refl s)
  cull_next-Ends (terminal_entry pte) next_level deeper table p s small i more below =
      let (moved, ahead) = advance_clamped-Moved (suc next_level) p small i more in
      (moved, ahead, Empties-refl s)

  cull_level-Ends :
      (next_level table : ℕ) (p : MappingPointer) (s : Tables × C)
      → suc next_level < 4
      → IsPointer p
      → Ends Empties p s
          (level_stop (suc next_level) p)
          (cull_level can_cull cull next_level table p s)
  unfolding cull_level cull_step
  cull_level-Ends zero table p s small i =
      walk_level-Ends Empties Empties-refl Empties-trans 1 _ p s small i (λ q (t, c) j more.
        cull_next-Ends (next_table t table (pt_index (virt q) 1) 1) 0 _ table q (t, c) small j more
          (λ table'.
            let (moved, ahead) = advance_clamped-Moved 1 q small j more in
            (moved, ahead, Empties-refl (t, c))))
  cull_level-Ends (suc next_level) table p s small i =
      walk_level-Ends Empties Empties-refl Empties-trans (suc (suc next_level)) _ p s small i
        (λ q (t, c) j more.
          cull_next-Ends
            (next_table t table (pt_index (virt q) (suc (suc next_level))) (suc (suc next_level)))
            (suc next_level) _ table q (t, c) small j more
            (λ table'.
              Ends-weaken Empties Empties-refl Empties-trans q (t, c)
                (level_stop (suc next_level) q) (suc (virt q))
                (cull_level can_cull cull next_level table' q (t, c))
                (level_stop-above (suc next_level) q (omega arith) j more)
                (cull_level-Ends next_level table' q (t, c) (omega arith) j)))

-- For a range that the root table covers, `cull_tables` never runs out of fuel. Where it is done its
-- pointer is at the end of the range; each entry of every table is as it was or empty.
pub cull_tables-Finishes {ℓ} :
    {C : Type ℓ} (can_cull : C → ℕ → ℕ → Bool) (cull : C → ℕ → ℕ → C) (root base size : ℕ)
    (s : Tables × C)
    → IsRange base size
    → Finishes Empties size s (cull_tables can_cull cull root base size s)
unfolding cull_tables
cull_tables-Finishes can_cull cull root base size s range =
    Ends-Finishes Empties base size s (cull_level can_cull cull 2 root (new_pointer base size) s)
      range
      (cull_level-Ends can_cull cull 2 root (new_pointer base size) s (omega arith)
        (range-IsPointer base size range))
