-- ===== src/Mm/Pt/Updating.antt =====
-- kernel/kernel/src/mm/pt.rs: how `unmap` and `protect` end, what `unmap` changes, and what it skips.
use corrosios.Base.{
  ℕ, zero, suc, ◌+◌, ◌-◌, ◌%◌, min, ◌<◌, ◌≤◌, ◌≡◌, refl, arith, ◌∙◌, true, ◌==◌, ◌&&◌, wadd,
  Bool-cases, inl, inr, ◌⊎◌,
}
use corrosios.Mm.Types.{pt_index}
use corrosios.Mm.Mmu.{make_empty_pte}
use corrosios.Mm.Pt.{
  MappingPointer, new_pointer, virt, remaining_pages, covers_level_entry, done, Walker, Tables, set,
  NextTable, next, not_present, terminal_entry, next_table,
}
use corrosios.Mm.Pt.Update.{update_terminal, update_next, update_step, walk_update, unmap}
use corrosios.Mm.Pt.Walks.{
  IsPointer, Ends, Moved-refl, level_stop, walk_level-Ends, Ends-weaken, level_stop-above,
  advance-Moved, advance_clamped-Moved, max_virt_exact, walk_level-round,
}
use corrosios.Mm.Pt.Finish.{Finishes, IsRange, range-IsPointer, Ends-Finishes}

page_covered :
    (p : MappingPointer) → IsPointer p → p.offset < p.size → covers_level_entry p 0 ≡ true
unfolding covers_level_entry
page_covered p i more =
    let left : remaining_pages p ≡ p.size - p.offset = omega (arith, i.inside, i.small) in
    let one : virt p % 1 ≡ 0 = omega arith in rw (one, left) (ground arith)

module _ {ℓ} {G : Type ℓ} (add : G → ℕ → G) (update : ℕ → ℕ → ℕ → ℕ)
    (R : Tables × G → Tables × G → Type 0) (R_refl : (s : Tables × G) → R s s)
    (R_trans : (s t u : Tables × G) → R s t → R t u → R s u)
    (step : (t : Tables) (g : G) (table index vpn level : ℕ)
      → R (t, g) (set t table index (update vpn (t table index) level), add g vpn)) where
  update_terminal-Ends :
      (table level : ℕ) (p : MappingPointer) (s : Tables × G)
      → IsPointer p
      → covers_level_entry p level ≡ true
      → Ends R p s (suc (virt p)) (update_terminal add update table level p s)
  unfolding update_terminal
  update_terminal-Ends table level p (t, g) i covers =
      let (moved, ahead) = advance-Moved level p i covers in
      (moved, ahead, step t g table (pt_index (virt p) level) (virt p) level)

  update_next-Ends :
      (n : NextTable) (level stop : ℕ) (deeper : ℕ → Walker (Tables × G)) (table : ℕ)
      (p : MappingPointer) (s : Tables × G)
      → level < 4
      → IsPointer p
      → p.offset < p.size
      → suc (virt p) ≤ stop
      → ((table' : ℕ) (s : Tables × G) → Ends R p s stop (deeper table' p s))
      → Ends R p s (suc (virt p)) (update_next add update n level deeper table p s)
  unfolding update_next
  update_next-Ends (next table') level stop deeper table p s small i more above below =
      Ends-weaken R R_refl R_trans p s stop (suc (virt p)) (deeper table' p s) above
        (below table' s)
  update_next-Ends (terminal_entry pte) level stop deeper table p s small i more above below =
      elim (Bool-cases (covers_level_entry p level)) [
        | inl covers ↦ rw covers (update_terminal-Ends table level p s i covers)
        | inr part ↦ rw part (Moved-refl p i, tt, R_refl s)
      ]
  update_next-Ends not_present level stop deeper table p s small i more above below =
      let (moved, ahead) = advance_clamped-Moved level p small i more in (moved, ahead, R_refl s)

  walk_update-Ends :
      (level table : ℕ) (p : MappingPointer) (s : Tables × G)
      → level < 4
      → IsPointer p
      → Ends R p s (level_stop level p) (walk_update add update level table p s)
  unfolding walk_update update_step
  walk_update-Ends zero table p s small i =
      walk_level-Ends R R_refl R_trans 0 _ p s small i
        (λ q t j more. update_terminal-Ends table 0 q t j (page_covered q j more))
  walk_update-Ends (suc level) table p s small i =
      walk_level-Ends R R_refl R_trans (suc level) _ p s small i (λ q (t, g) j more.
        update_next-Ends (next_table t table (pt_index (virt q) (suc level)) (suc level))
          (suc level) (level_stop level q) _ table q (t, g) small j more
          (level_stop-above level q (omega arith) j more)
          (λ table' u. walk_update-Ends level table' q u (omega arith) j))

module _ {ℓ} {G : Type ℓ} where
  -- Every entry is as it was, or empty.
  abbrev pub Empties : Tables × G → Tables × G → Type 0
  Empties (t, g) (t', g') = (u i : ℕ) → (t' u i ≡ t u i) ⊎ (t' u i ≡ make_empty_pte)

  pub Empties-refl : (s : Tables × G) → Empties s s
  Empties-refl (t, g) u i = inl refl

  pub Empties-trans : (s t u : Tables × G) → Empties s t → Empties t u → Empties s u
  Empties-trans (t, g) (t', g') (t'', g'') k l u i = elim (l u i) [
    | inr empty ↦ inr empty
    | inl same ↦ elim (k u i) [ inl before ↦ inl (same ∙ before) | inr empty ↦ inr (same ∙ empty) ]
  ]

  pub set-Empties :
      (t : Tables) (g g' : G) (table index : ℕ)
      → Empties (t, g) (set t table index make_empty_pte, g')
  unfolding set
  set-Empties t g g' table index u i = elim (Bool-cases ((table == u) && (index == i))) [
    | inl here ↦ inr (rw here refl)
    | inr other ↦ inl (rw other refl)
  ]

  -- For a range that the root table covers, `unmap` never runs out of fuel. Where it is done the pointer
  -- is at the end of the range; in every case each entry of every table is as it was or empty.
  pub unmap-Finishes :
      (add : G → ℕ → G) (root base size : ℕ) (s : Tables × G)
      → IsRange base size
      → Finishes Empties size s (unmap add root (new_pointer base size) s)
  unfolding unmap
  unmap-Finishes add root base size s range =
      Ends-Finishes Empties base size s
        (walk_update add (λ vpn pte level. make_empty_pte) 3 root (new_pointer base size) s) range
        (walk_update-Ends add (λ vpn pte level. make_empty_pte) Empties Empties-refl Empties-trans
          (λ t g table index vpn level. set-Empties t g (add g vpn) table index) 3 root
          (new_pointer base size) s (omega arith) (range-IsPointer base size range))

  -- Where the entry of the first page is not present and the rest of the range has at most 512 pages,
  -- a table of level 1 is passed at once: nothing changes and nothing is reported, also where the range
  -- goes on into the next entry.
  pub walk_update-skips :
      (add : G → ℕ → G) (update : ℕ → ℕ → ℕ → ℕ) (table : ℕ) (p : MappingPointer) (t : Tables)
      (g : G)
      → IsPointer p
      → p.offset < p.size
      → p.size ≤ p.offset + 512
      → next_table t table (pt_index (virt p) 1) 1 ≡ not_present
      → walk_update add update 1 table p (t, g) ≡ (done, record p { offset = p.size }, (t, g))
  unfolding walk_update update_step update_next
  walk_update-skips add update table p t g i more short absent =
      let last : min (wadd p.offset 512) p.size ≡ p.size = omega (arith, i.small, i.inside) in
      let stop = max_virt_exact 1 p i in
      let above = level_stop-above 1 p (omega arith) i more in
      walk_level-round 1 _ p (record p { offset = p.size }) (t, g) (t, g) i more
        (omega (arith, stop, above)) (rw (absent, last) refl) (omega (arith, stop, i.small))
