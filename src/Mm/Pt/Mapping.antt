-- ===== src/Mm/Pt/Mapping.antt =====
-- kernel/kernel/src/mm/pt.rs: how `map` ends, and that it keeps what is mapped.
use corrosios.Base.{
  ℕ, zero, suc, ◌<◌, ◌≤◌, ◌≡◌, refl, arith, ◌∙◌, Bool, true, false, ◌==◌, ◌&&◌, wadd, Bool-cases,
  inl, inr, ◌⊎◌,
}
use corrosios.Err.{Outcome, ok, err, panic}
use corrosios.Mm.Types.{PageTablePerms, CacheMode, pt_index}
use corrosios.Mm.Mmu.{
  get_pte_frame, pte_is_present, pte_is_terminal, supports_page_size, make_terminal_pte,
  make_intermediate_pte,
}
use corrosios.Mm.Pt.{
  MappingPointer, new_pointer, virt, can_use_level_page, covers_level_entry, Walker, Tables, set,
  clear_table, next, not_present, terminal_entry, next_table,
}
use corrosios.Mm.Pt.Map.{map_terminal, created, with_next_table, map_step, map_level, map}
use corrosios.Mm.Pt.Walks.{
  IsPointer, Ends, Moved-refl, level_stop, walk_level-Ends, Ends-weaken, Ends-trans,
  level_stop-above, advance-Moved,
}
use corrosios.Mm.Pt.Finish.{Finishes, IsRange, range-IsPointer, Ends-Finishes}

module _ {ℓ} {A : Type ℓ} (used : ℕ → Bool) where
  -- Every present entry of a table in use stays as it is.
  abbrev pub Keeps : Tables × A → Tables × A → Type 0
  Keeps (t, a) (t', a') =
      (u i : ℕ) → used u ≡ true → pte_is_present (t u i) 0 ≡ true → t' u i ≡ t u i

  Keeps-refl : (s : Tables × A) → Keeps s s
  Keeps-refl (t, a) u i in_use present = refl

  Keeps-trans : (s t u : Tables × A) → Keeps s t → Keeps t u → Keeps s u
  Keeps-trans (t, a) (t', a') (t'', a'') k l u i in_use present =
      let e = k u i in_use present in l u i in_use (rw e present) ∙ e

  set-Keeps :
      (t : Tables) (a a' : A) (table index entry level : ℕ)
      → pte_is_present (t table index) level ≡ false
      → Keeps (t, a) (set t table index entry, a')
  unfolding set pte_is_present
  set-Keeps t a a' table index entry level absent u i in_use present =
      elim (Bool-cases ((table == u) && (index == i))) [
        | inr other ↦ rw other refl
        | inl here ↦
            let e : table ≡ u = ground arith in
            let f : index ≡ i = ground arith in absurd (ground (arith, rw (e, f) at absent))
      ]

  clear-Keeps :
      (t : Tables) (a a' : A) (table : ℕ)
      → used table ≡ false
      → Keeps (t, a) (clear_table t table, a')
  unfolding clear_table
  clear-Keeps t a a' table free u i in_use present = elim (Bool-cases (table == u)) [
    | inr other ↦ rw other refl
    | inl here ↦ let e : table ≡ u = ground arith in absurd (ground (arith, rw e at free))
  ]

  module _ (alloc : A → A × Outcome ℕ)
      (fresh : (a a' : A) (t : ℕ) → alloc a ≡ (a', ok t) → used t ≡ false) (phys_base : ℕ)
      (perms : PageTablePerms) (cache_mode : CacheMode) where
    map_terminal-Ends :
        (table level : ℕ) (p : MappingPointer) (s : Tables × A)
        → IsPointer p
        → covers_level_entry p level ≡ true
        → Ends Keeps p s
            (suc (virt p))
            (map_terminal alloc phys_base perms cache_mode table level p s)
    unfolding map_terminal
    map_terminal-Ends table level p (t, a) i covers =
        let (moved, ahead) = advance-Moved level p i covers in
        elim (Bool-cases (pte_is_present (t table (pt_index (virt p) level)) level)) [
          | inl present ↦ rw present (Moved-refl p i, tt, Keeps-refl (t, a))
          | inr absent ↦ rw absent (
            moved,
            ahead,
            set-Keeps t a a table (pt_index (virt p) level)
                (make_terminal_pte level (wadd phys_base p.offset) perms cache_mode) level absent,
          )
        ]

    cleared_absent :
        (t : Tables) (new table index level : ℕ)
        → pte_is_present (t table index) level ≡ false
        → pte_is_present (clear_table t new table index) level ≡ false
    unfolding clear_table pte_is_present
    cleared_absent t new table index level absent = elim (Bool-cases (new == table)) [
      | inl here ↦ rw here refl
      | inr other ↦ rw other absent
    ]

    created-Ends :
        (table index level stop : ℕ) (t : Tables) (a : A) (k : ℕ → Walker (Tables × A))
        (p : MappingPointer)
        → IsPointer p
        → pte_is_present (t table index) level ≡ false
        → ((table' : ℕ) (s : Tables × A) → Ends Keeps p s stop (k table' p s))
        → (r : A × Outcome ℕ) → alloc a ≡ r
        → Ends Keeps p
            (t, a)
            stop
            (created alloc phys_base perms cache_mode table index level t k p r)
    unfolding created
    created-Ends table index level stop t a k p i absent deeper (a', ok new) e =
        let cleared = clear-Keeps t a a' new (fresh a a' new e) in
        let linked =
          set-Keeps (clear_table t new) a' a' table index (make_intermediate_pte level new) level
            (cleared_absent t new table index level absent) in
        Ends-trans Keeps Keeps-refl Keeps-trans p p (t, a)
          (set (clear_table t new) table index (make_intermediate_pte level new), a') stop
          (k new p (set (clear_table t new) table index (make_intermediate_pte level new), a'))
          (Moved-refl p i)
          (Keeps-trans (t, a) (clear_table t new, a')
            (set (clear_table t new) table index (make_intermediate_pte level new), a') cleared
            linked)
          (deeper new (set (clear_table t new) table index (make_intermediate_pte level new), a'))
    created-Ends table index level stop t a k p i absent deeper (a', err x) e =
        (Moved-refl p i, tt, Keeps-refl (t, a))
    created-Ends table index level stop t a k p i absent deeper (a', panic) e =
        (Moved-refl p i, tt, Keeps-refl (t, a))

    -- What `next_table` answers.
    next_table-cases :
        (t : Tables) (table index level : ℕ)
        → ((table' : ℕ) × (next_table t table index level ≡ next table'))
          ⊎ (((next_table t table index level ≡ not_present)
                × (pte_is_present (t table index) level ≡ false))
              ⊎ ((pte : ℕ) × (next_table t table index level ≡ terminal_entry pte)))
    unfolding next_table
    next_table-cases t table index level =
        elim (Bool-cases (pte_is_present (t table index) level)) [
          | inr absent ↦ inr (inl (rw absent refl, absent))
          | inl present ↦ elim (Bool-cases (pte_is_terminal (t table index) level)) [
            | inl leaf ↦ inr (inr (t table index, rw (present, leaf) refl))
            | inr table' ↦ inl (get_pte_frame (t table index) level, rw (present, table') refl)
          ]
        ]

    map_step-Ends :
        (level stop : ℕ) (deeper : ℕ → Walker (Tables × A)) (table : ℕ) (p : MappingPointer)
        (s : Tables × A)
        → IsPointer p
        → suc (virt p) ≤ stop
        → ((table' : ℕ) (s : Tables × A) → Ends Keeps p s stop (deeper table' p s))
        → Ends Keeps p s
            (suc (virt p))
            (map_step alloc phys_base perms cache_mode level deeper table p s)
    unfolding map_step with_next_table can_use_level_page
    map_step-Ends level stop deeper table p (t, a) i above below =
        let index = pt_index (virt p) level in
        let weaken = Ends-weaken Keeps Keeps-refl Keeps-trans p (t, a) stop (suc (virt p)) in
        elim (Bool-cases (supports_page_size level && can_use_level_page level p phys_base)) [
          | inl large ↦ rw large (map_terminal-Ends table level p (t, a) i (ground arith))
          | inr small ↦ rw small (elim (next_table-cases t table index level) [
            | inl (table', e) ↦ rw e (weaken (deeper table' p (t, a)) above (below table' (t, a)))
            | inr (inl (e, absent)) ↦ rw e (
                weaken
                  (created alloc phys_base perms cache_mode table index level t deeper p (alloc a))
                  above
                  (created-Ends table index level stop t a deeper p i absent below (alloc a) refl))
            | inr (inr (pte, e)) ↦ rw e (Moved-refl p i, tt, Keeps-refl (t, a))
          ])
        ]

    map_level-Ends :
        (level table : ℕ) (p : MappingPointer) (s : Tables × A)
        → level < 4
        → IsPointer p
        → Ends Keeps p s
            (level_stop level p)
            (map_level alloc phys_base perms cache_mode level table p s)
    unfolding map_level
    map_level-Ends zero table p s small i =
        walk_level-Ends Keeps Keeps-refl Keeps-trans 0 _ p s small i (λ q t j lt.
          map_step-Ends 0 (suc (virt q)) _ table q t j (omega arith)
            (λ table' u. (Moved-refl q j, tt, Keeps-refl u)))
    map_level-Ends (suc level) table p s small i =
        walk_level-Ends Keeps Keeps-refl Keeps-trans (suc level) _ p s small i (λ q t j lt.
          map_step-Ends (suc level) (level_stop level q) _ table q t j
            (level_stop-above level q (omega arith) j lt)
            (λ table' u. map_level-Ends level table' q u (omega arith) j))

  -- For a range that the root table covers, and an allocator that hands out no table in use, `map`
  -- never runs out of fuel. Where it is done the pointer is at the end of the range; in every case,
  -- errors included, the pointer is in the range and every present entry of a table in use is as it was.
  pub map-Finishes :
      (alloc : A → A × Outcome ℕ) (phys_base : ℕ) (perms : PageTablePerms) (cache_mode : CacheMode)
      → ((a a' : A) (t : ℕ) → alloc a ≡ (a', ok t) → used t ≡ false)
      → (root base size : ℕ) (s : Tables × A) → IsRange base size
      → Finishes Keeps size s (map alloc phys_base perms cache_mode root (new_pointer base size) s)
  unfolding map
  map-Finishes alloc phys_base perms cache_mode fresh root base size s range =
      Ends-Finishes Keeps base size s
        (map_level alloc phys_base perms cache_mode 3 root (new_pointer base size) s) range
        (map_level-Ends alloc fresh phys_base perms cache_mode 3 root (new_pointer base size) s
          (omega arith) (range-IsPointer base size range))
