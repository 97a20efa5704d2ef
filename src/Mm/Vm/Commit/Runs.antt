-- ===== src/Mm/Vm/Commit/Runs.antt =====
-- kernel/kernel/src/mm/vm/aspace.rs: the runs of `do_commit` cover the pages of the range, in order.
use corrosios.Base.{
  ℕ, zero, suc, ◌+◌, ◌-◌, ◌≤◌, ◌<◌, ◌≡◌, refl, sym, subst, ap, ◌∙◌, arith, Option, none, some, List,
  [], ◌∷◌, ◌++◌, ltb, ◌==◌, ◌&&◌, usize_mod, wadd, Bool-cases, Option-cases, inl, inr,
}
use corrosios.Err.{Outcome, ok, err, panic, ok_or, invalid_state}
use corrosios.Mm.Vm.Commit.{
  perms_for_prot, Mapping, CommitRange, MappingRun, and_then, on_ok, map_left, extend, commit_loop,
  do_commit,
}
use corrosios.Mm.Types.{Protection, PageTablePerms, CacheMode}

-- The offsets and frames of a run.
unfoldable pub run_pages : ℕ → ℕ → ℕ → List (ℕ × ℕ)
run_pages off pfn zero = []
run_pages off pfn (suc size) = (off, pfn) ∷ run_pages (off + 1) (pfn + 1) size

abbrev pub pages_of : List MappingRun → List (ℕ × ℕ)
pages_of [] = []
pages_of (run ∷ rs) = run_pages run.base_off run.base_pfn run.size ++ pages_of rs

-- The frames `pfns offset`, for `n` offsets.
unfoldable pub each_page : (ℕ → ℕ) → ℕ → ℕ → List (ℕ × ℕ)
each_page pfns off zero = []
each_page pfns off (suc n) = (off, pfns off) ∷ each_page pfns (off + 1) n

module _ {ℓ} {S : Type ℓ} where
  -- Mapping the runs one after the other, up to the first that fails.
  unfoldable pub map_runs :
      (MappingRun → S → S × Outcome (Unit {0})) → List MappingRun → S → S × Outcome (Unit {0})
  map_runs do_map [] s = (s, ok tt)
  map_runs do_map (run ∷ rs) s = and_then (do_map run s) (map_runs do_map rs)

  and_then-ext :
      (p : S × Outcome (Unit {0})) (k k' : S → S × Outcome (Unit {0}))
      → ((s : S) → k s ≡ k' s)
      → and_then p k ≡ and_then p k'
  and_then-ext (s, ok u) k k' e = e s
  and_then-ext (s, err x) k k' e = refl
  and_then-ext (s, panic) k k' e = refl

  and_then-ok : (p : S × Outcome (Unit {0})) → p ≡ and_then p (λ s. (s, ok tt))
  and_then-ok (s, ok tt) = refl
  and_then-ok (s, err x) = refl
  and_then-ok (s, panic) = refl

++-assoc : {A : Type 0} (xs ys zs : List A) → (xs ++ ys) ++ zs ≡ xs ++ (ys ++ zs)
++-assoc [] ys zs = refl
++-assoc (x ∷ xs) ys zs = ap (λ l. x ∷ l) (++-assoc xs ys zs)

run_pages-snoc :
    (off pfn size : ℕ)
    → run_pages off pfn (suc size) ≡ run_pages off pfn size ++ ((off + size, pfn + size) ∷ [])
unfolding run_pages
run_pages-snoc off pfn zero =
    let a : off + 0 ≡ off = omega arith in let b : pfn + 0 ≡ pfn = omega arith in rw (a, b) refl
run_pages-snoc off pfn (suc size) =
    let a : off + suc size ≡ off + 1 + size = omega arith in
    let b : pfn + suc size ≡ pfn + 1 + size = omega arith in
    rw (a, b) (ap (λ l. (off, pfn) ∷ l) (run_pages-snoc (off + 1) (pfn + 1) size))

abbrev left_pages : Option MappingRun → List (ℕ × ℕ)
left_pages none = []
left_pages (some run) = run_pages run.base_off run.base_pfn run.size

abbrev left_runs : Option MappingRun → List MappingRun
left_runs none = []
left_runs (some run) = run ∷ []

left_runs-pages :
    (cur : Option MappingRun) (rs : List MappingRun)
    → pages_of (left_runs cur ++ rs) ≡ left_pages cur ++ pages_of rs
left_runs-pages none rs = refl
left_runs-pages (some run) rs = refl

left_runs-mapped {ℓ} :
    {S : Type ℓ} (do_map : MappingRun → S → S × Outcome (Unit {0})) (cur : Option MappingRun)
    (rs : List MappingRun) (s : S)
    → and_then (map_left do_map cur s) (map_runs do_map rs)
      ≡ map_runs do_map (left_runs cur ++ rs) s
unfolding map_runs
left_runs-mapped do_map none rs s = refl
left_runs-mapped do_map (some run) rs s = refl

-- The run ends before the offset.
abbrev pub Ends : Option MappingRun → ℕ → Type 0
Ends none offset = Unit {0}
Ends (some run) offset = run.base_off + run.size ≡ offset

-- Extending a run adds the page at the offset.
extend-pages :
    (cur : Option MappingRun) (run : MappingRun) (offset pfn : ℕ)
    → Ends cur offset
    → extend cur pfn ≡ some run
    → Ends (some run) (offset + 1)
      × (left_pages (some run) ≡ left_pages cur ++ ((offset, pfn) ∷ []))
extend-pages none run offset pfn ends e = absurd (ground arith)
extend-pages (some old) run offset pfn ends e =
    elim (Bool-cases
      (ltb (old.base_pfn + old.size) usize_mod && (old.base_pfn + old.size == pfn))) [
        | inr no_run ↦ absurd (ground arith)
        | inl same ↦
            let e' : some (record old { size = old.size + 1 }) ≡ some run = rw same at e in
            let f : record old { size = old.size + 1 } ≡ run = cc in
            let at_pfn : old.base_pfn + old.size ≡ pfn = ground arith in
            let grown : old.size + 1 ≡ suc old.size = omega arith in
            rw (← f, grown)
              (
                omega arith,
                run_pages-snoc old.base_off old.base_pfn old.size ∙ rw (ends, at_pfn) refl,
              )
      ]

module _ {ℓ} {S : Type ℓ} (provide : ℕ → Outcome ℕ)
    (do_map : MappingRun → S → S × Outcome (Unit {0})) (pfns : ℕ → ℕ) where
  -- The loop maps runs whose pages are those of the current run and then those of the offsets.
  commit_loop-runs :
      (n offset : ℕ) (cur : Option MappingRun)
      → ((o : ℕ) → offset ≤ o → o < offset + n → provide o ≡ ok (pfns o))
      → Ends cur offset
      → (rs : List MappingRun) × ((s : S)
          → commit_loop provide do_map n offset cur s ≡ map_runs do_map rs s)
        × (pages_of rs ≡ left_pages cur ++ each_page pfns offset n)
  unfolding commit_loop map_runs each_page run_pages
  commit_loop-runs zero offset none given ends = ([], (λ s. refl), refl)
  commit_loop-runs zero offset (some run) given ends =
      (run ∷ [], (λ s. and_then-ok (do_map run s)), refl)
  commit_loop-runs (suc n) offset cur given ends =
      let now : provide offset ≡ ok (pfns offset) = given offset (omega arith) (omega arith) in
      elim (Option-cases (extend cur (pfns offset))) [
        | inr (run, e) ↦
            let (ends', more) = extend-pages cur run offset (pfns offset) ends e in
            let (rs, same, pages) =
              commit_loop-runs n (offset + 1) (some run)
                (λ o a b. given o (omega arith) (omega arith)) ends' in
            (
              rs,
              (λ s. rw (now, e) (same s)),
              pages
                  ∙ (ap (λ l. l ++ each_page pfns (offset + 1) n) more
                      ∙ ++-assoc (left_pages cur) ((offset, pfns offset) ∷ [])
                          (each_page pfns (offset + 1) n)),
            )
        | inl e ↦
            let new : MappingRun = record { base_off = offset; base_pfn = pfns offset; size = 1 } in
            let (rs, same, pages) =
              commit_loop-runs n (offset + 1) (some new)
                (λ o a b. given o (omega arith) (omega arith)) refl in
            (
              left_runs cur ++ rs,
              (λ s.
                  rw (now, e)
                    (and_then-ext (map_left do_map cur s)
                        (commit_loop provide do_map n (offset + 1) (some new)) (map_runs do_map rs)
                        same
                      ∙ left_runs-mapped do_map cur rs s)),
              left_runs-pages cur rs ∙ ap (λ l. left_pages cur ++ l) pages,
            )
      ]

module _ {ℓ} {S : Type ℓ}
    (pt_map : ℕ → ℕ → ℕ → PageTablePerms → CacheMode → S → S × Outcome (Unit {0}))
    (base_perms : PageTablePerms) where
  -- What `do_map` does with a run.
  abbrev pub map_run : Mapping → Protection → MappingRun → S → S × Outcome (Unit {0})
  map_run m prot run =
      pt_map (wadd m.start run.base_off) run.size run.base_pfn (perms_for_prot base_perms prot)
        m.cache_mode

  -- In an attached mapping, for a range that does not wrap around and whose pages the object provides,
  -- `do_commit` maps a list of runs one after the other, up to the first that the page table refuses,
  -- with the permissions of the mapping; and the pages of the runs are the provided frames at the
  -- offsets of the range, each once and in order.
  pub do_commit-runs :
      (range : CommitRange) (prot : Protection) (pfns : ℕ → ℕ)
      → range.mapping.prot ≡ some prot
      → range.offset + range.page_count < usize_mod
      → ((o : ℕ)
          → range.offset ≤ o
          → o < range.offset + range.page_count
          → range.mapping.provide_page (wadd o range.mapping.object_offset) range.commit_type
            ≡ ok (pfns o))
      → (rs : List MappingRun) × ((s : S)
          → do_commit pt_map base_perms (ok range) s ≡ map_runs (map_run range.mapping prot) rs s)
        × (pages_of rs ≡ each_page pfns range.offset range.page_count)
  unfolding do_commit
  do_commit-runs range prot pfns attached fits given =
      let count : wadd range.offset range.page_count - range.offset ≡ range.page_count =
        omega arith in
      let (rs, same, pages) =
        commit_loop-runs
          (λ o. range.mapping.provide_page (wadd o range.mapping.object_offset) range.commit_type)
          (map_run range.mapping prot) pfns range.page_count range.offset none given tt in
      (
        rs,
        (λ s.
            subst
              (λ p.
                on_ok (ok_or p invalid_state) s (λ q.
                  commit_loop
                    (λ o.
                      range.mapping.provide_page (wadd o range.mapping.object_offset)
                        range.commit_type)
                    (map_run range.mapping q) (wadd range.offset range.page_count - range.offset)
                    range.offset none s)
                ≡ map_runs (map_run range.mapping prot) rs s)
              (sym attached) (rw count (same s))),
        pages,
      )
