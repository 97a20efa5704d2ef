-- ===== src/Mm/Vm/Store/Detaching.antt =====
-- kernel/kernel/src/mm/vm/aspace/tree.rs: how `detach_children` ends, and what it does to the slices.
use corrosios.Base.{
  ℕ, suc, ◌+◌, ◌≤◌, ◌<◌, ◌≡◌, ◌≢◌, ◌∙◌, sym, ap, refl, arith, Option, none, some, ◌∷◌, ◌==◌, to_nat,
  count, inl, inr,
}
use corrosios.Err.{Outcome, ok, err, panic}
use corrosios.Mm.Vm.Tree.{subslice, mapping, Slice}
use corrosios.Mm.Vm.Store.{Store, set_slice, detach_loop, detach_children}
use corrosios.Mm.Vm.Store.Shape.{
  SliceTree, node, Kids, no_kids, mapping_kid, slice_kid, entries, ids, kids_ids, attached, Holds,
  HoldsAll,
}
use corrosios.Mm.Vm.Store.Rounds.{
  kids_rounds, detached, once, never, some_or_none, set_slice_here, set_slice_other, count_kids,
  HoldsAll-same, Detaches, pop_round, up_round, last_round, this_one, Detaches-slice,
}

-- How the loop gets from the children of `cur` to the end of them.
record Emptied (s : Store) (self cur start pages : ℕ) (parent : Option ℕ) (ks : Kids) : Type 0 where
  after : Store
  runs : (n : ℕ) → detach_loop (kids_rounds ks n) self cur s ≡ detach_loop n self cur after
  does : Detaches s after cur start pages parent ks

kids-Emptied :
    (s : Store) (self cur start pages : ℕ) (parent : Option ℕ) (ks : Kids)
    → s.slices cur ≡ attached parent start pages (entries ks)
    → HoldsAll s cur ks
    → ((u : ℕ) → count u (cur ∷ kids_ids ks) ≤ 1)
    → count self (kids_ids ks) ≡ 0
    → Emptied s self cur start pages parent ks
unfolding Holds ids
kids-Emptied s self cur start pages parent no_kids held holds apart out = record {
  after = s;
  runs = λ n. refl;
  does = record {
    here = held;
    gone = λ u there. absurd (omega (arith, there));
    kept = λ u none ne. refl;
    mappings_kept = refl;
  };
}
kids-Emptied s self cur start pages parent (mapping_kid m at size ks) held holds apart out =
    let rest : Slice = attached parent start pages (entries ks) in
    let s1 : Store = set_slice s cur rest in
    let stays : (u : ℕ) → 0 < count u (kids_ids ks) → s1.slices u ≡ s.slices u = λ (u : ℕ) there.
      set_slice_other s cur u rest (λ e. omega (arith, there, apart u, once cur u (sym e))) in
    let ih : Emptied s1 self cur start pages parent ks =
      kids-Emptied s1 self cur start pages parent ks (set_slice_here s cur rest)
        (HoldsAll-same s s1 cur ks stays holds) apart out in
    record {
      after = ih.after;
      runs = λ n.
          pop_round s self cur start pages at parent (mapping m at size) (entries ks)
            (kids_rounds ks n) held
          ∙ ih.runs n;
      does = record {
        here = ih.does.here;
        gone = λ u there.
            ih.does.gone u there ∙ ap (λ (v : Slice). record v { inner = none }) (stays u there);
        kept = λ u clear ne. ih.does.kept u clear ne ∙ set_slice_other s cur u rest ne;
        mappings_kept = ih.does.mappings_kept;
      };
    }
kids-Emptied s self cur start pages parent (slice_kid (node c at size below) ks) held
      ((held_c, inner), later) apart out =
    let rest : Slice = attached parent start pages (entries ks) in
    let s1 : Store = set_slice s cur rest in
    let parts : (u : ℕ)
        → to_nat (cur == u) + (to_nat (c == u) + (count u (kids_ids below) + count u (kids_ids ks)))
          ≤ 1 =
      λ (u : ℕ). omega (arith, count_kids u c at size below ks, apart u) in
    let aside : (to_nat (c == self) ≡ 0)
        × (count self (kids_ids below) ≡ 0)
        × (count self (kids_ids ks) ≡ 0) =
      omega (arith, out, count_kids self c at size below ks) in
    let kept1 : (u : ℕ)
        → 0 < to_nat (c == u) + (count u (kids_ids below) + count u (kids_ids ks))
        → s1.slices u ≡ s.slices u =
      λ (u : ℕ) there.
        set_slice_other s cur u rest (λ e. omega (arith, parts u, there, once cur u (sym e))) in
    let first : Emptied s1 self c at size (some cur) below =
      kids-Emptied s1 self c at size (some cur) below
        (kept1 c (omega (arith, once c c refl)) ∙ held_c)
        (HoldsAll-same s s1 c below (λ u there. kept1 u (omega (arith, there))) inner)
        (λ u. omega (arith, parts u)) aside.1 in
    let s3 : Store = set_slice first.after c (detached at size) in
    let kept3 : (u : ℕ) → u ≢ c → count u (kids_ids below) ≡ 0 → s3.slices u ≡ s1.slices u =
      λ (u : ℕ) ne clear.
        set_slice_other first.after c u (detached at size) ne ∙ first.does.kept u clear ne in
    let second : Emptied s3 self cur start pages parent ks =
      kids-Emptied s3 self cur start pages parent ks
        (kept3 cur (λ e. omega (arith, parts cur, once cur cur refl, once c cur (sym e)))
            (omega (arith, parts cur, once cur cur refl))
          ∙ set_slice_here s cur rest)
        (HoldsAll-same s s3 cur ks
          (λ u there.
            kept3 u (λ e. omega (arith, parts u, there, once c u (sym e)))
              (omega (arith, parts u, there))
            ∙ kept1 u (omega (arith, there)))
          later)
        (λ u. omega (arith, parts u)) aside.2 in
    record {
      after = second.after;
      runs = λ n.
          pop_round s self cur start pages at parent (subslice c at size) (entries ks)
            (kids_rounds below (suc (kids_rounds ks n))) held
          ∙ first.runs (suc (kids_rounds ks n))
          ∙ up_round first.after self c at size cur (kids_rounds ks n) first.does.here
              (λ e. never c self aside.0 (sym e))
          ∙ second.runs n;
      does =
          Detaches-slice s first.after second.after cur start pages c at size parent below ks held_c
            apart first.does second.does;
    }

kids_rounds_add : (ks : Kids) (m n : ℕ) → kids_rounds ks (m + n) ≡ kids_rounds ks m + n
kids_rounds_add no_kids m n = refl
kids_rounds_add (mapping_kid id start pages ks) m n = omega (arith, kids_rounds_add ks m n)
kids_rounds_add (slice_kid (node c start pages below) ks) m n =
    let later : suc (kids_rounds ks (m + n)) ≡ suc (kids_rounds ks m) + n =
      omega (arith, kids_rounds_add ks m n) in
    let all : kids_rounds below (suc (kids_rounds ks (m + n)))
        ≡ kids_rounds below (suc (kids_rounds ks m)) + n =
      ap (kids_rounds below) later ∙ kids_rounds_add below (suc (kids_rounds ks m)) n in
    omega (arith, all)

-- What `detach_children` makes of a tree: every slice of the tree is detached and keeps its place and its
-- size, and no other slice and no mapping is changed.
abbrev pub DetachesTree : Store → SliceTree → Option (Outcome Store) → Type 0
DetachesTree s t (some (ok s')) =
    ((u : ℕ) → 0 < count u (ids t) → s'.slices u ≡ record (s.slices u) { inner = none })
    × ((u : ℕ) → count u (ids t) ≡ 0 → s'.slices u ≡ s.slices u)
    × (s'.mappings ≡ s.mappings)
DetachesTree s t (some (err e)) = ⊥
DetachesTree s t (some panic) = ⊥
DetachesTree s t none = ⊥

-- In a store that has a tree of slices, no slice twice, `detach_children` at the root ends without a
-- panic after a round for each mapping, two for each slice below the root and one for the root. Then
-- every slice of the tree is detached, and no other slice and no mapping is changed.
pub detach_children-DetachesTree :
    (s : Store) (parent : Option ℕ) (id start pages more : ℕ) (ks : Kids)
    → Holds s parent (node id start pages ks)
    → ((u : ℕ) → count u (ids (node id start pages ks)) ≤ 1)
    → DetachesTree s (node id start pages ks) (detach_children (kids_rounds ks 1 + more) s id)
unfolding Holds ids detach_children
detach_children-DetachesTree s parent id start pages more ks (held, holds) apart =
    let clear : count id (kids_ids ks) ≡ 0 = omega (arith, apart id, once id id refl) in
    let run : Emptied s id id start pages parent ks =
      kids-Emptied s id id start pages parent ks held holds apart clear in
    let enough : kids_rounds ks 1 + more ≡ kids_rounds ks (suc more) =
      sym (kids_rounds_add ks 1 more) ∙ ap (kids_rounds ks) (omega arith) in
    let ends : detach_loop (kids_rounds ks 1 + more) id id s
        ≡ some (ok (set_slice run.after id (detached start pages))) =
      ap (λ k. detach_loop k id id s) enough
      ∙ run.runs (suc more)
      ∙ last_round run.after id start pages more parent run.does.here in
    rw ends (
      λ u there. elim (some_or_none (to_nat (id == u))) [
        | inr itself ↦ rw (this_one id u itself) (
            set_slice_here run.after id (detached start pages)
            ∙ sym (ap (λ (v : Slice). record v { inner = none }) held))
        | inl another ↦
            set_slice_other run.after id u (detached start pages) (never id u another)
            ∙ run.does.gone u (omega arith)
      ],
      λ u outside.
          set_slice_other run.after id u (detached start pages)
            (never id u (omega (arith, outside)))
          ∙ run.does.kept u (omega (arith, outside)) (never id u (omega (arith, outside))),
      run.does.mappings_kept,
    )
