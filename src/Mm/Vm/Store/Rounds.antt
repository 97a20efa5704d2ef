-- ===== src/Mm/Vm/Store/Rounds.antt =====
-- kernel/kernel/src/mm/vm/aspace/tree.rs: the rounds of the loop of `detach_children`, and what is
-- known of a store of which a slice is changed.
use corrosios.Base.{
  ℕ, zero, suc, ◌+◌, ◌≤◌, ◌<◌, ◌≡◌, ◌≢◌, ◌∙◌, sym, ap, refl, arith, Option, none, some, false, List,
  [], ◌∷◌, ◌==◌, to_nat, count, count-append, ◌⊎◌, inl, inr, ==_refl,
}
use corrosios.Err.{ok}
use corrosios.Mm.Vm.Tree.{SliceChild, Slice}
use corrosios.Mm.Vm.Store.{Store, set_slice, put_children, child_slice, detach_step, detach_loop}
use corrosios.Mm.Vm.Store.Shape.{
  node, Kids, no_kids, mapping_kid, slice_kid, entries, ids, kids_ids, attached, Holds, HoldsAll,
}

-- The rounds that the loop needs for the children of a slice, and `n` rounds behind them.
abbrev pub kids_rounds : Kids → ℕ → ℕ
kids_rounds no_kids n = n
kids_rounds (mapping_kid id start page_count ks) n = suc (kids_rounds ks n)
kids_rounds (slice_kid (node id start page_count below) ks) n =
    suc (kids_rounds below (suc (kids_rounds ks n)))

abbrev pub detached : ℕ → ℕ → Slice
detached start page_count = record { start = start; page_count = page_count; inner = none }

different : (a b : ℕ) → b ≢ a → (a == b) ≡ false
different a b ne = ground arith

pub once : (a b : ℕ) → a ≡ b → to_nat (a == b) ≡ 1
once a b e = ground arith

pub never : (a b : ℕ) → to_nat (a == b) ≡ 0 → b ≢ a
never a b e = ground arith

pub some_or_none : (n : ℕ) → (n ≡ 0) ⊎ (0 < n)
some_or_none zero = inl refl
some_or_none (suc n) = inr (omega arith)

pub set_slice_here : (s : Store) (id : ℕ) (v : Slice) → (set_slice s id v).slices id ≡ v
set_slice_here s id v = rw (==_refl id) refl

pub set_slice_other :
    (s : Store) (id u : ℕ) (v : Slice) → u ≢ id → (set_slice s id v).slices u ≡ s.slices u
set_slice_other s id u v ne = rw (different id u ne) refl

pub count_kids :
    (u c start pages : ℕ) (below ks : Kids)
    → count u (kids_ids (slice_kid (node c start pages below) ks))
      ≡ to_nat (c == u) + (count u (kids_ids below) + count u (kids_ids ks))
unfolding ids
count_kids u c start pages below ks = omega (arith, count-append u (kids_ids below) (kids_ids ks))

pub HoldsAll-same :
    (s s' : Store) (id : ℕ) (ks : Kids)
    → ((u : ℕ) → 0 < count u (kids_ids ks) → s'.slices u ≡ s.slices u)
    → HoldsAll s id ks
    → HoldsAll s' id ks
unfolding Holds ids
HoldsAll-same s s' id no_kids same h = h
HoldsAll-same s s' id (mapping_kid m start pages ks) same h = HoldsAll-same s s' id ks same h
HoldsAll-same s s' id (slice_kid (node c start pages below) ks) same ((held, inner), h) = (
  (
    same c (omega (arith, count_kids c c start pages below ks, once c c refl)) ∙ held,
    HoldsAll-same s s' c below
        (λ u there. same u (omega (arith, count_kids u c start pages below ks, there))) inner,
  ),
  HoldsAll-same s s' id ks
      (λ u there. same u (omega (arith, count_kids u c start pages below ks, there))) h,
)

-- The children of `cur` are gone, and the slices below it are detached; no other slice is changed.
pub record Detaches (s s' : Store) (cur start pages : ℕ) (parent : Option ℕ) (ks : Kids)
    : Type 0 where
  pub here : s'.slices cur ≡ attached parent start pages []
  pub gone :
      (u : ℕ) → 0 < count u (kids_ids ks) → s'.slices u ≡ record (s.slices u) { inner = none }
  pub kept : (u : ℕ) → count u (kids_ids ks) ≡ 0 → u ≢ cur → s'.slices u ≡ s.slices u
  pub mappings_kept : s'.mappings ≡ s.mappings

-- One round of the loop.
pub pop_round :
    (s : Store) (self cur start pages key : ℕ) (parent : Option ℕ) (c : SliceChild)
    (cs : List (ℕ × SliceChild)) (n : ℕ)
    → s.slices cur ≡ attached parent start pages ((key, c) ∷ cs)
    → detach_loop (suc n) self cur s
      ≡ detach_loop n self (child_slice c cur) (set_slice s cur (attached parent start pages cs))
unfolding detach_loop detach_step
pop_round s self cur start pages key parent c cs n held =
    rw held
      (ap (λ v. detach_loop n self (child_slice c cur) (set_slice s cur (put_children v cs))) held)

pub up_round :
    (s : Store) (self cur start pages p : ℕ) (n : ℕ)
    → s.slices cur ≡ attached (some p) start pages []
    → cur ≢ self
    → detach_loop (suc n) self cur s ≡ detach_loop n self p (set_slice s cur (detached start pages))
unfolding detach_loop detach_step
up_round s self cur start pages p n held ne =
    rw (held, different cur self (λ e. ne (sym e)))
      (ap (λ v. detach_loop n self p (set_slice s cur (record v { inner = none }))) held)

pub last_round :
    (s : Store) (self start pages n : ℕ) (parent : Option ℕ)
    → s.slices self ≡ attached parent start pages []
    → detach_loop (suc n) self self s ≡ some (ok (set_slice s self (detached start pages)))
unfolding detach_loop detach_step
last_round s self start pages n parent held =
    rw (held, ==_refl self)
      (ap (λ v. some (ok (set_slice s self (record v { inner = none })))) held)

pub this_one : (a b : ℕ) → 0 < to_nat (a == b) → b ≡ a
this_one a b there = ground arith

-- What the loop did below the child `c`, and then behind it.
pub Detaches-slice :
    (s s2 s4 : Store) (cur start pages c at size : ℕ) (parent : Option ℕ) (below ks : Kids)
    → let rest = attached parent start pages (entries ks) in
      s.slices c ≡ attached (some cur) at size (entries below)
      → ((u : ℕ) → count u (cur ∷ kids_ids (slice_kid (node c at size below) ks)) ≤ 1)
      → Detaches (set_slice s cur rest) s2 c at size (some cur) below
      → Detaches (set_slice s2 c (detached at size)) s4 cur start pages parent ks
      → Detaches s s4 cur start pages parent (slice_kid (node c at size below) ks)
Detaches-slice s s2 s4 cur start pages c at size parent below ks held apart d e =
    let rest : Slice = attached parent start pages (entries ks) in
    let shut : Slice → Slice = λ v. record v { inner = none } in
    let parts : (u : ℕ)
        → to_nat (cur == u) + (to_nat (c == u) + (count u (kids_ids below) + count u (kids_ids ks)))
          ≤ 1 =
      λ (u : ℕ). omega (arith, count_kids u c at size below ks, apart u) in
    let beside : (u : ℕ)
        → 0 < to_nat (c == u) + (count u (kids_ids below) + count u (kids_ids ks))
        → u ≢ cur =
      λ (u : ℕ) there e. omega (arith, parts u, there, once cur u (sym e)) in
    let apart_c : (u : ℕ) → 0 < count u (kids_ids below) + count u (kids_ids ks) → u ≢ c =
      λ (u : ℕ) there e. omega (arith, parts u, there, once c u (sym e)) in
    let outside : (u : ℕ)
        → u ≢ c
        → count u (kids_ids below) ≡ 0
        → u ≢ cur
        → (set_slice s2 c (detached at size)).slices u ≡ s.slices u =
      λ (u : ℕ) ne clear other.
        set_slice_other s2 c u (detached at size) ne
        ∙ d.kept u clear ne
        ∙ set_slice_other s cur u rest other in
    record {
      here = e.here;
      gone = λ u there. elim (some_or_none (count u (kids_ids ks))) [
        | inr later ↦
            e.gone u later
            ∙ ap shut (
                outside u (apart_c u (omega arith)) (omega (arith, parts u))
                  (beside u (omega arith)))
        | inl clear ↦ elim (some_or_none (to_nat (c == u))) [
          | inr itself ↦
              let here : u ≡ c = this_one c u itself in
              rw here (
                e.kept c (omega (arith, parts c, once c c refl))
                  (beside c (omega (arith, once c c refl)))
                ∙ set_slice_here s2 c (detached at size)
                ∙ sym (ap shut held))
          | inl another ↦
              let inside : 0 < count u (kids_ids below) =
                omega (arith, there, count_kids u c at size below ks) in
              e.kept u clear (beside u (omega arith))
              ∙ set_slice_other s2 c u (detached at size) (apart_c u (omega arith))
              ∙ d.gone u inside
              ∙ ap shut (set_slice_other s cur u rest (beside u (omega arith)))
        ]
      ];
      kept = λ u clear ne.
          let zeros : (to_nat (c == u) ≡ 0)
              × (count u (kids_ids below) ≡ 0)
              × (count u (kids_ids ks) ≡ 0) =
            omega (arith, clear, count_kids u c at size below ks) in
          e.kept u zeros.2 ne ∙ outside u (never c u zeros.0) zeros.1 ne;
      mappings_kept = e.mappings_kept ∙ d.mappings_kept;
    }
