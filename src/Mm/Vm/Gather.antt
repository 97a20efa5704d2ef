-- ===== src/Mm/Vm/Gather.antt =====
-- kernel/kernel/src/mm/vm/aspace.rs: `PendingInvalidationGather`, the pages to flush from the TLB, of
-- which at most ten are kept one by one.
use corrosios.Base.{
  ℕ, suc, ◌+◌, ◌≤◌, ◌≡◌, refl, ap, ◌∙◌, arith, true, false, List, [], ◌∷◌, ◌++◌, length, ltb, leb,
  if◌then◌else◌, Bool-cases, inl, inr, ltb→lt,
}

abbrev max_page_invalidations : ℕ
max_page_invalidations = 10

pub data PendingInvalidationGather : Type 0 where
  specific : List ℕ → PendingInvalidationGather
  all : PendingInvalidationGather

-- A full array refuses the page.
unfoldable pub add_tlb_flush : PendingInvalidationGather → ℕ → PendingInvalidationGather
add_tlb_flush (specific pages) vpn =
    if ltb (length pages) max_page_invalidations then specific (pages ++ (vpn ∷ [])) else all
add_tlb_flush all vpn = all

-- The calls of `add_tlb_flush` for some pages, one after the other.
unfoldable gather : PendingInvalidationGather → List ℕ → PendingInvalidationGather
gather g [] = g
gather g (vpn ∷ vpns) = gather (add_tlb_flush g vpn) vpns

gather-all : (vpns : List ℕ) → gather all vpns ≡ all
unfolding gather add_tlb_flush
gather-all [] = refl
gather-all (vpn ∷ vpns) = gather-all vpns

length-snoc : (pages : List ℕ) (vpn : ℕ) → length (pages ++ (vpn ∷ [])) ≡ length pages + 1
length-snoc [] vpn = refl
length-snoc (p ∷ pages) vpn = omega (arith, length-snoc pages vpn)

append-nil : (pages : List ℕ) → pages ++ [] ≡ pages
append-nil [] = refl
append-nil (p ∷ pages) = ap (λ l. p ∷ l) (append-nil pages)

append-later :
    (pages : List ℕ) (vpn : ℕ) (vpns : List ℕ)
    → (pages ++ (vpn ∷ [])) ++ vpns ≡ pages ++ (vpn ∷ vpns)
append-later [] vpn vpns = refl
append-later (p ∷ pages) vpn vpns = ap (λ l. p ∷ l) (append-later pages vpn vpns)

-- Where at most ten pages are gathered already, what is gathered after further ones is all the pages
-- in order if they are at most ten together, and a flush of the whole TLB if they are more.
gather-exact :
    (pages vpns : List ℕ)
    → length pages ≤ 10
    → gather (specific pages) vpns
      ≡ (if leb (length pages + length vpns) 10 then specific (pages ++ vpns) else all)
unfolding gather add_tlb_flush
gather-exact pages [] room =
    let fits : leb (length pages + 0) 10 ≡ true = ground arith in rw (fits, append-nil pages) refl
gather-exact pages (vpn ∷ vpns) room = elim (Bool-cases (ltb (length pages) 10)) [
  | inl more ↦
      let count : length (pages ++ (vpn ∷ [])) + length vpns ≡ length pages + suc (length vpns) =
        omega (arith, length-snoc pages vpn) in
      let rest =
        gather-exact (pages ++ (vpn ∷ [])) vpns
          (omega (arith, length-snoc pages vpn, ltb→lt _ _ more)) in
      rw more (rest ∙ rw (count, append-later pages vpn vpns) refl)
  | inr full ↦
      let over : leb (length pages + length (vpn ∷ vpns)) 10 ≡ false = ground arith in
      rw (full, over) (gather-all vpns)
]
