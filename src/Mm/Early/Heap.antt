-- ===== src/Mm/Early/Heap.antt =====
-- kernel/kernel/src/mm/early.rs: the boot heap hands out aligned, disjoint ranges of its range, and
-- panics only where the request does not fit.
use corrosios.Base.{
  ℕ, ◌+◌, ◌*◌, ◌%◌, ◌≤◌, ◌<◌, ◌≡◌, arith, Option, none, some, true, false, ltb, ◌||◌, usize_mod,
  wadd, wsub, Bool-cases, inl, inr, ap,
}
use corrosios.NumUtils.{align_up}
use corrosios.NumUtils.Rounding.{align_up-least}
use corrosios.Mm.Early.{BootHeap, Layout, alloc_phys}

-- The free part of a heap lies in its range, and addresses fit a word.
pub record IsHeap (h : BootHeap) : Type 0 where
  pub low : h.base ≤ h.cur
  pub high : h.cur ≤ h.end
  pub small : h.end < usize_mod

-- A layout has a positive alignment, which cannot carry the rounding of an address of the heap
-- beyond a word.
pub record IsLayout (h : BootHeap) (layout : Layout) : Type 0 where
  pub positive : 0 < layout.align
  pub fits : h.end + layout.align ≤ usize_mod
  pub sized : layout.size < usize_mod

-- The answer to a request: an aligned range behind what was allocated and before the heap's end, with
-- the heap advanced to the end of the range; or the panic, where every aligned range of the size at
-- or behind the current position ends beyond the heap.
abbrev pub Answers : BootHeap → Layout → Option (ℕ × BootHeap) → Type 0
Answers h layout (some (base, h')) =
    (base % layout.align ≡ 0)
    × (h.cur ≤ base)
    × (base + layout.size ≤ h.end)
    × (base < h.cur + layout.align)
    × (h' ≡ record h { cur = base + layout.size })
    × IsHeap h'
Answers h layout none = (q : ℕ) → h.cur ≤ q * layout.align → h.end < q * layout.align + layout.size

exhausted :
    (b end size : ℕ)
    → (ltb end b || ltb (wsub end b) size) ≡ true
    → end < usize_mod
    → (q : ℕ) → b ≤ q
    → end < q + size
exhausted b end size full small q le = ground arith

room_lem :
    (b end size : ℕ)
    → (ltb end b || ltb (wsub end b) size) ≡ false
    → end < usize_mod
    → b + size ≤ end
room_lem b end size room small = ground arith

-- For a heap in good order every request is answered as above.
pub alloc_phys-Answers :
    (h : BootHeap) (layout : Layout)
    → IsHeap h
    → IsLayout h layout
    → Answers h layout (alloc_phys h layout)
unfolding alloc_phys
alloc_phys-Answers h layout inv lay =
    let (whole, above, near, least) =
      align_up-least h.cur layout.align lay.positive (omega (arith, inv.high, lay.fits)) in
    let b = align_up h.cur layout.align in
    elim (Bool-cases (ltb h.end b || ltb (wsub h.end b) layout.size)) [
      | inl full ↦
          rw full
            (λ q le. exhausted b h.end layout.size full inv.small (q * layout.align) (least q le))
      | inr room ↦
          let fits : b + layout.size ≤ h.end = room_lem b h.end layout.size room inv.small in
          let e : wadd b layout.size ≡ b + layout.size = omega (arith, inv.small) in
          rw room (
            whole,
            above,
            fits,
            near,
            ap (λ (t : ℕ). record h { cur = t }) e,
            record { low = rw e (omega (arith, inv.low)); high = rw e fits; small = inv.small },
          )
    ]
