-- ===== src/Bootinfo/Packed.antt =====
-- kernel/bootinfo: the items that are packed in the bytes of a buffer.
use corrosios.Base.{
  ℕ, ◌+◌, ◌%◌, ◌≤◌, ◌<◌, ◌≡◌, refl, ◌∙◌, arith, List, [], ◌∷◌, ◌++◌, length, usize_mod,
}
use corrosios.NumUtils.{align_up}
use corrosios.NumUtils.Rounding.{align_up-least}
use corrosios.Bootinfo.{item_align, header_size, header_bytes, put_bytes, get_bytes}
use corrosios.Bootinfo.Bytes.{put_bytes-below, get_bytes-same, get_bytes-put_bytes}

-- An item as the loader gives it: `count` values of a type, by their bytes.
pub record Entry : Type 0 where
  pub elem_size : ℕ
  pub elem_align : ℕ
  pub kind : ℕ
  pub count : ℕ
  pub val : List ℕ

-- Where an item behind `off` begins, and where it ends.
abbrev pub item_start : ℕ → ℕ
item_start off = align_up off item_align

abbrev pub item_end : ℕ → Entry → ℕ
item_end off e = item_start off + header_size + length e.val

-- Where the items behind `off` end.
abbrev pub packed_end : ℕ → List Entry → ℕ
packed_end off [] = off
packed_end off (e ∷ es) = packed_end (item_end off e) es

abbrev IsItem : (ℕ → ℕ) → ℕ → Entry → Type 0
IsItem f off e =
    (get_bytes f (item_start off) header_size ≡ header_bytes e.kind (length e.val))
    × (get_bytes f (item_start off + header_size) (length e.val) ≡ e.val)

-- The items stand one after the other from `off` on.
abbrev pub Packed : (ℕ → ℕ) → ℕ → List Entry → Type 0
Packed f off [] = Unit {0}
Packed f off (e ∷ es) = IsItem f off e × Packed f (item_end off e) es

pub item_start_bounds :
    (off : ℕ)
    → off + 8 ≤ usize_mod
    → (item_start off % 8 ≡ 0) × (off ≤ item_start off) × (item_start off < off + 8)
item_start_bounds off small =
    let (whole, least, near, rest) = align_up-least off 8 (omega arith) small in
    (whole, least, near)

-- The items end at the limit or before it.
abbrev pub Fits : ℕ → ℕ → List Entry → Type 0
Fits limit off [] = off ≤ limit
Fits limit off (e ∷ es) = (item_end off e ≤ limit) × Fits limit (item_end off e) es

pub Fits-le :
    (limit off : ℕ) (es : List Entry)
    → limit + 8 ≤ usize_mod
    → off ≤ limit
    → Fits limit off es
    → (off ≤ packed_end off es) × (packed_end off es ≤ limit)
Fits-le limit off [] small le fits = (omega arith, fits)
Fits-le limit off (e ∷ es) small le (first, fits) =
    let start = (item_start_bounds off (omega arith)).1 in
    let rest = Fits-le limit (item_end off e) es small first fits in
    (omega (arith, start, rest.0), rest.1)

pub Fits-snoc :
    (limit off : ℕ) (es : List Entry) (e : Entry)
    → Fits limit off es
    → item_end (packed_end off es) e ≤ limit
    → Fits limit off (es ++ (e ∷ []))
Fits-snoc limit off [] e fits last = (last, last)
Fits-snoc limit off (x ∷ es) e (first, fits) last =
    (first, Fits-snoc limit (item_end off x) es e fits last)

-- Bytes from the end on do not matter.
pub Packed-same :
    (f g : ℕ → ℕ) (limit off : ℕ) (es : List Entry)
    → limit + 8 ≤ usize_mod
    → off ≤ limit
    → Fits limit off es
    → ((i : ℕ) → i < packed_end off es → g i ≡ f i)
    → Packed f off es
    → Packed g off es
Packed-same f g limit off [] small le fits same h = tt
Packed-same f g limit off (e ∷ es) small le (first, fits) same ((header, payload), h) =
    let end = (Fits-le limit (item_end off e) es small first fits).0 in
    (
      (
        get_bytes-same f g (item_start off) header_size
              (λ i from to. same i (omega (arith, end, to)))
            ∙ header,
        get_bytes-same f g (item_start off + header_size) (length e.val)
              (λ i from to. same i (omega (arith, end, to)))
            ∙ payload,
      ),
      Packed-same f g limit (item_end off e) es small first fits same h,
    )

pub Packed-snoc :
    (f : ℕ → ℕ) (off : ℕ) (es : List Entry) (e : Entry)
    → Packed f off es
    → IsItem f (packed_end off es) e
    → Packed f off (es ++ (e ∷ []))
Packed-snoc f off [] e h item = (item, tt)
Packed-snoc f off (x ∷ es) e (first, h) item = (first, Packed-snoc f (item_end off x) es e h item)

pub packed_end-snoc :
    (off : ℕ) (es : List Entry) (e : Entry)
    → packed_end off (es ++ (e ∷ [])) ≡ item_end (packed_end off es) e
packed_end-snoc off [] e = refl
packed_end-snoc off (x ∷ es) e = packed_end-snoc (item_end off x) es e

-- What writing an item leaves.
pub put-IsItem :
    (f : ℕ → ℕ) (off : ℕ) (e : Entry)
    → IsItem
        (put_bytes
          (put_bytes f (item_start off) (header_bytes e.kind (length e.val)))
          (item_start off + header_size)
          e.val)
        off
        e
put-IsItem f off e =
    let header : List ℕ = header_bytes e.kind (length e.val) in
    let g : ℕ → ℕ = put_bytes f (item_start off) header in
    (
      get_bytes-same g (put_bytes g (item_start off + header_size) e.val) (item_start off)
            header_size (λ i le lt. put_bytes-below g (item_start off + header_size) i e.val lt)
          ∙ get_bytes-put_bytes f (item_start off) header,
      get_bytes-put_bytes g (item_start off + header_size) e.val,
    )
