-- ===== src/Bootinfo/Building.antt =====
-- kernel/bootinfo/src/builder.rs: what a builder has after it took some items.
use corrosios.Base.{
  ℕ, ◌+◌, ◌-◌, ◌*◌, ◌%◌, ◌^◌, ◌≤◌, ◌<◌, ◌≡◌, refl, sym, ap, ◌∙◌, arith, some, true, false, List, [],
  ◌∷◌, ◌++◌, ltb, leb, ◌==◌, checked_add, length, usize_mod,
}
use corrosios.Bootinfo.{Result, ok, ◌>>=◌, item_align, header_size, Buffer, header_bytes, put_bytes}
use corrosios.Bootinfo.Builder.{Builder, new, checked_mul, reserve, append_slice, finish}
use corrosios.Bootinfo.Bytes.{put_bytes-below}
use corrosios.Bootinfo.Packed.{
  Entry, item_start, item_end, packed_end, Packed, Fits, Fits-le, Fits-snoc, item_start_bounds,
  Packed-same, Packed-snoc, packed_end-snoc, put-IsItem,
}

-- Values of a type that an item may have.
pub record IsEntry (e : Entry) : Type 0 where
  pub aligned : e.elem_align ≤ 8
  pub sized : length e.val ≡ e.elem_size * e.count
  pub is_kind : e.kind < 2 ^ 32

-- A buffer that a builder takes, and that is in the address space.
pub record IsBuffer (b : Buffer) : Type 0 where
  pub aligned : b.addr % 8 ≡ 0
  pub small : b.len < 2 ^ 31 - 1
  pub fits : b.addr + b.len < usize_mod

pub record IsBuilt (start : Buffer) (b : Builder) (es : List Entry) : Type 0 where
  pub addr : b.buffer.addr ≡ start.addr
  pub len : b.buffer.len ≡ start.len
  pub off : b.off ≡ packed_end 0 es
  pub fits : Fits start.len 0 es
  pub packed : Packed b.buffer.bytes 0 es

pub new-IsBuilt :
    (buffer : Buffer) → IsBuffer buffer → (b : Builder) × (new buffer ≡ ok b) × IsBuilt buffer b []
unfolding new
new-IsBuilt buffer is =
    let at : (buffer.addr % item_align == 0) ≡ true = ground (arith, is.aligned) in
    let room : leb (2 ^ 31 - 1) buffer.len ≡ false = ground (arith, is.small) in
    (
      record { buffer = buffer; off = 0 },
      rw (at, room) refl,
      record { addr = refl; len = refl; off = refl; fits = omega arith; packed = tt },
    )

-- The builder after an item.
abbrev put_entry : Builder → Entry → Builder
put_entry b e = record {
  buffer = record b.buffer {
    bytes =
        put_bytes (put_bytes b.buffer.bytes (item_start b.off) (header_bytes e.kind (length e.val)))
          (item_start b.off + header_size) e.val;
  };
  off = item_end b.off e;
}

append_slice-ok :
    (b : Builder) (e : Entry)
    → IsEntry e
    → b.buffer.len < 2 ^ 31 - 1
    → item_end b.off e ≤ b.buffer.len
    → append_slice b e.elem_size e.elem_align e.kind e.count e.val ≡ ok (put_entry b e)
unfolding append_slice reserve
append_slice-ok b e is small room =
    let n = length e.val in
    let total : item_start b.off + (n + header_size) ≡ item_end b.off e = omega arith in
    let align : ltb item_align e.elem_align ≡ false = ground (arith, is.aligned) in
    let short : ltb n (2 ^ 64) ≡ true = ground arith in
    let mul : checked_mul e.elem_size e.count ≡ some n = rw (sym is.sized) (rw short refl) in
    let size : checked_add n header_size ≡ some (n + header_size) = ground arith in
    let low : ltb (item_start b.off + (n + header_size)) (2 ^ 64) ≡ true = ground arith in
    let next : checked_add (item_start b.off) (n + header_size) ≡ some (item_end b.off e) =
      rw (low, total) refl in
    let inside : ltb b.buffer.len (item_end b.off e) ≡ false = ground arith in
    let word : n % 2 ^ 32 ≡ n = omega arith in rw (align, mul, size, next, inside, word) refl

append_slice-IsBuilt :
    (start : Buffer) (b : Builder) (es : List Entry) (e : Entry)
    → IsBuffer start
    → IsEntry e
    → item_end (packed_end 0 es) e ≤ start.len
    → IsBuilt start b es
    → IsBuilt start (put_entry b e) (es ++ (e ∷ []))
append_slice-IsBuilt start b es e is valid room built =
    let limit : start.len + 8 ≤ usize_mod = omega (arith, is.small) in
    let end =
      item_start_bounds (packed_end 0 es)
        (omega (arith, Fits-le start.len 0 es limit (omega arith) built.fits)) in
    let header : List ℕ = header_bytes e.kind (length e.val) in
    let f : ℕ → ℕ = b.buffer.bytes in
    let o : ℕ = item_start (packed_end 0 es) in
    let g : ℕ → ℕ = put_bytes (put_bytes f o header) (o + header_size) e.val in
    let kept : (i : ℕ) → i < packed_end 0 es → g i ≡ f i = λ (i : ℕ) lt.
      put_bytes-below (put_bytes f o header) (o + header_size) i e.val (omega (arith, end.1))
      ∙ put_bytes-below f o i header (omega (arith, end.1)) in
    let packed : Packed g 0 (es ++ (e ∷ [])) =
      Packed-snoc g 0 es e
        (Packed-same f g start.len 0 es limit (omega arith) built.fits kept built.packed)
        (put-IsItem f (packed_end 0 es) e) in
    record {
      addr = built.addr;
      len = built.len;
      off = rw built.off (sym (packed_end-snoc 0 es e));
      fits = Fits-snoc start.len 0 es e built.fits room;
      packed = rw built.off packed;
    }

-- The items of a list, one after the other.
unfoldable pub append_all : Builder → List Entry → Result Builder
append_all b [] = ok b
append_all b (e ∷ es) =
    append_slice b e.elem_size e.elem_align e.kind e.count e.val >>= λ b'. append_all b' es

abbrev pub AllEntries : List Entry → Type 0
AllEntries [] = Unit {0}
AllEntries (e ∷ es) = IsEntry e × AllEntries es

append_later :
    (xs : List Entry) (y : Entry) (ys : List Entry) → (xs ++ (y ∷ [])) ++ ys ≡ xs ++ (y ∷ ys)
append_later [] y ys = refl
append_later (x ∷ xs) y ys = ap (λ l. x ∷ l) (append_later xs y ys)

append_nil : (xs : List Entry) → xs ++ [] ≡ xs
append_nil [] = refl
append_nil (x ∷ xs) = ap (λ l. x ∷ l) (append_nil xs)

pub append_all-IsBuilt :
    (start : Buffer) (b : Builder) (es later : List Entry)
    → IsBuffer start
    → AllEntries later
    → Fits start.len (packed_end 0 es) later
    → IsBuilt start b es
    → (b' : Builder) × (append_all b later ≡ ok b') × IsBuilt start b' (es ++ later)
unfolding append_all
append_all-IsBuilt start b es [] is valid fits built = (b, refl, rw (append_nil es) built)
append_all-IsBuilt start b es (e ∷ later) is (first, valid) (room, fits) built =
    let step =
      append_slice-ok b e first (omega (arith, built.len, is.small))
        (rw (built.off, built.len) room) in
    let built' = append_slice-IsBuilt start b es e is first room built in
    let (b', run, all) =
      append_all-IsBuilt start (put_entry b e) (es ++ (e ∷ [])) later is valid
        (rw (packed_end-snoc 0 es e) fits) built' in
    (b', rw step run, rw (sym (append_later es e later)) all)

-- The whole use of a builder.
unfoldable pub build : Buffer → List Entry → Result Buffer
build buffer es = new buffer >>= λ b. append_all b es >>= finish
