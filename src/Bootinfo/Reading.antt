-- ===== src/Bootinfo/Reading.antt =====
-- kernel/bootinfo: a view has the items that a builder took.
use corrosios.Base.{
  ℕ, zero, suc, ◌+◌, ◌-◌, ◌%◌, ◌^◌, ◌≤◌, ◌<◌, ◌≡◌, refl, sym, ap, ◌∙◌, arith, true, false, List, [],
  ◌∷◌, leb, ◌==◌, ◌&&◌, wadd, length, usize_mod,
}
use corrosios.NumUtils.{align_up, align_down}
use corrosios.Bootinfo.{ok, ◌>>=◌, header_size, Buffer, header_bytes, get_bytes}
use corrosios.Bootinfo.Bytes.{le_word_lem}
use corrosios.Bootinfo.Builder.{Builder, finish}
use corrosios.Bootinfo.View.{ItemView, get_header, range, items_from, items}
use corrosios.Bootinfo.Packed.{
  Entry, item_start, item_end, packed_end, Packed, Fits, Fits-le, item_start_bounds,
}
use corrosios.Bootinfo.Building.{
  IsBuffer, IsBuilt, AllEntries, new-IsBuilt, append_all-IsBuilt, build,
}

-- The items as a view has them.
abbrev pub views : ℕ → ℕ → List Entry → List ItemView
views addr off [] = []
views addr off (e ∷ es) =
    record { kind = e.kind; addr = addr + (item_start off + header_size); payload = e.val }
    ∷ views addr (item_end off e) es

get_header-ok :
    (addr kind n : ℕ)
    → addr % 4 ≡ 0
    → kind < 2 ^ 32
    → n < 2 ^ 32
    → get_header addr (header_bytes kind n) ≡ ok (kind, n)
get_header-ok addr kind n aligned is_kind short =
    let at : (addr % 4 == 0) ≡ true = ground (arith, aligned) in
    rw (at, le_word_lem kind is_kind, le_word_lem n short) refl

range-ok :
    (b : Buffer) (from n : ℕ)
    → from + n ≤ b.len
    → range b from (from + n) ≡ ok (get_bytes b.bytes from n)
unfolding range
range-ok b from n room =
    let inside : (leb from (from + n) && leb (from + n) b.len) ≡ true = ground arith in
    let count : from + n - from ≡ n = omega arith in rw (inside, count) refl

items_from-views :
    (b : Buffer) (off rounds : ℕ) (es : List Entry)
    → b.addr % 8 ≡ 0
    → b.len < 2 ^ 31
    → b.addr + b.len < usize_mod
    → off ≤ b.len
    → b.len ≤ off + rounds
    → AllEntries es
    → Fits b.len off es
    → packed_end off es ≡ b.len
    → Packed b.bytes off es
    → items_from rounds b (item_start off) ≡ ok (views b.addr off es)
unfolding items_from
items_from-views b off zero [] aligned small fits le enough valid room end packed =
    let stop : leb b.len (item_start off) ≡ true =
      ground (arith, (item_start_bounds off (omega arith)).1) in
    rw stop refl
items_from-views b off (suc rounds) [] aligned small fits le enough valid room end packed =
    let stop : leb b.len (item_start off) ≡ true =
      ground (arith, (item_start_bounds off (omega arith)).1) in
    rw stop refl
items_from-views b off zero (e ∷ es) aligned small fits le enough valid (room, rest) end packed =
    absurd (omega (arith, (item_start_bounds off (omega arith)).1))
items_from-views b off (suc rounds) (e ∷ es) aligned small fits le enough (is, valid) (room, rest)
      end ((header, payload), packed) =
    let o : ℕ = item_start off in
    let n : ℕ = length e.val in
    let bounds = item_start_bounds off (omega arith) in
    let more : leb b.len o ≡ false = ground arith in
    let p1 : wadd o header_size ≡ o + header_size = omega arith in
    let p2 : wadd (o + header_size) n ≡ item_end off e = omega arith in
    let p3 : wadd b.addr o ≡ b.addr + o = omega arith in
    let p4 : wadd b.addr (o + header_size) ≡ b.addr + (o + header_size) = omega arith in
    let r1 : range b o (o + header_size) ≡ ok (header_bytes e.kind n) =
      range-ok b o header_size (omega arith) ∙ ap ok header in
    let r2 : range b (o + header_size) (item_end off e) ≡ ok e.val =
      range-ok b (o + header_size) n room ∙ ap ok payload in
    let h : get_header (b.addr + o) (header_bytes e.kind n) ≡ ok (e.kind, n) =
      get_header-ok (b.addr + o) e.kind n (omega (arith, aligned, bounds.0)) is.is_kind
        (omega arith) in
    let ih =
      items_from-views b (item_end off e) rounds es aligned small fits room
        (omega (arith, bounds.1)) valid rest end packed in
    rw (more, p1, r1, p3, h, p2, r2, p4, ih) refl

Fits-packed_end :
    (limit off : ℕ) (es : List Entry)
    → limit + 8 ≤ usize_mod
    → off ≤ limit
    → Fits limit off es
    → Fits (packed_end off es) off es
Fits-packed_end limit off [] small le fits = omega arith
Fits-packed_end limit off (e ∷ es) small le (first, fits) = (
  (Fits-le limit (item_end off e) es small first fits).0,
  Fits-packed_end limit (item_end off e) es small first fits,
)

first_start : item_start 0 ≡ 0
unfolding align_up align_down
first_start = refl

finish-ok :
    (start : Buffer) (b : Builder) (es : List Entry)
    → IsBuffer start
    → IsBuilt start b es
    → finish b ≡ ok (record b.buffer { len = packed_end 0 es })
unfolding finish
finish-ok start b es is built =
    let end = (Fits-le start.len 0 es (omega (arith, is.small)) (omega arith) built.fits).1 in
    let inside : leb (packed_end 0 es) b.buffer.len ≡ true = ground (arith, end, built.len) in
    rw (built.off, inside) refl

-- What is built, and what a view has of it.
pub built_items :
    (buffer : Buffer) (es : List Entry)
    → IsBuffer buffer
    → AllEntries es
    → Fits buffer.len 0 es
    → (out : Buffer) × (build buffer es ≡ ok out)
      × (out.addr ≡ buffer.addr)
      × (items out ≡ ok (views buffer.addr 0 es))
unfolding build items
built_items buffer es is valid room =
    let (b0, made, empty) = new-IsBuilt buffer is in
    let (b, run, built) = append_all-IsBuilt buffer b0 [] es is valid room empty in
    let end = (Fits-le buffer.len 0 es (omega (arith, is.small)) (omega arith) room).1 in
    let out : Buffer = record b.buffer { len = packed_end 0 es } in
    let read : items_from (packed_end 0 es) out (item_start 0) ≡ ok (views b.buffer.addr 0 es) =
      items_from-views out 0 (packed_end 0 es) es (rw built.addr is.aligned)
        (omega (arith, end, is.small)) (omega (arith, end, is.fits, built.addr)) (omega arith)
        (omega arith) valid
        (Fits-packed_end buffer.len 0 es (omega (arith, is.small)) (omega arith) room) refl
        built.packed in
    (
      out,
      rw (made, run) (finish-ok buffer b es is built),
      built.addr,
      ap (items_from (packed_end 0 es) out) (sym first_start)
          ∙ read
          ∙ ap (λ a. ok (views a 0 es)) built.addr,
    )

-- A buffer at a multiple of 8, shorter than 2 ^ 31 - 1 bytes, takes items of types whose alignment is 8
-- at most, if the last of them ends in it where each begins at the next multiple of 8: the builder
-- returns no error, and the items of a view of what it returns are the items given, in order, each with
-- its kind and the bytes of its values.
pub items-build :
    (buffer : Buffer) (es : List Entry)
    → IsBuffer buffer
    → AllEntries es
    → Fits buffer.len 0 es
    → (build buffer es >>= items) ≡ ok (views buffer.addr 0 es)
items-build buffer es is valid room =
    let (out, made, at, read) = built_items buffer es is valid room in rw made read
