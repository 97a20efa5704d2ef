-- ===== src/Bootparse/Parsing.antt =====
-- kernel/kernel/src/bootparse.rs: what the kernel reads from the boot information that was built.
use corrosios.Base.{
  ℕ, ◌+◌, ◌%◌, ◌≤◌, ◌≡◌, refl, ap, ◌∙◌, arith, Option, none, some, true, false, List, [], ◌∷◌, ◌==◌,
  if◌then◌else◌, length, usize_mod, ◌⊎◌, inl, inr, Bool-cases, Option-cases,
}
use corrosios.Bootinfo.{
  ok, ◌>>=◌, item_align, header_size, Buffer, efi_system_table, memory_map, framebuffer,
  command_line,
}
use corrosios.Bootinfo.View.{get_slice, get}
use corrosios.Bootinfo.Packed.{Entry, item_start, item_end, Fits, item_start_bounds}
use corrosios.Bootinfo.Building.{IsBuffer, AllEntries, build}
use corrosios.Bootinfo.Reading.{views, built_items}
use corrosios.Bootparse.{Found, nothing, parse_item, parse_items, or_empty, parse}

-- The bytes of the last item of a kind, if there is one.
abbrev last_of : ℕ → List Entry → Option (List ℕ)
last_of kind [] = none
last_of kind (e ∷ es) =
    let later = last_of kind es in
    elim later [ some v ↦ some v | none ↦ if e.kind == kind then some e.val else none ]

-- The bytes if they are as many as the type has.
abbrev pub sized : ℕ → Option (List ℕ) → Option (List ℕ)
sized n none = none
sized n (some v) = if n == length v then some v else none

-- Every memory map consists of whole ranges.
abbrev WholeMaps : List Entry → Type 0
WholeMaps [] = Unit {0}
WholeMaps (e ∷ es) = ((e.kind ≡ memory_map) → length e.val % 24 ≡ 0) × WholeMaps es

-- What the loop has found, where it had `d` before.
abbrev over : Option (List ℕ) → Option (List ℕ) → Option (List ℕ)
over none d = d
over (some v) d = some v

abbrev over_sized : ℕ → Option (List ℕ) → Option (List ℕ) → Option (List ℕ)
over_sized n none d = d
over_sized n (some v) d = sized n (some v)

abbrev found : Found → List Entry → Found
found d es = record {
  found_map = over (last_of memory_map es) d.found_map;
  found_table = over_sized 8 (last_of efi_system_table es) d.found_table;
  found_info = over_sized 32 (last_of framebuffer es) d.found_info;
  found_line = over (last_of command_line es) d.found_line;
}

-- One item.
abbrev found_one : Found → Entry → Found
found_one d e = found d (e ∷ [])

-- The kind of an item that the kernel reads, or another.
spot :
    (k : ℕ)
    → (k ≡ 2)
      ⊎ ((k ≡ 1)
          ⊎ ((k ≡ 3)
              ⊎ ((k ≡ 4)
                  ⊎ (((k == 2) ≡ false)
                      × ((k == 1) ≡ false)
                      × ((k == 3) ≡ false)
                      × ((k == 4) ≡ false)))))
spot k = ground arith

parse_item-found :
    (d : Found) (e : Entry) (addr : ℕ)
    → addr % 8 ≡ 0
    → ((e.kind ≡ memory_map) → length e.val % 24 ≡ 0)
    → parse_item d (record { kind = e.kind; addr = addr; payload = e.val }) ≡ ok (found_one d e)
unfolding parse_item get_slice get
parse_item-found d e addr aligned whole =
    let n : ℕ = length e.val in
    let at : (addr % 8 == 0) ≡ true = ground (arith, aligned) in
    let by_one : (n % 1 == 0) ≡ true = ground arith in
    let at_one : (addr % 1 == 0) ≡ true = ground arith in
    elim (spot e.kind) [
      | inl is_map ↦
          let ranges : (n % 24 == 0) ≡ true = ground (arith, whole is_map) in
          rw (is_map, ranges, at) refl
      | inr (inl is_table) ↦ elim (Bool-cases (8 == n)) [
        | inl fits ↦ rw (is_table, fits, at) refl
        | inr off ↦ rw (is_table, off) refl
      ]
      | inr (inr (inl is_info)) ↦ elim (Bool-cases (32 == n)) [
        | inl fits ↦ rw (is_info, fits, at) refl
        | inr off ↦ rw (is_info, off) refl
      ]
      | inr (inr (inr (inl is_line))) ↦ rw (is_line, by_one, at_one) refl
      | inr (inr (inr (inr (n2, n1, n3, n4)))) ↦ rw (n2, n1, n3, n4) refl
    ]

over_later :
    (kind : ℕ) (e : Entry) (es : List Entry) (d : Option (List ℕ))
    → over (last_of kind es) (over (last_of kind (e ∷ [])) d) ≡ over (last_of kind (e ∷ es)) d
over_later kind e es d = elim (Option-cases (last_of kind es)) [
  | inl absent ↦ rw absent refl
  | inr (v, there) ↦ rw there refl
]

over_sized_later :
    (n kind : ℕ) (e : Entry) (es : List Entry) (d : Option (List ℕ))
    → over_sized n (last_of kind es) (over_sized n (last_of kind (e ∷ [])) d)
      ≡ over_sized n (last_of kind (e ∷ es)) d
over_sized_later n kind e es d = elim (Option-cases (last_of kind es)) [
  | inl absent ↦ rw absent refl
  | inr (v, there) ↦ rw there refl
]

found-later :
    (d : Found) (e : Entry) (es : List Entry) → found (found_one d e) es ≡ found d (e ∷ es)
found-later d e es =
    rw
      (
        over_later memory_map e es d.found_map,
        over_sized_later 8 efi_system_table e es d.found_table,
        over_sized_later 32 framebuffer e es d.found_info,
        over_later command_line e es d.found_line,
      )
      refl

parse_items-found :
    (d : Found) (addr len off : ℕ) (es : List Entry)
    → addr % 8 ≡ 0
    → len + 8 ≤ usize_mod
    → off ≤ len
    → Fits len off es
    → WholeMaps es
    → parse_items d (views addr off es) ≡ ok (found d es)
unfolding parse_items
parse_items-found d addr len off [] aligned small le fits whole = refl
parse_items-found d addr len off (e ∷ es) aligned small le (room, fits) (first, whole) =
    let start = (item_start_bounds off (omega arith)).0 in
    let one =
      parse_item-found d e (addr + (item_start off + header_size)) (omega (arith, aligned, start))
        first in
    rw one
      (parse_items-found (found_one d e) addr len (item_end off e) es aligned small room fits whole)
    ∙ ap ok (found-later d e es)

over-none : (o : Option (List ℕ)) → over o none ≡ o
over-none none = refl
over-none (some v) = refl

sized_none : (n : ℕ) (o : Option (List ℕ)) → over_sized n o none ≡ sized n o
sized_none n none = refl
sized_none n (some v) = refl

-- A buffer that is built of items with the sizes of their types, and that has a memory map, is parsed:
-- the memory map is that of the last item of its kind; the system table and the framebuffer are what the
-- last item of their kind has, if its size is that of the type; and the command line is that of the last
-- item of its kind, or empty.
pub parse-build :
    (buffer : Buffer) (es : List Entry) (ranges : List ℕ)
    → IsBuffer buffer
    → AllEntries es
    → Fits buffer.len 0 es
    → WholeMaps es
    → last_of memory_map es ≡ some ranges
    → (build buffer es >>= parse)
      ≡ ok (record {
        memory_map = ranges;
        efi_system_table = sized 8 (last_of efi_system_table es);
        framebuffer_info = sized 32 (last_of framebuffer es);
        command_line = or_empty (last_of command_line es);
      })
unfolding parse
parse-build buffer es ranges is valid fits whole there =
    let (out, made, at, read) = built_items buffer es is valid fits in
    let aligned : (out.addr % item_align == 0) ≡ true = ground (arith, at, is.aligned) in
    let all =
      parse_items-found nothing buffer.addr buffer.len 0 es is.aligned (omega (arith, is.small))
        (omega arith) fits whole in
    rw
      (
        made,
        aligned,
        read,
        all,
        there,
        over-none (last_of command_line es),
        sized_none 8 (last_of efi_system_table es),
        sized_none 32 (last_of framebuffer es),
      )
      refl
