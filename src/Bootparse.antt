-- ===== src/Bootparse.antt =====
-- kernel/kernel/src/bootparse.rs: the command line, and the boot information that the kernel keeps. Text
-- is a list of bytes; what an item holds is kept as its bytes.
pub mod CommandLine
pub mod Parsing
use corrosios.Base.{
  ℕ, zero, suc, ◌+◌, Option, none, some, Bool, true, false, List, [], ◌∷◌, ◌++◌, ◌==◌, ◌||◌, ◌&&◌,
  not, if◌then◌else◌, map,
}
use corrosios.Utf8.{is_utf8, display_utf8_lossy}
use corrosios.Bootinfo.{
  Result, ok, err, panic, expect, ◌>>=◌, Buffer, efi_system_table, memory_map, framebuffer,
  command_line,
}
use corrosios.Bootinfo.View.{ItemView, view_new, items, get_slice, get}

abbrev pub equals_sign : ℕ
equals_sign = 61

pub record CommandLineArg : Type 0 where
  pub name : List ℕ
  pub value : List ℕ

-- `position`, `buf[..n]` and `buf[n..]`
abbrev pub position : (ℕ → Bool) → List ℕ → Option ℕ
position p [] = none
position p (x ∷ xs) =
    let rest = position p xs in
    if p x then some 0 else elim rest [ none ↦ none | some n ↦ some (suc n) ]

abbrev pub take : ℕ → List ℕ → List ℕ
take zero xs = []
take (suc n) [] = []
take (suc n) (x ∷ xs) = x ∷ take n xs

abbrev pub drop : ℕ → List ℕ → List ℕ
drop zero xs = xs
drop (suc n) [] = []
drop (suc n) (x ∷ xs) = drop n xs

unfoldable pub parse_arg : List ℕ → CommandLineArg
parse_arg buf = elim (position (λ b. b == equals_sign) buf) [
  | some val_delim_pos ↦ record {
    name = take val_delim_pos buf;
    value = drop (val_delim_pos + 1) buf;
  }
  | none ↦ record { name = buf; value = [] }
]

-- `u8::is_ascii_whitespace`
abbrev pub is_ascii_whitespace : ℕ → Bool
is_ascii_whitespace b = (b == 32) || (b == 9) || (b == 10) || (b == 12) || (b == 13)

abbrev cons_head : ℕ → List (List ℕ) → List (List ℕ)
cons_head x [] = (x ∷ []) ∷ []
cons_head x (xs ∷ xss) = (x ∷ xs) ∷ xss

-- `split`: what stands between the bytes that the test finds.
unfoldable pub split : (ℕ → Bool) → List ℕ → List (List ℕ)
split p [] = [] ∷ []
split p (x ∷ xs) = let rest = split p xs in if p x then [] ∷ rest else cons_head x rest

abbrev pub keep_nonempty : List (List ℕ) → List (List ℕ)
keep_nonempty [] = []
keep_nonempty ([] ∷ xss) = keep_nonempty xss
keep_nonempty ((x ∷ xs) ∷ xss) = (x ∷ xs) ∷ keep_nonempty xss

unfoldable pub args : List ℕ → List CommandLineArg
args buf = map parse_arg (keep_nonempty (split is_ascii_whitespace buf))

abbrev bytes_eq : List ℕ → List ℕ → Bool
bytes_eq [] [] = true
bytes_eq [] (y ∷ ys) = false
bytes_eq (x ∷ xs) [] = false
bytes_eq (x ∷ xs) (y ∷ ys) = let rest = bytes_eq xs ys in (x == y) && rest

-- `rfind`, and the value of the argument found.
abbrev pub last_value : List ℕ → List CommandLineArg → Option (List ℕ)
last_value name [] = none
last_value name (a ∷ rest) =
    let later = last_value name rest in
    elim later [ some v ↦ some v | none ↦ if bytes_eq a.name name then some a.value else none ]

unfoldable pub get_arg_value : List ℕ → List ℕ → Option (List ℕ)
get_arg_value buf name = last_value name (args buf)

unfoldable get_arg_str_value : List ℕ → List ℕ → Option (List ℕ)
get_arg_str_value buf name = elim (get_arg_value buf name) [
  | some val ↦ if is_utf8 val then some val else none
  | none ↦ none
]

-- `Display`
unfoldable pub print_arg : CommandLineArg → List ℕ
print_arg a = display_utf8_lossy a.name ++ (equals_sign ∷ display_utf8_lossy a.value)

unfoldable pub print : List CommandLineArg → List ℕ
print [] = []
print (a ∷ []) = print_arg a
print (a ∷ b ∷ rest) = print_arg a ++ (32 ∷ print (b ∷ rest))

pub record BootinfoData : Type 0 where
  pub memory_map : List ℕ
  pub efi_system_table : Option (List ℕ)
  pub framebuffer_info : Option (List ℕ)
  pub command_line : List ℕ

-- The variables of `parse`.
pub record Found : Type 0 where
  pub found_map : Option (List ℕ)
  pub found_table : Option (List ℕ)
  pub found_info : Option (List ℕ)
  pub found_line : Option (List ℕ)

-- `Result::ok`
abbrev ok_of : Result (List ℕ) → Result (Option (List ℕ))
ok_of (ok v) = ok (some v)
ok_of (err e) = ok none
ok_of panic = panic

-- The loop of `parse` over the items. A `MemoryRange` has 24 bytes, a `FramebufferInfo` 32 and a
-- `PhysAddr` 8, and all three are aligned at 8.
unfoldable pub parse_item : Found → ItemView → Result Found
parse_item d item =
    if item.kind == memory_map
    then (expect (get_slice 24 8 item) >>= λ v. ok (record d { found_map = some v }))
    else if item.kind == efi_system_table
    then (ok_of (get 8 8 item) >>= λ v. ok (record d { found_table = v }))
    else if item.kind == framebuffer
    then (ok_of (get 32 8 item) >>= λ v. ok (record d { found_info = v }))
    else if item.kind == command_line
    then (ok_of (get_slice 1 1 item) >>= λ v. ok (record d { found_line = v }))
    else ok d

unfoldable pub parse_items : Found → List ItemView → Result Found
parse_items d [] = ok d
parse_items d (item ∷ rest) = parse_item d item >>= λ d'. parse_items d' rest

abbrev pub or_empty : Option (List ℕ) → List ℕ
or_empty none = []
or_empty (some v) = v

-- `memory_map.expect(..)`, and `command_line.unwrap_or(b"")`
abbrev parsed : Found → Result BootinfoData
parsed d = elim d.found_map [
  | none ↦ panic
  | some v ↦ ok (record {
    memory_map = v;
    efi_system_table = d.found_table;
    framebuffer_info = d.found_info;
    command_line = or_empty d.found_line;
  })
]

abbrev pub nothing : Found
nothing = record { found_map = none; found_table = none; found_info = none; found_line = none }

unfoldable pub parse : Buffer → Result BootinfoData
parse buffer = do
  view ← expect (view_new buffer)
  all ← items view
  d ← parse_items nothing all
  parsed d
