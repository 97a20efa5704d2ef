-- ===== src/Tests/Boot.antt =====
-- kernel/bootinfo and kernel/kernel/src/bootparse.rs: a memory map of one range, a command line of three
-- bytes and a system table, in a buffer of 100 bytes.
use corrosios.Base.{ℕ, ◌≡◌, refl, arith, none, some, List, [], ◌∷◌, ◌++◌}
use corrosios.NumUtils.{align_up, align_down}
use corrosios.Bootinfo.{Buffer, ok, ◌>>=◌}
use corrosios.Bootinfo.View.{items}
use corrosios.Bootinfo.Packed.{Entry, Fits}
use corrosios.Bootinfo.Building.{IsBuffer, AllEntries, build}
use corrosios.Bootinfo.Reading.{views, items-build}
use corrosios.Utf8.{is_utf8, sequence}
use corrosios.Bootparse.{CommandLineArg, parse, args, print, get_arg_value, parse_arg, split}
use corrosios.Bootparse.CommandLine.{args-print, get_arg_value-append}
use corrosios.Bootparse.Parsing.{parse-build}

abbrev buffer : Buffer
buffer = record { addr = 4096; len = 100; bytes = λ i. 255 }

-- Frames 16 to 32, of kind 1.
abbrev ranges : List ℕ
ranges =
    16 ∷ 0 ∷ 0 ∷ 0 ∷ 0 ∷ 0 ∷ 0 ∷ 0 ∷ 16 ∷ 0 ∷ 0 ∷ 0 ∷ 0 ∷ 0 ∷ 0 ∷ 0 ∷ 1 ∷ 0 ∷ 0 ∷ 0 ∷ 0 ∷ 0 ∷ 0 ∷ 0
    ∷ []

abbrev line : List ℕ
line = 97 ∷ 61 ∷ 98 ∷ []

abbrev table : List ℕ
table = 0 ∷ 16 ∷ 0 ∷ 0 ∷ 0 ∷ 0 ∷ 0 ∷ 0 ∷ []

abbrev entries : List Entry
entries =
    record { elem_size = 1; elem_align = 1; kind = 4; count = 3; val = line }
    ∷ record { elem_size = 24; elem_align = 8; kind = 2; count = 1; val = ranges }
    ∷ record { elem_size = 8; elem_align = 8; kind = 1; count = 1; val = table }
    ∷ []

buffer-IsBuffer : IsBuffer buffer
buffer-IsBuffer = record { aligned = refl; small = omega arith; fits = omega arith }

entries-AllEntries : AllEntries entries
entries-AllEntries = (
  record { aligned = omega arith; sized = refl; is_kind = omega arith },
  (
    record { aligned = omega arith; sized = refl; is_kind = omega arith },
    (record { aligned = omega arith; sized = refl; is_kind = omega arith }, tt),
  ),
)

entries-Fits : Fits 100 0 entries
unfolding align_up align_down
entries-Fits = (omega arith, (omega arith, (omega arith, omega arith)))

items-build_example : (build buffer entries >>= items) ≡ ok (views 4096 0 entries)
items-build_example = items-build buffer entries buffer-IsBuffer entries-AllEntries entries-Fits

parse-build_example :
    (build buffer entries >>= parse)
    ≡ ok (record {
      memory_map = ranges;
      efi_system_table = some table;
      framebuffer_info = none;
      command_line = line;
    })
parse-build_example =
    parse-build buffer entries ranges buffer-IsBuffer entries-AllEntries entries-Fits
      ((λ e. absurd (omega (arith, e))), ((λ e. refl), ((λ e. absurd (omega (arith, e))), tt))) refl

abbrev arg : CommandLineArg
arg = record { name = 97 ∷ []; value = 98 ∷ 61 ∷ 195 ∷ 169 ∷ [] }

abbrev flag : CommandLineArg
flag = record { name = 99 ∷ []; value = [] }

-- `a=b=é c=`
args-print_example : args (print (arg ∷ flag ∷ [])) ≡ arg ∷ flag ∷ []
unfolding is_utf8 sequence
args-print_example = args-print (arg ∷ flag ∷ []) (
  record {
    name_whole = (refl, tt);
    name_free = (refl, tt);
    value_whole = (refl, (refl, (refl, (refl, tt))));
    name_text = refl;
    value_text = refl;
  },
  (
    record {
      name_whole = (refl, tt);
      name_free = (refl, tt);
      value_whole = tt;
      name_text = refl;
      value_text = refl;
    },
    tt,
  ),
)

-- `a=b` and then, behind a tab, `a=c`.
get_arg_value-append_example :
    get_arg_value (line ++ (9 ∷ 97 ∷ 61 ∷ 99 ∷ [])) (97 ∷ []) ≡ some (99 ∷ [])
unfolding get_arg_value args split parse_arg
get_arg_value-append_example = get_arg_value-append line (97 ∷ 61 ∷ 99 ∷ []) (97 ∷ []) 9 refl
