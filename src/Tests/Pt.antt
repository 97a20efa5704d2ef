-- ===== src/Tests/Pt.antt =====
-- kernel/kernel/src/mm/pt.rs: walks over three pages at the end of a table of level 0.
use corrosios.Base.{ℕ, ◌+◌, ◌≡◌, refl, arith, ap, Bool, false, List, [], ◌∷◌, ltb}
use corrosios.Err.{Outcome, ok, err, panic}
use corrosios.Mm.Types.{cached, pt_index}
use corrosios.Mm.Mmu.{pte_is_present}
use corrosios.Mm.Pt.{MappingPointer, new_pointer, virt, done, Tables, next_table, not_present}
use corrosios.Mm.Pt.Map.{map}
use corrosios.Mm.Pt.Update.{unmap, walk_update}
use corrosios.Mm.Pt.Walks.{IsPointer}
use corrosios.Mm.Pt.Finish.{Finishes, IsRange}
use corrosios.Mm.Pt.Mapping.{Keeps, map-Finishes}
use corrosios.Mm.Pt.Updating.{Empties, unmap-Finishes, walk_update-skips}
use corrosios.Tests.Mmu.{kernel_data}

abbrev empty_tables : Tables
empty_tables = λ table index. 0

-- Tables are handed out from number 100 on.
abbrev next_frame : ℕ → ℕ × Outcome ℕ
next_frame n = (n + 1, ok (n + 100))

abbrev in_use : ℕ → Bool
in_use table = ltb table 100

abbrev frame_of : ℕ × Outcome ℕ → ℕ
frame_of (a, ok t) = t
frame_of (a, err e) = 0
frame_of (a, panic) = 0

next_frame_fresh : (a a' : ℕ) (t : ℕ) → next_frame a ≡ (a', ok t) → in_use t ≡ false
next_frame_fresh a a' t e = let same : a + 100 ≡ t = ap frame_of e in ground arith

three_pages : IsRange 510 3
three_pages = record { covered = omega arith; small = omega arith }

map-Finishes_example :
    Finishes
      (Keeps {A = ℕ} in_use)
      3
      (empty_tables, 0)
      (map next_frame 9 kernel_data cached 1 (new_pointer 510 3) (empty_tables, 0))
map-Finishes_example =
    map-Finishes in_use next_frame 9 kernel_data cached next_frame_fresh 1 510 3 (empty_tables, 0)
      three_pages

abbrev log_flush : List ℕ → ℕ → List ℕ
log_flush l vpn = vpn ∷ l

unmap-Finishes_example :
    Finishes
      (Empties {G = List ℕ})
      3
      (empty_tables, [])
      (unmap log_flush 1 (new_pointer 510 3) (empty_tables, []))
unmap-Finishes_example = unmap-Finishes log_flush 1 510 3 (empty_tables, []) three_pages

abbrev at_510 : MappingPointer
at_510 = record { base = 510; size = 3; offset = 0 }

at_510-IsPointer : IsPointer at_510
at_510-IsPointer = record { inside = omega arith; small = omega arith }

absent : next_table empty_tables 1 (pt_index (virt at_510) 1) 1 ≡ not_present
unfolding next_table pt_index pte_is_present
absent = refl

walk_update-skips_example :
    walk_update log_flush (λ vpn pte level. 0) 1 1 at_510 (empty_tables, [])
    ≡ (done, record at_510 { offset = 3 }, (empty_tables, []))
walk_update-skips_example =
    walk_update-skips log_flush (λ vpn pte level. 0) 1 at_510 empty_tables [] at_510-IsPointer
      (omega arith) (omega arith) absent

abbrev never : List ℕ → ℕ → ℕ → Bool
never l table level = false

abbrev log_table : List ℕ → ℕ → ℕ → List ℕ
log_table l table level = table ∷ l
