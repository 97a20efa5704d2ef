-- ===== src/Tests/Mmu.antt =====
-- kernel/kernel/src/arch/x86_64/mmu.rs: the theorems on entries at a large page and at a table.
use corrosios.Base.{◌^◌, ◌≡◌, arith, true, false}
use corrosios.Mm.Types.{PageTablePerms, uncached, cached}
use corrosios.Mm.Mmu.{make_terminal_pte, contains, accessed}
use corrosios.Mm.Mmu.Words.{uses_pcd}
use corrosios.Mm.Mmu.Entries.{Encodes, make_terminal_pte-Encodes, make_terminal_pte-accessed}

abbrev pub kernel_data : PageTablePerms
kernel_data = record {
  p_read = true;
  p_write = true;
  p_execute = false;
  p_user = false;
  p_global = true;
}

make_terminal_pte-Encodes_example :
    Encodes 1 512 (make_terminal_pte 1 512 kernel_data cached) kernel_data
make_terminal_pte-Encodes_example = make_terminal_pte-Encodes 1 512 kernel_data cached (omega arith)

make_terminal_pte-accessed_example :
    (contains (make_terminal_pte 0 3 kernel_data uncached) accessed ≡ uses_pcd uncached)
    × (contains (make_terminal_pte 0 3 kernel_data uncached) (2 ^ 4) ≡ false)
make_terminal_pte-accessed_example =
    make_terminal_pte-accessed 0 3 kernel_data uncached (omega arith)
