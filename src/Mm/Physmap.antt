-- ===== src/Mm/Physmap.antt =====
-- kernel/kernel/src/mm/physmap.rs: where the kernel's address space maps physical frames, and
-- arch/x86_64/mm.rs: the constants.
use corrosios.Base.{ℕ, ◌-◌, ◌+◌, ◌<◌, ◌≡◌, refl, arith, true, ltb, leb, ◌&&◌, wadd}
use corrosios.Err.{Outcome, ok, ensure, ◌>>◌}
use corrosios.Mm.Types.{containing_page, page_offset, page_addr}

abbrev pub phys_map_base : ℕ
phys_map_base = 4503565267632128

abbrev pub phys_map_max_pages : ℕ
phys_map_max_pages = 17179869184

unfoldable pub pfn_to_physmap : ℕ → ℕ
pfn_to_physmap pfn = wadd phys_map_base pfn

unfoldable pub physmap_to_pfn : ℕ → Outcome ℕ
physmap_to_pfn vpn =
    ensure (leb phys_map_base vpn && ltb vpn (phys_map_base + phys_map_max_pages))
    >> ok (vpn - phys_map_base)

-- `paddr_to_physmap` with `PhysAddr::to_virt`.
unfoldable paddr_to_physmap : ℕ → ℕ
paddr_to_physmap paddr =
    wadd (page_addr (pfn_to_physmap (containing_page paddr))) (page_offset paddr)

-- A frame below the end of the map is the frame of its page in the map.
pub physmap_to_pfn-pfn_to_physmap :
    (pfn : ℕ) → pfn < phys_map_max_pages → physmap_to_pfn (pfn_to_physmap pfn) ≡ ok pfn
unfolding physmap_to_pfn pfn_to_physmap
physmap_to_pfn-pfn_to_physmap pfn small =
    let exact : wadd phys_map_base pfn ≡ phys_map_base + pfn = omega arith in
    let here : (leb phys_map_base (phys_map_base + pfn)
          && ltb (phys_map_base + pfn) (phys_map_base + phys_map_max_pages))
        ≡ true =
      ground arith in
    let back : phys_map_base + pfn - phys_map_base ≡ pfn = omega arith in
    rw (exact, here, back) refl
