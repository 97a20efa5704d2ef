-- ===== src/Mm/Kimage.antt =====
-- kernel/kernel/src/kimage.rs: where the kernel image is. The pages that the linker's symbols lie in
-- are parameters, and so is the frame that `init` is given.
use corrosios.Base.{
  ℕ, ◌+◌, ◌-◌, ◌≤◌, ◌<◌, ◌≡◌, refl, arith, Bool, true, leb, ltb, ◌&&◌, wadd, wsub, usize_mod,
}
use corrosios.Err.{Outcome, ok, ensure, ◌>>=◌, ◌>>◌}

pub record Image : Type 0 where
  pub phys_base : ℕ
  pub virt_base : ℕ
  pub virt_end : ℕ

abbrev pub total_pages : Image → ℕ
total_pages k = wsub k.virt_end k.virt_base

abbrev pub phys_end : Image → ℕ
phys_end k = wadd k.phys_base (total_pages k)

unfoldable contains_phys : Image → ℕ → Bool
contains_phys k pfn = leb k.phys_base pfn && ltb pfn (phys_end k)

unfoldable vpn_from_kernel_pfn : Image → ℕ → Outcome ℕ
vpn_from_kernel_pfn k pfn =
    ensure (leb k.phys_base pfn)
    >> ensure (ltb pfn (wadd k.phys_base (total_pages k)))
    >> ok (wadd k.virt_base (wsub pfn k.phys_base))

unfoldable pfn_from_kernel_vpn : Image → ℕ → Outcome ℕ
pfn_from_kernel_vpn k vpn =
    ensure (leb k.virt_base vpn)
    >> ensure (ltb vpn k.virt_end)
    >> ok (wadd k.phys_base (wsub vpn k.virt_base))

-- An image that begins before it ends, and whose frames have numbers.
pub record IsImage (k : Image) : Type 0 where
  pub ordered : k.virt_base ≤ k.virt_end
  pub virt_small : k.virt_end < usize_mod
  pub phys_small : k.phys_base + (k.virt_end - k.virt_base) < usize_mod

-- A frame of the image has a page in the image, and that page has the frame.
pfn-vpn_from_kernel_pfn :
    (k : Image) (pfn : ℕ)
    → IsImage k
    → contains_phys k pfn ≡ true
    → (vpn_from_kernel_pfn k pfn >>= pfn_from_kernel_vpn k) ≡ ok pfn
unfolding contains_phys vpn_from_kernel_pfn pfn_from_kernel_vpn
pfn-vpn_from_kernel_pfn k pfn is inside =
    let total : total_pages k ≡ k.virt_end - k.virt_base =
      omega (arith, is.ordered, is.virt_small) in
    let end : wadd k.phys_base (k.virt_end - k.virt_base)
        ≡ k.phys_base + (k.virt_end - k.virt_base) =
      omega (arith, is.phys_small) in
    let n : ℕ = k.virt_end - k.virt_base in
    let here : (leb k.phys_base pfn && ltb pfn (k.phys_base + n)) ≡ true =
      rw (total, end) at inside in
    let low : k.phys_base ≤ pfn = ground (arith, here) in
    let high : pfn < k.phys_base + n = ground (arith, here) in
    let from : leb k.phys_base pfn ≡ true = ground (arith, low) in
    let to : ltb pfn (k.phys_base + (k.virt_end - k.virt_base)) ≡ true = ground (arith, high) in
    let offset : wsub pfn k.phys_base ≡ pfn - k.phys_base =
      omega (arith, low, high, is.phys_small) in
    let page : wadd k.virt_base (pfn - k.phys_base) ≡ k.virt_base + (pfn - k.phys_base) =
      omega (arith, low, high, is.ordered, is.virt_small) in
    let v : leb k.virt_base (k.virt_base + (pfn - k.phys_base)) ≡ true = ground arith in
    let w : ltb (k.virt_base + (pfn - k.phys_base)) k.virt_end ≡ true =
      ground (arith, low, high, is.ordered) in
    let back : wadd k.phys_base (wsub (k.virt_base + (pfn - k.phys_base)) k.virt_base) ≡ pfn =
      omega (arith, low, high, is.ordered, is.virt_small, is.phys_small) in
    rw (total, end, from, to, offset, page, v, w, back) refl
