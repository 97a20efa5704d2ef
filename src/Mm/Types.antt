-- ===== src/Mm/Types.antt =====
-- kernel/kernel/src/mm/types.rs: permissions, cache modes, and the conversions between addresses and
-- page numbers.
use corrosios.Base.{ℕ, ◌*◌, ◌/◌, ◌%◌, ◌^◌, Bool, wadd, wsub, wshl}

pub data AccessType : Type 0 where
  read : AccessType
  write : AccessType
  execute : AccessType

pub data CacheMode : Type 0 where
  cached : CacheMode
  write_through : CacheMode
  write_combining : CacheMode
  uncached : CacheMode

-- The flags of a `Protection`.
pub record Protection : Type 0 where
  pub can_read : Bool
  pub can_write : Bool
  pub can_execute : Bool

pub record PageTablePerms : Type 0 where
  pub p_read : Bool
  pub p_write : Bool
  pub p_execute : Bool
  pub p_user : Bool
  pub p_global : Bool

-- The page or frame of an address, the first at or behind the address's end, the offset in it, and the
-- first address of a page or frame.
unfoldable pub containing_page : ℕ → ℕ
containing_page addr = addr / 2 ^ 12

unfoldable pub containing_tail_page : ℕ → ℕ
containing_tail_page addr = wsub (wadd addr (2 ^ 12)) 1 / 2 ^ 12

unfoldable pub page_offset : ℕ → ℕ
page_offset addr = addr % 2 ^ 12

unfoldable pub page_addr : ℕ → ℕ
page_addr page = wshl page 12

-- `(self.0 >> (PT_LEVEL_SHIFT * level)) & PT_LEVEL_MASK`
unfoldable pub pt_index : ℕ → ℕ → ℕ
pt_index vpn level = vpn / 2 ^ (9 * level) % 512
