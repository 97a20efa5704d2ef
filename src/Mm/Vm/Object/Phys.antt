-- ===== src/Mm/Vm/Object/Phys.antt =====
-- kernel/kernel/src/mm/vm/object.rs: `PhysVmObject`.
use corrosios.Base.{ℕ, ltb, wadd}
use corrosios.Err.{Outcome, ok, ensure, ◌>>◌}
use corrosios.Mm.Types.{CacheMode}
use corrosios.Mm.Vm.Commit.{CommitType}

pub record PhysVmObject : Type 0 where
  pub base : ℕ
  pub page_count : ℕ
  pub cache_mode : CacheMode

unfoldable pub provide_page : PhysVmObject → ℕ → CommitType → Outcome ℕ
provide_page o offset commit_type = ensure (ltb offset o.page_count) >> ok (wadd o.base offset)
