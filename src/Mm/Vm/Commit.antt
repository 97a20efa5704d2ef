-- ===== src/Mm/Vm/Commit.antt =====
-- kernel/kernel/src/mm/vm/aspace.rs: committing the pages of a mapping. The pages that an object
-- provides for a range are put into the page table in runs of adjacent frames. The page table's state
-- and its `map` are parameters, and so is the object, whose `provide_page` is called through a trait.
pub mod Runs
use corrosios.Base.{
  ℕ, zero, suc, ◌+◌, ◌-◌, ◌^◌, Option, none, some, Bool, true, false, wadd, wsub, ltb, ◌==◌, ◌&&◌,
  not, if◌then◌else◌,
}
use corrosios.Err.{
  Error, no_perms, invalid_state, Outcome, ok, err, panic, ok_or, fail_if, ◌>>=◌, ◌>>◌,
}
use corrosios.Mm.Types.{AccessType, read, write, execute, CacheMode, Protection, PageTablePerms}

pub data CommitType : Type 0 where
  commit_read : CommitType
  commit_write : CommitType

abbrev pub get_commit_type : AccessType → CommitType
get_commit_type read = commit_read
get_commit_type execute = commit_read
get_commit_type write = commit_write

abbrev pub access_allowed : AccessType → Protection → Bool
access_allowed read prot = prot.can_read
access_allowed write prot = prot.can_write
access_allowed execute prot = prot.can_execute

abbrev pub perms_for_prot : PageTablePerms → Protection → PageTablePerms
perms_for_prot base_perms prot = record base_perms {
  p_read = prot.can_read;
  p_write = prot.can_write;
  p_execute = prot.can_execute;
}

-- A `Mapping` with the `prot` of its inner part, which a detached mapping has not, and with the
-- object's `provide_page` and `cache_mode`.
pub record Mapping : Type 0 where
  pub start : ℕ
  pub page_count : ℕ
  pub object_offset : ℕ
  pub provide_page : ℕ → CommitType → Outcome ℕ
  pub cache_mode : CacheMode
  pub prot : Option Protection

pub record CommitRange : Type 0 where
  pub mapping : Mapping
  pub commit_type : CommitType
  pub offset : ℕ
  pub page_count : ℕ

-- The range of `fault`, in the mapping that `get_mapping` answers.
unfoldable pub fault_range : ℕ → AccessType → Outcome Mapping → Outcome CommitRange
fault_range vpn access_type found = do
  m ← found
  prot ← ok_or m.prot invalid_state
  fail_if (not (access_allowed access_type prot)) no_perms
  ok (record {
    mapping = m;
    commit_type = get_commit_type access_type;
    offset = wsub vpn m.start;
    page_count = 1;
  })

-- The range of `commit`.
unfoldable pub commit_range : Mapping → ℕ → ℕ → Outcome CommitRange
commit_range m offset page_count = do
  prot ← ok_or m.prot invalid_state
  ok (record {
    mapping = m;
    commit_type = if prot.can_write then commit_write else commit_read;
    offset = offset;
    page_count = page_count;
  })

pub record MappingRun : Type 0 where
  pub base_off : ℕ
  pub base_pfn : ℕ
  pub size : ℕ

module _ {ℓ} {S : Type ℓ} where
  -- What the code does with a state that it keeps when it returns early.
  abbrev pub and_then :
      S × Outcome (Unit {0}) → (S → S × Outcome (Unit {0})) → S × Outcome (Unit {0})
  and_then (s, ok u) k = k s
  and_then (s, err e) k = (s, err e)
  and_then (s, panic) k = (s, panic)

  abbrev pub on_ok {κ} :
      {A : Type κ} → Outcome A → S → (A → S × Outcome (Unit {0})) → S × Outcome (Unit {0})
  on_ok (ok a) s k = k a
  on_ok (err e) s k = (s, err e)
  on_ok panic s k = (s, panic)

  abbrev pub map_left :
      (MappingRun → S → S × Outcome (Unit {0})) → Option MappingRun → S → S × Outcome (Unit {0})
  map_left do_map none s = (s, ok tt)
  map_left do_map (some run) s = do_map run s

-- The run with the frame, where `run.base_pfn.checked_add(run.size)` is the frame.
abbrev pub extend : Option MappingRun → ℕ → Option MappingRun
extend none pfn = none
extend (some run) pfn =
    if ltb (run.base_pfn + run.size) (2 ^ 64) && (run.base_pfn + run.size == pfn)
    then some (record run { size = run.size + 1 })
    else none

-- With the extended run the loop goes on at once.
abbrev grow_or {ℓ} : {R : Type ℓ} → Option MappingRun → (MappingRun → R) → R → R
grow_or none go_on new_run = new_run
grow_or (some run) go_on new_run = go_on run

module _ {ℓ} {S : Type ℓ} (provide : ℕ → Outcome ℕ)
    (do_map : MappingRun → S → S × Outcome (Unit {0})) where
  -- The loop over `n` offsets from `offset` on.
  unfoldable pub commit_loop : ℕ → ℕ → Option MappingRun → S → S × Outcome (Unit {0})
  commit_loop zero offset cur_run s = map_left do_map cur_run s
  commit_loop (suc n) offset cur_run s = on_ok (provide offset) s (λ pfn.
      grow_or (extend cur_run pfn) (λ run. commit_loop n (offset + 1) (some run) s)
        (and_then (map_left do_map cur_run s) (
          commit_loop n (offset + 1)
            (some (record { base_off = offset; base_pfn = pfn; size = 1 })))))

module _ {ℓ} {S : Type ℓ}
    (pt_map : ℕ → ℕ → ℕ → PageTablePerms → CacheMode → S → S × Outcome (Unit {0}))
    (base_perms : PageTablePerms) where
  unfoldable pub do_commit : Outcome CommitRange → S → S × Outcome (Unit {0})
  do_commit get_range s = on_ok get_range s (λ range.
      on_ok (ok_or range.mapping.prot invalid_state) s (λ prot.
        commit_loop
          (λ offset.
            range.mapping.provide_page (wadd offset range.mapping.object_offset) range.commit_type)
          (λ run.
            pt_map (wadd range.mapping.start run.base_off) run.size run.base_pfn
              (perms_for_prot base_perms prot) range.mapping.cache_mode)
          (wadd range.offset range.page_count - range.offset) range.offset none s))
