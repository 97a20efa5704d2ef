-- ===== src/Mm/Pmm/Level.antt =====
-- kernel/kernel/src/mm/pmm.rs, `BuddyLevel`: the free blocks of one order, and for each pair of
-- blocks of that order a bit. The intrusive list is the list of its frame numbers, front first; the
-- links that it keeps inside the free frames are not modelled. The removal of a block that is not in
-- the list, which is undefined in the source, is `none`, as a panic is.
use corrosios.Base.{
  ℕ, Option, none, some, Bool, List, [], ◌∷◌, ◌==◌, if◌then◌else◌, ◌>>=◌, wadd, wsub,
}
use corrosios.Bitmap
use corrosios.Bitmap.{Bitmap}

pub record BuddyLevel : Type 0 where
  pub free_list : List ℕ
  pub free_blocks : ℕ
  pub splitmap : Bitmap

unfoldable pub toggle_parent_split : BuddyLevel → ℕ → Option BuddyLevel
toggle_parent_split l index = do
  b ← Bitmap.toggle l.splitmap index
  some (record l { splitmap = b })

unfoldable pub is_parent_split : BuddyLevel → ℕ → Option Bool
is_parent_split l index = Bitmap.get l.splitmap index

unfoldable pub push_free : BuddyLevel → ℕ → BuddyLevel
push_free l pfn = record l { free_list = pfn ∷ l.free_list; free_blocks = wadd l.free_blocks 1 }

-- The list without the block, if the block is in it.
unfoldable pub unlink : ℕ → List ℕ → Option (List ℕ)
unlink pfn [] = none
unlink pfn (x ∷ xs) =
    let rest = unlink pfn xs in if x == pfn then some xs else (rest >>= λ ys. some (x ∷ ys))

unfoldable pub remove_free : BuddyLevel → ℕ → Option BuddyLevel
remove_free l pfn = do
  rest ← unlink pfn l.free_list
  some (record l { free_list = rest; free_blocks = wsub l.free_blocks 1 })

abbrev pub pop_front : BuddyLevel → List ℕ → Option (ℕ × BuddyLevel)
pop_front l [] = none
pop_front l (pfn ∷ rest) =
    some (pfn, record l { free_list = rest; free_blocks = wsub l.free_blocks 1 })

-- Here `none` says that the level has no free block.
unfoldable pub pop_free : BuddyLevel → Option (ℕ × BuddyLevel)
pop_free l = pop_front l l.free_list
