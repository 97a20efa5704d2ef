-- ===== src/Bootinfo/View.antt =====
-- kernel/bootinfo/src/view.rs: the items of a buffer.
use corrosios.Base.{
  ℕ, zero, suc, ◌-◌, ◌%◌, List, [], ◌∷◌, ◌&&◌, leb, ◌==◌, not, if◌then◌else◌, wadd, length,
}
use corrosios.NumUtils.{align_up}
use corrosios.Bootinfo.{
  bad_size, bad_align, Result, ok, err, panic, fail_if, ensure, expect, ◌>>=◌, ◌>>◌, item_align,
  header_size, Buffer, le_word, get_bytes,
}

abbrev pub view_new : Buffer → Result Buffer
view_new buffer = do fail_if (not (buffer.addr % item_align == 0)) bad_align; ok buffer

-- An item with the address of its payload.
pub record ItemView : Type 0 where
  pub kind : ℕ
  pub addr : ℕ
  pub payload : List ℕ

-- `buffer[from..to]`
unfoldable pub range : Buffer → ℕ → ℕ → Result (List ℕ)
range b from to = do ensure (leb from to && leb to b.len); ok (get_bytes b.bytes from (to - from))

-- `get_slice_ref::<ItemHeader>`: the kind and the length, where the bytes are as many as a header has.
-- The alignment of a header is 4.
abbrev pub get_header : ℕ → List ℕ → Result (ℕ × ℕ)
get_header addr (a ∷ b ∷ c ∷ d ∷ e ∷ f ∷ g ∷ h ∷ []) = do
  fail_if (not (addr % 4 == 0)) bad_align
  ok (le_word a b c d, le_word e f g h)
get_header addr bs = err bad_size

-- The items from an offset on. Every item moves the offset on, and so `rounds` are as many as the bytes.
unfoldable pub items_from : ℕ → Buffer → ℕ → Result (List ItemView)
items_from zero b off = if leb b.len off then ok [] else panic
items_from (suc rounds) b off = if leb b.len off then ok [] else (do
  let payload_off = wadd off header_size
  bytes ← range b off payload_off
  (kind, payload_len) ← expect (get_header (wadd b.addr off) bytes)
  let payload_end_off = wadd payload_off payload_len
  payload ← range b payload_off payload_end_off
  rest ← items_from rounds b (align_up payload_end_off item_align)
  ok (record { kind = kind; addr = wadd b.addr payload_off; payload = payload } ∷ rest))

unfoldable pub items : Buffer → Result (List ItemView)
items b = items_from b.len b 0

-- `get_slice`, the bytes of the values, and `get`, for a type of this size and alignment.
unfoldable pub get_slice : (size align : ℕ) → ItemView → Result (List ℕ)
get_slice size align item = do
  fail_if (not (length item.payload % size == 0)) bad_size
  fail_if (not (item.addr % align == 0)) bad_align
  ok item.payload

unfoldable pub get : (size align : ℕ) → ItemView → Result (List ℕ)
get size align item = do
  fail_if (not (size == length item.payload)) bad_size
  fail_if (not (item.addr % align == 0)) bad_align
  ok item.payload
