-- ===== src/Bootinfo/Builder.antt =====
-- kernel/bootinfo/src/builder.rs: the builder. A value is given by its bytes, and its type by its size
-- and alignment.
use corrosios.Base.{
  ℕ, ◌+◌, ◌-◌, ◌*◌, ◌%◌, ◌^◌, Option, none, some, List, ltb, leb, ◌==◌, not, if◌then◌else◌,
  checked_add,
}
use corrosios.NumUtils.{align_up}
use corrosios.Bootinfo.{
  bad_size, bad_align, Result, ok, ok_or, fail_if, ensure, ◌>>=◌, ◌>>◌, item_align, header_size,
  Buffer, header_bytes, put_bytes,
}

pub record Builder : Type 0 where
  pub buffer : Buffer
  pub off : ℕ

unfoldable pub new : Buffer → Result Builder
new buffer = do
  fail_if (not (buffer.addr % item_align == 0)) bad_align
  fail_if (leb (2 ^ 31 - 1) buffer.len) bad_size
  ok (record { buffer = buffer; off = 0 })

abbrev pub checked_mul : ℕ → ℕ → Option ℕ
checked_mul a b = if ltb (a * b) (2 ^ 64) then some (a * b) else none

-- The builder with the header written, and the offset of the payload.
unfoldable pub reserve : Builder → (elem_size elem_align kind count : ℕ) → Result (Builder × ℕ)
reserve b elem_size elem_align kind count = do
  fail_if (ltb item_align elem_align) bad_align
  size ← ok_or (checked_mul elem_size count) bad_size
  total_size ← ok_or (checked_add size header_size) bad_size
  let off = align_up b.off item_align
  next_off ← ok_or (checked_add off total_size) bad_size
  fail_if (ltb b.buffer.len next_off) bad_size
  ok (
    record {
      buffer = record b.buffer {
        bytes = put_bytes b.buffer.bytes off (header_bytes kind (size % 2 ^ 32));
      };
      off = next_off;
    },
    off + header_size,
  )

abbrev put_payload : Builder → ℕ → List ℕ → Builder
put_payload b off bs = record b {
  buffer = record b.buffer { bytes = put_bytes b.buffer.bytes off bs };
}

-- `append_slice`, for `count` values whose bytes are `val`; `append` is the case of one value.
unfoldable pub append_slice :
    Builder → (elem_size elem_align kind count : ℕ) → List ℕ → Result Builder
append_slice b elem_size elem_align kind count val = do
  (b', off) ← reserve b elem_size elem_align kind count
  ok (put_payload b' off val)

unfoldable append : Builder → (elem_size elem_align kind : ℕ) → List ℕ → Result Builder
append b elem_size elem_align kind val = do
  (b', off) ← reserve b elem_size elem_align kind 1
  ok (put_payload b' off val)

unfoldable pub finish : Builder → Result Buffer
finish b = do ensure (leb b.off b.buffer.len); ok (record b.buffer { len = b.off })
