-- ===== src/Bootinfo.antt =====
-- kernel/bootinfo: the boot information that the loader packs and the kernel reads. A buffer is its
-- address, its length and its bytes by their offset. `ItemHeader` is two little-endian words of 32 bits.
pub mod Builder
pub mod View
pub mod Bytes
pub mod Packed
pub mod Building
pub mod Reading
use corrosios.Base.{
  ℕ, zero, suc, ◌+◌, ◌*◌, ◌/◌, ◌%◌, Option, none, some, Bool, true, false, List, [], ◌∷◌, ◌==◌,
  if◌then◌else◌, length,
}

pub data Error : Type 0 where
  bad_size : Error
  bad_align : Error

pub data Result {ℓ} (A : Type ℓ) : Type ℓ where
  ok : A → Result A
  err : Error → Result A
  panic : Result A

infixl 5 ◌>>=◌ ◌>>◌
abbrev pub ◌>>=◌ {ℓ κ} : {A : Type ℓ} {B : Type κ} → Result A → (A → Result B) → Result B
ok a >>= f = f a
err e >>= f = err e
panic >>= f = panic

abbrev pub ◌>>◌ {ℓ} : {B : Type ℓ} → Result (Unit {0}) → Result B → Result B
m >> k = m >>= λ _. k

abbrev pub ok_or {ℓ} : {A : Type ℓ} → Option A → Error → Result A
ok_or none e = err e
ok_or (some a) e = ok a

abbrev pub fail_if : Bool → Error → Result (Unit {0})
fail_if true e = err e
fail_if false e = ok tt

-- `Result::expect` and `Result::ok`
abbrev pub expect {ℓ} : {A : Type ℓ} → Result A → Result A
expect (ok a) = ok a
expect (err e) = panic
expect panic = panic

-- `assert!`, and the check of a range that is taken out of a slice.
abbrev pub ensure : Bool → Result (Unit {0})
ensure true = ok tt
ensure false = panic

abbrev pub item_align : ℕ
item_align = 8

abbrev pub header_size : ℕ
header_size = 8

-- The kinds of items.
abbrev pub efi_system_table : ℕ
efi_system_table = 1

abbrev pub memory_map : ℕ
memory_map = 2

abbrev pub framebuffer : ℕ
framebuffer = 3

abbrev pub command_line : ℕ
command_line = 4

pub record Buffer : Type 0 where
  pub addr : ℕ
  pub len : ℕ
  pub bytes : ℕ → ℕ

-- A word of 32 bits as bytes.
abbrev le_bytes : ℕ → List ℕ
le_bytes w = w % 256 ∷ w / 256 % 256 ∷ w / 65536 % 256 ∷ w / 16777216 % 256 ∷ []

abbrev pub le_word : ℕ → ℕ → ℕ → ℕ → ℕ
le_word a b c d = a + 256 * b + 65536 * c + 16777216 * d

abbrev pub header_bytes : ℕ → ℕ → List ℕ
header_bytes kind payload_len =
    kind % 256
    ∷ kind / 256 % 256
    ∷ kind / 65536 % 256
    ∷ kind / 16777216 % 256
    ∷ le_bytes payload_len

-- The bytes from an offset on, overwritten; and `n` bytes from an offset on.
unfoldable pub put_bytes : (ℕ → ℕ) → ℕ → List ℕ → ℕ → ℕ
put_bytes f off [] = f
put_bytes f off (b ∷ bs) = put_bytes (λ i. if off == i then b else f i) (suc off) bs

unfoldable pub get_bytes : (ℕ → ℕ) → ℕ → ℕ → List ℕ
get_bytes f off zero = []
get_bytes f off (suc n) = f off ∷ get_bytes f (suc off) n
