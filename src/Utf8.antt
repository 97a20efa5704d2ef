-- ===== src/Utf8.antt =====
-- kernel/kernel/src/bootparse.rs: `display_utf8_lossy`, and what it uses of the standard library,
-- `str::from_utf8` and `Utf8Chunks`. A text is the list of its bytes. A piece that is no character ends
-- before the first byte that cannot go on with it, as the documentation of `Utf8Chunks` says.
use corrosios.Base.{
  ℕ, zero, suc, ◌≡◌, refl, ap, Bool, true, false, List, [], ◌∷◌, ◌++◌, ltb, leb, ◌==◌, ◌&&◌,
  if◌then◌else◌, arith,
}

-- Whether so many continuation bytes follow, and how many of them do.
abbrev follow : ℕ → List ℕ → Bool × ℕ
follow zero xs = (true, 0)
follow (suc n) [] = (false, 0)
follow (suc n) (x ∷ xs) =
    let (whole, count) = follow n xs in
    if leb 128 x && leb x 191 then (whole, suc count) else (false, 0)

-- The same where the first of them is in a range and `n` more follow.
abbrev follow_from : (lo hi n : ℕ) → List ℕ → Bool × ℕ
follow_from lo hi n [] = (false, 0)
follow_from lo hi n (x ∷ xs) =
    let (whole, count) = follow n xs in
    if leb lo x && leb x hi then (whole, suc count) else (false, 0)

-- Whether a byte and those behind it begin with a character, and how many of the bytes behind it
-- belong to the character, or to the piece that is none.
unfoldable pub sequence : ℕ → List ℕ → Bool × ℕ
sequence x xs =
    if ltb x 128
    then (true, 0)
    else if leb 194 x && leb x 223
    then follow_from 128 191 0 xs
    else if x == 224
    then follow_from 160 191 1 xs
    else if x == 237
    then follow_from 128 159 1 xs
    else if leb 225 x && leb x 239
    then follow_from 128 191 1 xs
    else if x == 240
    then follow_from 144 191 2 xs
    else if leb 241 x && leb x 243
    then follow_from 128 191 2 xs
    else if x == 244
    then follow_from 128 143 2 xs
    else (false, 0)

-- `str::from_utf8(buf).is_ok()`, where so many bytes of the character that is read are still to come.
abbrev is_utf8_from : ℕ → List ℕ → Bool
is_utf8_from n [] = true
is_utf8_from (suc n) (x ∷ xs) = is_utf8_from n xs
is_utf8_from zero (x ∷ xs) =
    let (whole, n) = sequence x xs in let rest = is_utf8_from n xs in whole && rest

unfoldable pub is_utf8 : List ℕ → Bool
is_utf8 buf = is_utf8_from 0 buf

-- U+FFFD
abbrev replacement_character : List ℕ
replacement_character = 239 ∷ 191 ∷ 189 ∷ []

-- The valid parts of the chunks, each invalid part replaced, where so many bytes of a character, which
-- are kept, or of an invalid part, which are not, are still to come.
abbrev display_from : Bool → ℕ → List ℕ → List ℕ
display_from keep n [] = []
display_from true (suc n) (x ∷ xs) = x ∷ display_from true n xs
display_from false (suc n) (x ∷ xs) = display_from false n xs
display_from keep zero (x ∷ xs) =
    let (whole, n) = sequence x xs in
    let rest = display_from whole n xs in (if whole then x ∷ [] else replacement_character) ++ rest

unfoldable pub display_utf8_lossy : List ℕ → List ℕ
display_utf8_lossy buf = display_from true 0 buf

-- `é` in two bytes, then a piece of three bytes that lacks its last one, a stray byte and `a`.
display_utf8_lossy_test :
    display_utf8_lossy (195 ∷ 169 ∷ 226 ∷ 130 ∷ 255 ∷ 97 ∷ [])
    ≡ 195 ∷ 169 ∷ 239 ∷ 191 ∷ 189 ∷ 239 ∷ 191 ∷ 189 ∷ 97 ∷ []
unfolding display_utf8_lossy sequence
display_utf8_lossy_test = refl

display_from-whole : (n : ℕ) (xs : List ℕ) → is_utf8_from n xs ≡ true → display_from true n xs ≡ xs
display_from-whole zero [] valid = refl
display_from-whole (suc n) [] valid = refl
display_from-whole (suc n) (x ∷ xs) valid = ap (λ l. x ∷ l) (display_from-whole n xs valid)
display_from-whole zero (x ∷ xs) valid =
    from (λ n v. display_from-whole n xs v) (sequence x xs) valid
  where
    from :
        ((n : ℕ) → is_utf8_from n xs ≡ true → display_from true n xs ≡ xs)
        → (read : Bool × ℕ) → (read.0 && is_utf8_from (read.1) xs) ≡ true
        → (if read.0 then x ∷ [] else replacement_character) ++ display_from (read.0) (read.1) xs
          ≡ x ∷ xs
    from later (true, n) valid = ap (λ l. x ∷ l) (later n valid)
    from later (false, n) valid = absurd (ground arith)

-- Valid UTF-8 is displayed as it is.
pub display_utf8_lossy-valid : (buf : List ℕ) → is_utf8 buf ≡ true → display_utf8_lossy buf ≡ buf
unfolding is_utf8 display_utf8_lossy
display_utf8_lossy-valid buf valid = display_from-whole 0 buf valid
