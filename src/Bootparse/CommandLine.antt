-- ===== src/Bootparse/CommandLine.antt =====
-- kernel/kernel/src/bootparse.rs: what a command line is parsed into.
use corrosios.Base.{
  ℕ, suc, ◌+◌, ◌≡◌, refl, ap, ◌∙◌, arith, Option, none, some, Bool, true, false, List, [], ◌∷◌,
  ◌++◌, ◌==◌, map, length, inl, inr, Bool-cases, Option-cases,
}
use corrosios.Utf8.{is_utf8, display_utf8_lossy-valid}
use corrosios.Bootparse.{
  equals_sign, CommandLineArg, position, take, drop, parse_arg, is_ascii_whitespace, split,
  keep_nonempty, args, last_value, get_arg_value, print_arg, print,
}

split_some :
    (p : ℕ → Bool) (xs : List ℕ) → (h : List ℕ) × (t : List (List ℕ)) × (split p xs ≡ h ∷ t)
unfolding split
split_some p [] = ([], [], refl)
split_some p (x ∷ xs) = elim (Bool-cases (p x)) [
  | inl delim ↦ ([], split p xs, rw delim refl)
  | inr other ↦ let (h, t, e) = split_some p xs in (x ∷ h, t, rw (other, e) refl)
]

split-delim :
    (p : ℕ → Bool) (w : ℕ) (xs ys : List ℕ)
    → p w ≡ true
    → split p (xs ++ (w ∷ ys)) ≡ split p xs ++ split p ys
unfolding split
split-delim p w [] ys delim = rw delim refl
split-delim p w (x ∷ xs) ys delim =
    let ih = split-delim p w xs ys delim in
    elim (Bool-cases (p x)) [
      | inl here ↦ rw (here, ih) refl
      | inr other ↦ let (h, t, e) = split_some p xs in rw (other, ih, e) refl
    ]

keep_nonempty-append :
    (xs ys : List (List ℕ)) → keep_nonempty (xs ++ ys) ≡ keep_nonempty xs ++ keep_nonempty ys
keep_nonempty-append [] ys = refl
keep_nonempty-append ([] ∷ xs) ys = keep_nonempty-append xs ys
keep_nonempty-append ((x ∷ l) ∷ xs) ys = ap (λ r. (x ∷ l) ∷ r) (keep_nonempty-append xs ys)

map-append : {A B : Type 0} (f : A → B) (xs ys : List A) → map f (xs ++ ys) ≡ map f xs ++ map f ys
map-append f [] ys = refl
map-append f (x ∷ xs) ys = ap (λ r. f x ∷ r) (map-append f xs ys)

args-append :
    (xs ys : List ℕ) (w : ℕ)
    → is_ascii_whitespace w ≡ true
    → args (xs ++ (w ∷ ys)) ≡ args xs ++ args ys
unfolding args
args-append xs ys w space =
    rw
      (
        split-delim is_ascii_whitespace w xs ys space,
        keep_nonempty-append (split is_ascii_whitespace xs) (split is_ascii_whitespace ys),
      )
      (map-append parse_arg (keep_nonempty (split is_ascii_whitespace xs))
        (keep_nonempty (split is_ascii_whitespace ys)))

-- The later of two values, if there is one.
abbrev later_or : Option (List ℕ) → Option (List ℕ) → Option (List ℕ)
later_or none earlier = earlier
later_or (some v) earlier = some v

last_value-append :
    (name : List ℕ) (xs ys : List CommandLineArg)
    → last_value name (xs ++ ys) ≡ later_or (last_value name ys) (last_value name xs)
last_value-append name [] ys = elim (Option-cases (last_value name ys)) [
  | inl absent ↦ rw absent refl
  | inr (v, found) ↦ rw found refl
]
last_value-append name (x ∷ xs) ys =
    let ih = last_value-append name xs ys in
    elim (Option-cases (last_value name ys)) [
      | inl absent ↦ rw (ih, absent) refl
      | inr (v, found) ↦ rw (ih, found) refl
    ]

-- Where a line goes on behind a whitespace character, an argument has the value that the further text
-- gives it, and else the value that it had.
pub get_arg_value-append :
    (xs ys name : List ℕ) (w : ℕ)
    → is_ascii_whitespace w ≡ true
    → get_arg_value (xs ++ (w ∷ ys)) name ≡ later_or (get_arg_value ys name) (get_arg_value xs name)
unfolding get_arg_value
get_arg_value-append xs ys name w space =
    rw (args-append xs ys w space) (last_value-append name (args xs) (args ys))

abbrev NoneOf : (ℕ → Bool) → List ℕ → Type 0
NoneOf p [] = Unit {0}
NoneOf p (x ∷ xs) = (p x ≡ false) × NoneOf p xs

abbrev is_equals_sign : ℕ → Bool
is_equals_sign b = b == equals_sign

-- An argument that can be written: no whitespace, no `=` in the name, and valid UTF-8.
pub record IsArg (a : CommandLineArg) : Type 0 where
  pub name_whole : NoneOf is_ascii_whitespace a.name
  pub name_free : NoneOf is_equals_sign a.name
  pub value_whole : NoneOf is_ascii_whitespace a.value
  pub name_text : is_utf8 a.name ≡ true
  pub value_text : is_utf8 a.value ≡ true

abbrev AllArgs : List CommandLineArg → Type 0
AllArgs [] = Unit {0}
AllArgs (a ∷ rest) = IsArg a × AllArgs rest

split-whole : (p : ℕ → Bool) (xs : List ℕ) → NoneOf p xs → split p xs ≡ xs ∷ []
unfolding split
split-whole p [] none_of = refl
split-whole p (x ∷ xs) (other, none_of) = rw (other, split-whole p xs none_of) refl

NoneOf-append : (p : ℕ → Bool) (xs ys : List ℕ) → NoneOf p xs → NoneOf p ys → NoneOf p (xs ++ ys)
NoneOf-append p [] ys h k = k
NoneOf-append p (x ∷ xs) ys (other, h) k = (other, NoneOf-append p xs ys h k)

-- The parts before and behind the first `=`.
position-sign :
    (name value : List ℕ)
    → NoneOf is_equals_sign name
    → position is_equals_sign (name ++ (equals_sign ∷ value)) ≡ some (length name)
position-sign [] value h = refl
position-sign (x ∷ name) value (other, h) = rw (other, position-sign name value h) refl

take-append : (xs ys : List ℕ) → take (length xs) (xs ++ ys) ≡ xs
take-append [] ys = refl
take-append (x ∷ xs) ys = ap (λ l. x ∷ l) (take-append xs ys)

drop-append : (xs ys : List ℕ) (y : ℕ) → drop (suc (length xs)) (xs ++ (y ∷ ys)) ≡ ys
drop-append [] ys y = refl
drop-append (x ∷ xs) ys y = drop-append xs ys y

-- An argument in valid UTF-8 is written byte for byte.
print_arg-valid : (a : CommandLineArg) → IsArg a → print_arg a ≡ a.name ++ (equals_sign ∷ a.value)
unfolding print_arg
print_arg-valid a is =
    rw
      (display_utf8_lossy-valid a.name is.name_text, display_utf8_lossy-valid a.value is.value_text)
      refl

parse_arg_whole :
    (a : CommandLineArg)
    → NoneOf is_equals_sign a.name
    → parse_arg (a.name ++ (equals_sign ∷ a.value)) ≡ a
unfolding parse_arg
parse_arg_whole a free =
    let next : length a.name + 1 ≡ suc (length a.name) = omega arith in
    rw
      (
        parse_arg,
        position-sign a.name a.value free,
        take-append a.name (equals_sign ∷ a.value),
        next,
        drop-append a.name a.value equals_sign,
      )
      refl

keep_one : (xs ys : List ℕ) (y : ℕ) → keep_nonempty ((xs ++ (y ∷ ys)) ∷ []) ≡ (xs ++ (y ∷ ys)) ∷ []
keep_one [] ys y = refl
keep_one (x ∷ xs) ys y = refl

args_one : (a : CommandLineArg) → IsArg a → args (print_arg a) ≡ a ∷ []
unfolding args
args_one a is =
    let whole : NoneOf is_ascii_whitespace (a.name ++ (equals_sign ∷ a.value)) =
      NoneOf-append is_ascii_whitespace a.name (equals_sign ∷ a.value) is.name_whole
        (refl, is.value_whole) in
    rw
      (
        print_arg-valid a is,
        split-whole is_ascii_whitespace (a.name ++ (equals_sign ∷ a.value)) whole,
        keep_one a.name a.value equals_sign,
      )
      (ap (λ l. l ∷ []) (parse_arg_whole a is.name_free))

-- Arguments in valid UTF-8 without ASCII whitespace, whose names have no `=`, are read back from what
-- `Display` writes.
pub args-print :
    (as_given : List CommandLineArg) → AllArgs as_given → args (print as_given) ≡ as_given
unfolding print args split
args-print [] all = refl
args-print (a ∷ []) (is, all) = args_one a is
args-print (a ∷ b ∷ rest) (is, all) =
    args-append (print_arg a) (print (b ∷ rest)) 32 refl
    ∙ rw (args_one a is) (ap (λ l. a ∷ l) (args-print (b ∷ rest) all))
