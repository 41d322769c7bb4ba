-- ===== src/Text/Stream.antt =====
-- What the reader of fabko/compiler/backend/sat/solver.cpp takes from `std::istringstream` and
-- `std::getline`, in the C locale. A stream is the text that is left of it.
pub mod Laws
use fabko.Base.{
  ℕ, zero, suc, minus, ◌+◌, ◌-◌, ◌*◌, ◌^◌, ℤ, pos, negsuc, Bool, true, false, ◌&&◌, ◌||◌,
  if◌then◌else◌, List, [], ◌∷◌, ◌++◌, Option, none, some, ◌==◌, leb,
}
use fabko.Text.Join.{Text}

abbrev pub same_text : Text → Text → Bool
same_text [] [] = true
same_text [] (d ∷ s) = false
same_text (c ∷ r) [] = false
same_text (c ∷ r) (d ∷ s) = (c == d) && same_text r s

-- A space, or a control character from tab to carriage return.
abbrev pub is_space : ℕ → Bool
is_space c = c == 32 || (leb 9 c && leb c 13)

abbrev pub is_digit : ℕ → Bool
is_digit c = leb 48 c && leb c 57

unfoldable pub skip_spaces : Text → Text
skip_spaces [] = []
skip_spaces (c ∷ s) = let rest = skip_spaces s in if is_space c then rest else c ∷ s

-- The characters up to a space, and what follows them.
unfoldable pub word_and_rest : Text → Text × Text
word_and_rest [] = ([], [])
word_and_rest (c ∷ s) =
    let (w, rest) = word_and_rest s in if is_space c then ([], c ∷ s) else (c ∷ w, rest)

-- `>>` into a string: `none` where it fails.
abbrev pub nonempty_word : Text × Text → Option (Text × Text)
nonempty_word ([], rest) = none
nonempty_word (c ∷ w, rest) = some (c ∷ w, rest)

unfoldable pub read_word : Text → Option (Text × Text)
unfolding skip_spaces word_and_rest
read_word s = nonempty_word (word_and_rest (skip_spaces s))

-- The value of a run of digits after those of value `acc`, and what follows them.
unfoldable pub more_digits : ℕ → Text → ℕ × Text
more_digits acc [] = (acc, [])
more_digits acc (c ∷ s) =
    let more = more_digits (acc * 10 + (c - 48)) s in if is_digit c then more else (acc, c ∷ s)

abbrev pub digits : Text → Option (ℕ × Text)
digits [] = none
digits (c ∷ s) = if is_digit c then some (more_digits (c - 48) s) else none

-- The value of what a sign and digits say.
abbrev pub with_sign : Bool → Option (ℕ × Text) → Option (ℤ × Text)
with_sign b none = none
with_sign false (some (n, rest)) = some (pos n, rest)
with_sign true (some (n, rest)) = some (minus n, rest)

abbrev pub integer_at : Text → Option (ℤ × Text)
integer_at [] = none
integer_at (c ∷ s) =
    if c == 45
    then with_sign true (digits s)
    else if c == 43
    then with_sign false (digits s)
    else with_sign false (digits (c ∷ s))

-- Whether a value has its place in a signed integer of `w` bits.
abbrev pub fits : ℕ → ℤ → Bool
fits w (pos n) = leb (suc n) (2 ^ (w - 1))
fits w (negsuc n) = leb (suc n) (2 ^ (w - 1))

-- The greatest or the least value, for one out of range.
abbrev pub nearest_fit : ℕ → ℤ → ℤ
nearest_fit w (pos n) = pos (2 ^ (w - 1) - 1)
nearest_fit w (negsuc n) = negsuc (2 ^ (w - 1) - 1)

-- `>>` into a signed integer of `w` bits: the value that it stores, with the stream, or with `none`
-- where it fails.
abbrev pub checked : ℕ → Option (ℤ × Text) → ℤ × Option Text
checked w none = (pos 0, none)
checked w (some (v, rest)) = if fits w v then (v, some rest) else (nearest_fit w v, none)

unfoldable pub read_integer : ℕ → Text → ℤ × Option Text
unfolding skip_spaces more_digits
read_integer w s = checked w (integer_at (skip_spaces s))

-- The lines that `getline` gives of a file.
abbrev pub add_char : ℕ → List Text → List Text
add_char c [] = (c ∷ []) ∷ []
add_char c (l ∷ ls) = (c ∷ l) ∷ ls

unfoldable pub lines_of : Text → List Text
lines_of [] = []
lines_of (c ∷ s) = let rest = lines_of s in if c == 10 then [] ∷ rest else add_char c rest
