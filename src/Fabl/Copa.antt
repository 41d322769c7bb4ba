-- ===== src/Fabl/Copa.antt =====
-- The parser combinators `fil::copa` that the grammar is written with. They are not part of the
-- repository: they are a parameter, with the laws that the grammar relies on.
pub mod Laws
use fabko.Base.{
  ℕ, ◌<◌, ℤ, false, List, [], ◌∷◌, ◌++◌, Option, none, some, length, ◌≡◌, ◌==◌, if◌then◌else◌,
}
use fabko.Text.Join.{Text}
use fabko.Text.Stream.{is_space}
use fabko.Text.Split.{starts_with, drop}

-- A text at the start of another one.
abbrev pub matched : Text → Text → Option (Text × Text)
matched t s = if starts_with s t then some (t, drop (length t) s) else none

abbrev pub matched_char : ℕ → Text → Option (ℕ × Text)
matched_char d [] = none
matched_char d (c ∷ s) = if c == d then some (c, s) else none

abbrev pub and_then {ℓ κ} :
    {A : Type ℓ}
    → {B : Type κ} → Option (A × Text)
    → (A → Text → Option (B × Text))
    → Option (B × Text)
and_then none f = none
and_then (some (a, s)) f = f a s

abbrev pub or_run {ℓ} : {A : Type ℓ} → Option (A × Text) → Option (A × Text) → Option (A × Text)
or_run none q = q
or_run (some r) q = some r

abbrev pub may_run {ℓ} : {A : Type ℓ} → Text → Option (A × Text) → Option (Option A × Text)
may_run s none = some (none, s)
may_run s (some (a, rest)) = some (some a, rest)

-- A rule reads from the start of a text, gives what its sink receives, and leaves a text; `skip` is
-- what a matcher passes over first.
pub record Copa : Type 1 where
  pub Rule : Type 0 → Type 0
  pub run : {A : Type 0} → Rule A → Text → Option (A × Text)
  pub skip : Text → Text
  pub match_string : Text → Rule Text
  pub match_char : ℕ → Rule ℕ
  pub match_identifier : Rule Text
  pub match_number : Rule ℤ
  -- `+`, `|`, and what hands the result on.
  pub both : {A B : Type 0} → Rule A → Rule B → Rule (A × B)
  pub either : {A : Type 0} → Rule A → Rule A → Rule A
  pub emit : {A B : Type 0} → (A → B) → Rule A → Rule B
  pub may : {A : Type 0} → Rule A → Rule (Option A)
  pub list : {A : Type 0} → Rule A → Rule (List A)
  pub bracketed : {A : Type 0} → Rule A → Rule A
  pub parenthesised : {A : Type 0} → Rule A → Rule A
  -- A grammar that is named in its own rules.
  pub recursive : {A : Type 0} → (Rule A → Rule A) → Rule A
  -- Which texts are identifiers, and which are written for a number.
  pub IsIdentifier : Text → Type 0
  pub IsNumber : Text → ℤ → Type 0
  pub skip_space : (s : Text) → skip (32 ∷ s) ≡ skip s
  pub skip_other : (c : ℕ) (s : Text) → is_space c ≡ false → skip (c ∷ s) ≡ c ∷ s
  pub run-match_string : (t s : Text) → run (match_string t) s ≡ matched t (skip s)
  pub run-match_char : (c : ℕ) (s : Text) → run (match_char c) s ≡ matched_char c (skip s)
  pub IsIdentifier-start :
      (x : Text) → IsIdentifier x → (d : ℕ) × (t : Text) × (x ≡ d ∷ t) × (is_space d ≡ false)
  pub run-match_identifier :
      (x s : Text) → IsIdentifier x → run match_identifier (32 ∷ x ++ 32 ∷ s) ≡ some (x, 32 ∷ s)
  pub run-match_number :
      (t s : Text) (n : ℤ) → IsNumber t n → run match_number (32 ∷ t ++ 32 ∷ s) ≡ some (n, 32 ∷ s)
  pub run-both :
      {A B : Type 0} (r : Rule A) (q : Rule B) (s : Text)
      → run (both r q) s
        ≡ and_then (run r s) (λ a s'. and_then (run q s') (λ b s''. some ((a, b), s'')))
  pub run-either :
      {A : Type 0} (r q : Rule A) (s : Text) → run (either r q) s ≡ or_run (run r s) (run q s)
  pub run-emit :
      {A B : Type 0} (f : A → B) (r : Rule A) (s : Text)
      → run (emit f r) s ≡ and_then (run r s) (λ a s'. some (f a, s'))
  pub run-may : {A : Type 0} (r : Rule A) (s : Text) → run (may r) s ≡ may_run s (run r s)
  pub run-list_end :
      {A : Type 0} (r : Rule A) (s : Text) → run r s ≡ none → run (list r) s ≡ some ([], s)
  pub run-list_more :
      {A : Type 0} (r : Rule A) (s s' s'' : Text) (a : A) (rest : List A)
      → run r s ≡ some (a, s')
      → length s' < length s
      → run (list r) s' ≡ some (rest, s'')
      → run (list r) s ≡ some (a ∷ rest, s'')
  pub run-bracketed :
      {A : Type 0} (r : Rule A) (s : Text)
      → run (bracketed r) s
        ≡ run (emit (λ x. x.1.0) (both (match_char 123) (both r (match_char 125)))) s
