-- ===== src/Text/Stream/Laws.antt =====
-- Reading an integer takes something off the stream.
use fabko.Base.{
  ==_refl, ==_iff, ℕ, ◌+◌, ◌-◌, ◌*◌, ◌≤◌, ◌<◌, ℤ, Bool, true, false, ◌==◌, [], ◌∷◌, ◌≡◌, refl, ap,
  inl, inr, Option, none, some, length, Bool-cases, arith,
}
use fabko.Text.Join.{Text}
use fabko.Text.Stream.{
  same_text, is_space, is_digit, skip_spaces, more_digits, digits, with_sign, integer_at, fits,
  checked, read_integer,
}

skip_spaces-le : (s : Text) → length (skip_spaces s) ≤ length s
unfolding skip_spaces
skip_spaces-le [] = omega arith
skip_spaces-le (c ∷ s) = elim (Bool-cases (is_space c)) [
  | inl t ↦ rw t (omega (arith, skip_spaces-le s))
  | inr f ↦ rw f (omega arith)
]

more_digits-le : (acc : ℕ) (s : Text) → length (more_digits acc s).1 ≤ length s
unfolding more_digits
more_digits-le acc [] = omega arith
more_digits-le acc (c ∷ s) = elim (Bool-cases (is_digit c)) [
  | inl t ↦ rw t (omega (arith, more_digits-le (acc * 10 + (c - 48)) s))
  | inr f ↦ rw f (omega arith)
]

digits-lt : (s : Text) (n : ℕ) (rest : Text) → digits s ≡ some (n, rest) → length rest < length s
digits-lt [] n rest h = cc
digits-lt (c ∷ s) n rest h = elim (Bool-cases (is_digit c)) [
  | inl t ↦
      let q : some (more_digits (c - 48) s) ≡ some (n, rest) = rw t at h in
      let z : (more_digits (c - 48) s).1 ≡ rest = cc in
      omega (arith, ap length z, more_digits-le (c - 48) s)
  | inr f ↦ let q : none ≡ some (n, rest) = rw f at h in cc
]

with_sign-lt :
    (b : Bool) (s : Text) (v : ℤ) (rest : Text)
    → with_sign b (digits s) ≡ some (v, rest)
    → length rest < length s
with_sign-lt b s v rest h = go b (digits s) refl h
  where
    go :
        (b : Bool) (o : Option (ℕ × Text))
        → digits s ≡ o
        → with_sign b o ≡ some (v, rest)
        → length rest < length s
    go b none e q = cc
    go false (some (n, r)) e q =
        let z : r ≡ rest = cc in omega (arith, digits-lt s n r e, ap length z)
    go true (some (n, r)) e q =
        let z : r ≡ rest = cc in omega (arith, digits-lt s n r e, ap length z)

integer_at-lt :
    (s : Text) (v : ℤ) (rest : Text) → integer_at s ≡ some (v, rest) → length rest < length s
integer_at-lt [] v rest h = cc
integer_at-lt (c ∷ s) v rest h = elim (Bool-cases (c == 45)) [
  | inl t ↦ omega (arith, with_sign-lt true s v rest (rw t at h))
  | inr f ↦ elim (Bool-cases (c == 43)) [
    | inl t ↦ omega (arith, with_sign-lt false s v rest (rw t at (rw f at h)))
    | inr g ↦ with_sign-lt false (c ∷ s) v rest (rw g at (rw f at h))
  ]
]

pub read_integer-lt :
    (w : ℕ) (s : Text) (v : ℤ) (rest : Text)
    → read_integer w s ≡ (v, some rest)
    → length rest < length s
unfolding read_integer
read_integer-lt w s v rest h = go (integer_at (skip_spaces s)) refl h
  where
    go :
        (o : Option (ℤ × Text))
        → integer_at (skip_spaces s) ≡ o
        → checked w o ≡ (v, some rest)
        → length rest < length s
    go none e q = cc
    go (some (u, r)) e q = elim (Bool-cases (fits w u)) [
      | inl t ↦
          let q' : (u, some r) ≡ (v, some rest) = rw t at q in
          let z : r ≡ rest = cc in
          omega (arith, integer_at-lt (skip_spaces s) u r e, skip_spaces-le s, ap length z)
      | inr f ↦ cc (rw f at q)
    ]

pub same_text_refl : (s : Text) → same_text s s ≡ true
same_text_refl [] = refl
same_text_refl (c ∷ s) = rw (==_refl c) (same_text_refl s)

pub same_text-eq : (r s : Text) → same_text r s ≡ true → r ≡ s
same_text-eq [] [] h = refl
same_text-eq [] (d ∷ s) h = cc
same_text-eq (c ∷ r) [] h = cc
same_text-eq (c ∷ r) (d ∷ s) h = elim (Bool-cases (c == d)) [
  | inl t ↦
      let q : same_text r s ≡ true = rw t at h in
      let same : c ≡ d = (==_iff c d).0 t in rw same (ap (◌∷◌ d) (same_text-eq r s q))
  | inr f ↦ let q : false ≡ true = rw f at h in cc
]
