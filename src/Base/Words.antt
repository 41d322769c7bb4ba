-- ===== src/Base/Words.antt =====
-- The words over an alphabet up to a length, and the length of a list without repetition.
use Prim.Native.Nat.{ℕ, zero, suc, ◌*◌, ◌≤◌, ◌<◌}
use mathlib.Core.Path.{◌≡◌, refl, ◌∙◌, ap, subst}
use mathlib.Core.Logic.{inl, inr}
use mathlib.Core.Bool.{true, not}
use mathlib.Core.List.{List, [], ◌∷◌, ◌++◌, map}
use fabko.Base.Tests.{◌==◌, ==_refl, ==_ne}
use fabko.Base.Lists.{
  length, length-append, length-map, In, In-append_left, In-append_right, In-map, keep, In-keep,
  keep_shrinks, length-keep-le,
}
use fabko.Base.Unrepeated.{Distinct}
use native.Mathlib.Omega.{arith}

-- The number of words over so many letters up to a length.
unfoldable pub word_count : ℕ → ℕ → ℕ
word_count letters zero = 1
word_count letters (suc n) = suc (letters * word_count letters n)

module _ {A : Type 0} where
  -- Each of the words with each of the letters before it.
  unfoldable pub prefixed : List A → List (List A) → List (List A)
  prefixed [] ws = []
  prefixed (a ∷ alphabet) ws = map (◌∷◌ a) ws ++ prefixed alphabet ws

  unfoldable pub words : List A → ℕ → List (List A)
  unfolding prefixed
  words alphabet zero = [] ∷ []
  words alphabet (suc n) = [] ∷ prefixed alphabet (words alphabet n)

  length-prefixed :
      (alphabet : List A) (ws : List (List A))
      → length (prefixed alphabet ws) ≡ length alphabet * length ws
  unfolding prefixed
  length-prefixed [] ws = omega arith
  length-prefixed (a ∷ alphabet) ws =
      let ih = length-prefixed alphabet ws in
      let split = length-append (map (◌∷◌ a) ws) (prefixed alphabet ws) in
      grind (arith, length-map (◌∷◌ a) ws)

  pub length-words :
      (alphabet : List A) (n : ℕ) → length (words alphabet n) ≡ word_count (length alphabet) n
  unfolding words word_count
  length-words alphabet zero = refl
  length-words alphabet (suc n) = ap suc (
      length-prefixed alphabet (words alphabet n)
      ∙ ap (λ k. length alphabet * k) (length-words alphabet n))

  In-prefixed :
      (alphabet : List A) (ws : List (List A)) (a : A) (w : List A)
      → In a alphabet
      → In w ws
      → In (a ∷ w) (prefixed alphabet ws)
  unfolding prefixed
  In-prefixed [] ws a w i m = absurd i
  In-prefixed (b ∷ alphabet) ws a w (inl q) m =
      rw (← q)
        (In-append_left (b ∷ w) (map (◌∷◌ b) ws) (prefixed alphabet ws) (In-map (◌∷◌ b) ws w m))
  In-prefixed (b ∷ alphabet) ws a w (inr i) m =
      In-append_right (a ∷ w) (map (◌∷◌ b) ws) (prefixed alphabet ws)
        (In-prefixed alphabet ws a w i m)

  pub In-words :
      (alphabet : List A) (n : ℕ) (w : List A)
      → length w ≤ n
      → ((a : A) → In a w → In a alphabet)
      → In w (words alphabet n)
  unfolding words
  In-words alphabet zero [] le h = inl refl
  In-words alphabet zero (a ∷ w) le h = absurd (omega (arith, le))
  In-words alphabet (suc n) [] le h = inl refl
  In-words alphabet (suc n) (a ∷ w) le h = inr (
      In-prefixed alphabet (words alphabet n) a w (h a (inl refl))
        (In-words alphabet n w (omega (arith, le)) (λ b i. h b (inr i))))

-- A list without repetition is no longer than one that has its elements.
pub length-le_Distinct :
    (xs ys : List ℕ) → Distinct xs → ((a : ℕ) → In a xs → In a ys) → length xs ≤ length ys
length-le_Distinct [] ys d h = omega arith
length-le_Distinct (x ∷ xs) ys d h =
    let rest = keep (λ y. not (y == x)) ys in
    let shorter : length rest < length (keep (λ y. true) ys) =
      keep_shrinks (λ y. true) (λ y. not (y == x)) ys x (λ b q. refl) (h x (inl refl)) refl
        (rw (==_refl x) refl) in
    let ih : length xs ≤ length rest = length-le_Distinct xs rest d.1 (λ a i.
      In-keep (λ y. not (y == x)) ys a (h a (inr i))
        (rw (==_ne a x (λ q. d.0 (subst (λ z. In z xs) q i))) refl)) in
    omega (arith, shorter, ih, length-keep-le (λ y. true) ys)
