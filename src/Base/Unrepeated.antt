-- ===== src/Base/Unrepeated.antt =====
-- Lists without repetition.
use Prim.Native.Nat.{ℕ, ◌≤◌}
use mathlib.Core.Path.{◌≡◌, refl, sym, ◌∙◌}
use mathlib.Core.Logic.{◌≢◌, inl, inr}
use mathlib.Core.Bool.{Bool}
use mathlib.Core.List.{List, [], ◌∷◌, ◌++◌}
use fabko.Base.Tests.{Bool-cases, eq_cases}
use fabko.Base.Lists.{In, In-append_cases, keep, keep-In, length}
use native.Mathlib.Omega.{arith}

module _ {A : Type 0} where
  abbrev pub Distinct : List A → Type 0
  Distinct [] = Unit
  Distinct (x ∷ xs) = (¬ In x xs) × Distinct xs

  pub Distinct-keep : (p : A → Bool) (xs : List A) → Distinct xs → Distinct (keep p xs)
  Distinct-keep p [] h = tt
  Distinct-keep p (x ∷ xs) h = elim (Bool-cases (p x)) [
    | inl y ↦ rw y (λ m. h.0 (keep-In p xs x m).0, Distinct-keep p xs h.1)
    | inr y ↦ rw y (Distinct-keep p xs h.1)
  ]

  pub Distinct-append_one :
      (xs : List A) (a : A) → Distinct xs → ¬ In a xs → Distinct (xs ++ a ∷ [])
  Distinct-append_one [] a h n = (λ m. m, tt)
  Distinct-append_one (x ∷ xs) a h n = (
    λ m. elim (In-append_cases x xs (a ∷ []) m) [
      | inl i ↦ h.0 i
      | inr i ↦ elim i [ inl q ↦ n (inl (sym q)) | inr z ↦ z ]
    ],
    Distinct-append_one xs a h.1 (λ m. n (inr m)),
  )

  pub length_of_In : (xs : List A) (a : A) → In a xs → 1 ≤ length xs
  length_of_In [] a m = absurd m
  length_of_In (x ∷ xs) a m = omega arith

  -- Two elements of a list of length one.
  pub In-one : (xs : List A) (a b : A) → length xs ≤ 1 → In a xs → In b xs → a ≡ b
  In-one [] a b h m n = absurd m
  In-one (x ∷ []) a b h (inl p) (inl q) = sym p ∙ q
  In-one (x ∷ []) a b h (inl p) (inr n) = absurd n
  In-one (x ∷ []) a b h (inr m) n = absurd m
  In-one (x ∷ y ∷ xs) a b h m n = absurd (omega (arith, h))

  pub In-first : (xs : List A) → 1 ≤ length xs → (a : A) × In a xs
  In-first [] h = absurd (omega (arith, h))
  In-first (x ∷ xs) h = (x, inl refl)

-- A list with two elements has one that is not the number.
pub another : (xs : List ℕ) (a : ℕ) → Distinct xs → 2 ≤ length xs → (b : ℕ) × In b xs × (b ≢ a)
another [] a d h = absurd (omega (arith, h))
another (x ∷ []) a d h = absurd (omega (arith, h))
another (x ∷ y ∷ xs) a d h = elim (eq_cases x a) [
  | inl q ↦ (y, inr (inl refl), λ z. d.0 (inl (z ∙ sym q)))
  | inr n ↦ (x, inl refl, n)
]
