-- ===== src/Base/Lists.antt =====
-- Lists measured by native numbers, with Boolean tests and predicates by recursion.
use Prim.Native.Nat.{ℕ, zero, suc, ◌+◌, ◌≤◌, ◌<◌}
use mathlib.Core.Path.{◌≡◌, refl, ap, subst, sym}
use mathlib.Core.Logic.{◌⊎◌, inl, inr}
use mathlib.Core.Bool.{Bool, true, false, ◌&&◌, ◌||◌}
use mathlib.Core.Option.{Option, none, some}
use mathlib.Core.List.{List, [], ◌∷◌, ◌++◌, map}
use native.Mathlib.Omega.{arith}
use fabko.Base.Tests.{if◌then◌else◌, Bool-cases}

module _ {ℓ} {A : Type ℓ} where
  abbrev pub length : List A → ℕ
  length [] = 0
  length (x ∷ xs) = suc (length xs)

  abbrev pub get_elem? : List A → ℕ → Option A
  get_elem? [] i = none
  get_elem? (x ∷ xs) zero = some x
  get_elem? (x ∷ xs) (suc i) = get_elem? xs i

  abbrev pub is_nil : List A → Bool
  is_nil [] = true
  is_nil (x ∷ xs) = false

  abbrev pub any : (A → Bool) → List A → Bool
  any p [] = false
  any p (x ∷ xs) = p x || any p xs

  abbrev pub all : (A → Bool) → List A → Bool
  all p [] = true
  all p (x ∷ xs) = p x && all p xs

  -- The elements that pass a Boolean test.
  abbrev pub keep : (A → Bool) → List A → List A
  keep p [] = []
  keep p (x ∷ xs) = let rest = keep p xs in if p x then x ∷ rest else rest

  abbrev pub All {κ} : (A → Type κ) → List A → Type κ
  All P [] = Unit
  All P (x ∷ xs) = P x × All P xs

  pub length-append : (xs ys : List A) → length (xs ++ ys) ≡ length xs + length ys
  length-append [] ys = omega arith
  length-append (x ∷ xs) ys = omega (arith, length-append xs ys)

module _ {A : Type 0} where
  -- Membership, with the place kept.
  abbrev pub In : A → List A → Type 0
  In a [] = ⊥
  In a (x ∷ xs) = (x ≡ a) ⊎ In a xs

  pub In-append_left : (a : A) (xs ys : List A) → In a xs → In a (xs ++ ys)
  In-append_left a [] ys h = absurd h
  In-append_left a (x ∷ xs) ys (inl e) = inl e
  In-append_left a (x ∷ xs) ys (inr h) = inr (In-append_left a xs ys h)

  pub In-append_right : (a : A) (xs ys : List A) → In a ys → In a (xs ++ ys)
  In-append_right a [] ys h = h
  In-append_right a (x ∷ xs) ys h = inr (In-append_right a xs ys h)

  pub In-append_cases : (a : A) (xs ys : List A) → In a (xs ++ ys) → In a xs ⊎ In a ys
  In-append_cases a [] ys h = inr h
  In-append_cases a (x ∷ xs) ys (inl e) = inl (inl e)
  In-append_cases a (x ∷ xs) ys (inr h) = elim (In-append_cases a xs ys h) [
    | inl p ↦ inl (inr p)
    | inr q ↦ inr q
  ]

module _ {κ} {A : Type 0} (P : A → Type κ) where
  pub All-In : (xs : List A) → All P xs → (a : A) → In a xs → P a
  All-In [] h a i = absurd i
  All-In (x ∷ xs) (px, h) a (inl e) = subst P e px
  All-In (x ∷ xs) (px, h) a (inr i) = All-In xs h a i

  pub All-append : (xs ys : List A) → All P xs → All P ys → All P (xs ++ ys)
  All-append [] ys hx hy = hy
  All-append (x ∷ xs) ys hx hy = (hx.0, All-append xs ys hx.1 hy)

  pub All-of_In : (xs : List A) → ((a : A) → In a xs → P a) → All P xs
  All-of_In [] h = tt
  All-of_In (x ∷ xs) h = (h x (inl refl), All-of_In xs (λ a i. h a (inr i)))

  pub All-keep : (p : A → Bool) (xs : List A) → All P xs → All P (keep p xs)
  All-keep p [] h = tt
  All-keep p (x ∷ xs) h = ground (arith, All-keep p xs h.1)

module _ {ℓ κ μ} {A : Type ℓ} {P : A → Type κ} {Q : A → Type μ} where
  pub All-imp : (xs : List A) → ((a : A) → P a → Q a) → All P xs → All Q xs
  All-imp [] f h = tt
  All-imp (x ∷ xs) f h = (f x h.0, All-imp xs f h.1)

module _ {A : Type 0} where
  -- What `any` finds.
  pub any_elim : (p : A → Bool) (xs : List A) → any p xs ≡ true → (a : A) × In a xs × (p a ≡ true)
  any_elim p [] h = cc
  any_elim p (x ∷ xs) h = elim (Bool-cases (p x)) [
    | inl e ↦ (x, inl refl, e)
    | inr e ↦ let r = any_elim p xs (ground arith) in (r.0, inr r.1, r.2)
  ]

  pub any_intro : (p : A → Bool) (xs : List A) (a : A) → In a xs → p a ≡ true → any p xs ≡ true
  any_intro p [] a i h = absurd i
  any_intro p (x ∷ xs) a (inl e) h = rw e (ground arith)
  any_intro p (x ∷ xs) a (inr i) h = ground (arith, any_intro p xs a i h)

  pub any-false : (p : A → Bool) (xs : List A) → any p xs ≡ false → (a : A) → In a xs → p a ≡ false
  any-false p [] h a i = absurd i
  any-false p (x ∷ xs) h a (inl e) = rw (← e) (ground arith)
  any-false p (x ∷ xs) h a (inr i) = any-false p xs (ground arith) a i

  pub any_none : (p : A → Bool) (xs : List A) → ((a : A) → In a xs → p a ≡ false) → any p xs ≡ false
  any_none p [] h = refl
  any_none p (x ∷ xs) h =
      let first = h x (inl refl) in let later = any_none p xs (λ a i. h a (inr i)) in ground arith

  pub all_elim : (p : A → Bool) (xs : List A) → all p xs ≡ true → (a : A) → In a xs → p a ≡ true
  all_elim p [] h a i = absurd i
  all_elim p (x ∷ xs) h a (inl e) = rw (← e) (ground arith)
  all_elim p (x ∷ xs) h a (inr i) = all_elim p xs (ground arith) a i

  pub all_intro : (p : A → Bool) (xs : List A) → ((a : A) → In a xs → p a ≡ true) → all p xs ≡ true
  all_intro p [] h = refl
  all_intro p (x ∷ xs) h =
      let first = h x (inl refl) in let later = all_intro p xs (λ a i. h a (inr i)) in ground arith

  pub In-keep : (p : A → Bool) (xs : List A) (a : A) → In a xs → p a ≡ true → In a (keep p xs)
  In-keep p [] a i h = i
  In-keep p (x ∷ xs) a (inl e) h = rw (subst (λ y. p y ≡ true) (sym e) h) (inl e)
  In-keep p (x ∷ xs) a (inr i) h = elim (Bool-cases (p x)) [
    | inl t ↦ rw t (inr (In-keep p xs a i h))
    | inr f ↦ rw f (In-keep p xs a i h)
  ]

  pub keep-In : (p : A → Bool) (xs : List A) (a : A) → In a (keep p xs) → In a xs × (p a ≡ true)
  keep-In p [] a i = absurd i
  keep-In p (x ∷ xs) a i = elim (Bool-cases (p x)) [
    | inl t ↦
        let i' : (x ≡ a) ⊎ In a (keep p xs) = rw t at i in
        elim i' [
          | inl e ↦ (inl e, subst (λ y. p y ≡ true) e t)
          | inr j ↦ let r = keep-In p xs a j in (inr r.0, r.1)
        ]
    | inr f ↦ let i' : In a (keep p xs) = rw f at i in let r = keep-In p xs a i' in (inr r.0, r.1)
  ]

  pub length-keep-le : (p : A → Bool) (xs : List A) → length (keep p xs) ≤ length xs
  length-keep-le p [] = omega arith
  length-keep-le p (x ∷ xs) = ground (arith, length-keep-le p xs)

  pub keep_mono :
      (p p' : A → Bool) (xs : List A)
      → ((a : A) → p' a ≡ true → p a ≡ true)
      → length (keep p' xs) ≤ length (keep p xs)
  keep_mono p p' [] h = omega arith
  keep_mono p p' (x ∷ xs) h = ground (arith, h x, keep_mono p p' xs h)

  -- A stronger test that drops an element keeps fewer.
  pub keep_shrinks :
      (p p' : A → Bool) (xs : List A) (a : A)
      → ((b : A) → p' b ≡ true → p b ≡ true)
      → In a xs
      → p a ≡ true
      → p' a ≡ false
      → length (keep p' xs) < length (keep p xs)
  keep_shrinks p p' [] a h i t f = absurd i
  keep_shrinks p p' (x ∷ xs) a h (inl e) t f =
      let t' : p x ≡ true = subst (λ y. p y ≡ true) (sym e) t in
      let f' : p' x ≡ false = subst (λ y. p' y ≡ false) (sym e) f in
      ground (arith, keep_mono p p' xs h)
  keep_shrinks p p' (x ∷ xs) a h (inr i) t f = ground (arith, h x, keep_shrinks p p' xs a h i t f)

module _ {A B : Type 0} (f : A → B) where
  pub In-map : (xs : List A) (a : A) → In a xs → In (f a) (map f xs)
  In-map [] a m = absurd m
  In-map (x ∷ xs) a (inl q) = inl (ap f q)
  In-map (x ∷ xs) a (inr m) = inr (In-map xs a m)

  pub map-In : (xs : List A) (b : B) → In b (map f xs) → (a : A) × In a xs × (f a ≡ b)
  map-In [] b m = absurd m
  map-In (x ∷ xs) b (inl q) = (x, inl refl, q)
  map-In (x ∷ xs) b (inr m) = let (a, k, q) = map-In xs b m in (a, inr k, q)

pub length-map : {A B : Type 0} (f : A → B) (xs : List A) → length (map f xs) ≡ length xs
length-map f [] = refl
length-map f (x ∷ xs) = ap suc (length-map f xs)
