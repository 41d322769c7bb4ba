-- ===== src/Examples/Store.antt =====
-- A list serves as a structure of arrays, so the laws of `Soa` can hold: the id of a row is its place.
use fabko.Base.{
  ℕ, zero, suc, ◌+◌, ◌≤◌, ◌<◌, ◌≡◌, refl, inl, inr, List, [], ◌∷◌, ◌++◌, In, length, ◌==◌,
  if◌then◌else◌, arith, ap, subst,
}
use fabko.Soa.{Soa}

module _ {A : Type 0} where
  abbrev pub ids_from : ℕ → List A → List ℕ
  ids_from k [] = []
  ids_from k (x ∷ xs) = k ∷ ids_from (suc k) xs

  abbrev pub get_or : A → List A → ℕ → A
  get_or d [] i = d
  get_or d (x ∷ xs) zero = x
  get_or d (x ∷ xs) (suc i) = get_or d xs i

  abbrev pub set : List A → ℕ → A → List A
  set [] i v = []
  set (x ∷ xs) zero v = v ∷ xs
  set (x ∷ xs) (suc i) v = x ∷ set xs i v

  pub In-ids_from : (k i : ℕ) (xs : List A) → In i (ids_from k xs) → (k ≤ i) × (i < k + length xs)
  In-ids_from k i [] h = absurd h
  In-ids_from k i (x ∷ xs) (inl e) = omega arith
  In-ids_from k i (x ∷ xs) (inr h) = omega (arith, In-ids_from (suc k) i xs h)

  pub ids_from-append :
      (k : ℕ) (xs : List A) (v : A)
      → ids_from k (xs ++ v ∷ []) ≡ ids_from k xs ++ (k + length xs) ∷ []
  ids_from-append k [] v = ap (λ (n : ℕ). n ∷ []) (omega arith)
  ids_from-append k (x ∷ xs) v = ap (◌∷◌ k) (
      subst (λ (n : ℕ). ids_from (suc k) (xs ++ v ∷ []) ≡ ids_from (suc k) xs ++ n ∷ [])
        (omega arith) (ids_from-append (suc k) xs v))

  pub ids_from-set : (k : ℕ) (xs : List A) (i : ℕ) (v : A) → ids_from k (set xs i v) ≡ ids_from k xs
  ids_from-set k [] i v = refl
  ids_from-set k (x ∷ xs) zero v = refl
  ids_from-set k (x ∷ xs) (suc i) v = ap (◌∷◌ k) (ids_from-set (suc k) xs i v)

  pub get_or-append_new : (d : A) (xs : List A) (v : A) → get_or d (xs ++ v ∷ []) (length xs) ≡ v
  get_or-append_new d [] v = refl
  get_or-append_new d (x ∷ xs) v = get_or-append_new d xs v

  pub get_or-append_old :
      (d : A) (xs : List A) (v : A) (i : ℕ)
      → i < length xs
      → get_or d (xs ++ v ∷ []) i ≡ get_or d xs i
  get_or-append_old d [] v i h = absurd (omega arith)
  get_or-append_old d (x ∷ xs) v zero h = refl
  get_or-append_old d (x ∷ xs) v (suc i) h = get_or-append_old d xs v i (omega arith)

  pub get_or-set :
      (d : A) (xs : List A) (i j : ℕ) (v : A)
      → i < length xs
      → get_or d (set xs i v) j ≡ (if i == j then v else get_or d xs j)
  get_or-set d [] i j v h = absurd (omega arith)
  get_or-set d (x ∷ xs) zero zero v h = ground arith
  get_or-set d (x ∷ xs) zero (suc j) v h = ground arith
  get_or-set d (x ∷ xs) (suc i) zero v h = ground arith
  get_or-set d (x ∷ xs) (suc i) (suc j) v h = ground (arith, get_or-set d xs i j v)

abbrev pub list_soa : {A : Type 0} → A → Soa A
list_soa {A} d = record {
  Store = List A;
  empty = [];
  insert = λ s a. (s ++ a ∷ [], length s);
  ids = ids_from 0;
  at = get_or d;
  put = set;
  ids-empty = refl;
  ids-insert = λ s a.
      subst (λ (n : ℕ). ids_from 0 (s ++ a ∷ []) ≡ ids_from 0 s ++ n ∷ []) (omega arith)
        (ids_from-append 0 s a);
  insert_fresh = λ s a h. omega (arith, In-ids_from 0 (length s) s h);
  at-insert_new = λ s a. get_or-append_new d s a;
  at-insert_old = λ s a i h. get_or-append_old d s a i (omega (arith, In-ids_from 0 i s h));
  ids-put = λ s i a. ids_from-set 0 s i a;
  at-put = λ s i j a h. get_or-set d s i j a (omega (arith, In-ids_from 0 i s h));
}
