-- ===== src/Examples/Database.antt =====
-- The theorems on transactions, applied to a store of a few pairs.
use fabko.Base.{
  ◌≢◌, Distinct, ap, length, subst, map, inl, inr, Bool-cases, true, false, List, [], ◌∷◌, ◌++◌,
  ◌≡◌, refl, Option, none, some, if◌then◌else◌, In, ◌↔◌, arith,
}
use fabko.Text.Join.{Text}
use fabko.Text.Stream.{same_text}
use fabko.Text.Stream.Laws.{same_text_refl, same_text-eq}
use fabko.Datastore.{KeyValue, Rocks, value, get, set, multi_get, multi_set, less, list_prefix}
use fabko.Datastore.Listing.{IsIterator, IsAscending, starts_with, list_prefix_exact}
use fabko.Datastore.Refines.{replay, multi_set-refines}
use fabko.Datastore.Laws.{keys_of, IsRead, multi_get-IsRead, multi_get-multi_set}

-- "1,2" and ",".
abbrev input : Text
input = 49 ∷ 44 ∷ 50 ∷ []

abbrev comma : Text
comma = 44 ∷ []

abbrev blanks : Text
blanks = 32 ∷ 32 ∷ []

some_path : {a b : List KeyValue} → some a ≡ some b → a ≡ b
some_path h = cc

-- A list of pairs for the parameter, the last one first.
abbrev lookup : List KeyValue → Text → Option Text
lookup [] k = none
lookup (p ∷ ps) k = let found = lookup ps k in if same_text p.0 k then some p.1 else found

lookup_other :
    (ps : List KeyValue) (k k' v : Text) → k ≢ k' → lookup ((k, v) ∷ ps) k' ≡ lookup ps k'
lookup_other ps k k' v n = elim (Bool-cases (same_text k k')) [
  | inl t ↦ absurd (n (same_text-eq k k' t))
  | inr f ↦ rw f refl
]

instance abbrev pair_store : Rocks
pair_store = record {
  Tx = List KeyValue;
  get = lookup;
  multi_get = λ t ks. map (lookup t) ks;
  put = λ t k v. some ((k, v) ∷ t);
  commit = λ t. some t;
  seek = λ t k. t;
  multi_get-get = λ t ks. refl;
  get-put_self = λ t t' k v h.
      let q : (k, v) ∷ t ≡ t' = some_path h in
      subst (λ s. lookup s k ≡ some v) q (rw (same_text_refl k) refl);
  get-put_other = λ t t' k k' v h n.
      let q : (k, v) ∷ t ≡ t' = some_path h in
      subst (λ s. lookup s k' ≡ lookup t k') q (lookup_other t k k' v n);
}

abbrev stored : List KeyValue
stored = (input, comma) ∷ (comma, blanks) ∷ []

multi_get-IsRead_example :
    IsRead stored (comma ∷ input ∷ []) ((comma, blanks) ∷ (input, comma) ∷ [])
unfolding multi_get
multi_get-IsRead_example =
    multi_get-IsRead stored (comma ∷ input ∷ []) ((comma, blanks) ∷ (input, comma) ∷ []) refl

-- The new value of a key that is stored, and a new key.
abbrev added : List KeyValue
added = (comma, input) ∷ (blanks, comma) ∷ []

added-Distinct : Distinct (keys_of added)
added-Distinct = (λ m. elim m [ inl q ↦ absurd (differ q) | inr z ↦ absurd z ], ((λ m. m), tt))
  where
    differ : blanks ≡ comma → ⊥
    differ q = omega (arith, ap length q)

multi_get-multi_set_example :
    multi_get (multi_set stored added).0 (comma ∷ blanks ∷ []) ≡ value added
unfolding multi_set set
multi_get-multi_set_example = multi_get-multi_set stored added added-Distinct refl

multi_set-refines_example :
    (done : List KeyValue) × (left : List KeyValue) × (stored ≡ done ++ left)
    × ((k : Text) → get (multi_set stored stored).0 k ≡ replay done (get stored) k)
    × ((multi_set stored stored).1 ≡ value true → left ≡ [])
multi_set-refines_example = multi_set-refines stored stored

-- An iterator from "," on passes over both pairs.
abbrev sorted : List KeyValue
sorted = (comma, blanks) ∷ (input, comma) ∷ []

stored_from : (k v : Text) → In (k, v) sorted → (lookup sorted k ≡ some v) × (less k comma ≡ false)
unfolding less
stored_from k v (inl q) =
    subst (λ (p : KeyValue). (lookup sorted p.0 ≡ some p.1) × (less p.0 comma ≡ false)) q
      (refl, refl)
stored_from k v (inr (inl q)) =
    subst (λ (p : KeyValue). (lookup sorted p.0 ≡ some p.1) × (less p.0 comma ≡ false)) q
      (refl, refl)
stored_from k v (inr (inr m)) = absurd m

In-sorted : (k v : Text) → lookup sorted k ≡ some v → In (k, v) sorted
In-sorted k v h = elim (Bool-cases (same_text comma k)) [
  | inl y ↦
      let q : some blanks ≡ some v = rw y at h in
      inl (λ i. (same_text-eq comma k y i, text_path q i))
  | inr n ↦ elim (Bool-cases (same_text input k)) [
    | inl y ↦
        let q : some comma ≡ some v = rw y at (rw n at h) in
        inr (inl (λ i. (same_text-eq input k y i, text_path q i)))
    | inr z ↦ let q : none ≡ some v = rw z at (rw n at h) in cc
  ]
]
  where
    text_path : {a b : Text} → some a ≡ some b → a ≡ b
    text_path q = cc

IsIterator-sorted : IsIterator sorted comma
unfolding less
IsIterator-sorted = record {
  ascending = ((refl, tt), (tt, tt));
  exact = λ k v. (stored_from k v, λ g. In-sorted k v g.0);
}

list_prefix_exact_example :
    (ps : List KeyValue) × (list_prefix sorted comma ≡ some ps)
    × IsAscending ps
    × ((k v : Text) → In (k, v) ps ↔ ((get sorted k ≡ value v) × (starts_with comma k ≡ true)))
list_prefix_exact_example = list_prefix_exact sorted comma (omega arith) IsIterator-sorted
