-- ===== src/Datastore/Laws.antt =====
-- What a transaction reads and writes.
use fabko.Base.{
  Bool, true, Distinct, List, [], ◌∷◌, map, ◌≡◌, ◌≢◌, refl, ◌∙◌, ap, subst, inl, inr, In, All,
  Option-cases, Bool-cases,
}
use fabko.Text.Join.{Text}
use fabko.Datastore.{
  KeyValue, Rocks, DbError, get_error, put_error, Outcome, value, failed, or_fail, with_pair, get,
  collect, multi_get, set, after_set, multi_set, list_until, less,
}

module _ ⦃db : Rocks⦄ where
  abbrev pub keys_of : List KeyValue → List Text
  keys_of = map (λ (p : KeyValue). p.0)

  -- The pairs are what `get` gives for the keys, in their order.
  abbrev pub IsRead : db.Tx → List Text → List KeyValue → Type 0
  IsRead t ks ps = (keys_of ps ≡ ks) × All (λ (p : KeyValue). get t p.0 ≡ value p.1) ps

  with_pair-value :
      (p : KeyValue) (o : Outcome (List KeyValue)) (ps : List KeyValue)
      → with_pair p o ≡ value ps
      → (qs : List KeyValue) × (o ≡ value qs) × (p ∷ qs ≡ ps)
  with_pair-value p (value qs) ps h = (qs, refl, value_inj h)
    where
      value_inj : {a b : List KeyValue} → value a ≡ value b → a ≡ b
      value_inj h = cc
  with_pair-value p (failed x) ps h = cc

  collect-IsRead :
      (t : db.Tx) (ks : List Text) (ps : List KeyValue)
      → collect ks (map (db.get t) ks) ≡ value ps
      → IsRead t ks ps
  unfolding collect get
  collect-IsRead t [] [] h = (refl, tt)
  collect-IsRead t [] (p ∷ ps) h = cc
  collect-IsRead t (k ∷ ks) ps h = elim (Option-cases (db.get t k)) [
    | inl z ↦ let q : failed get_error ≡ value ps = rw (z, collect) at h in cc
    | inr (v, z) ↦
        let q : with_pair (k, v) (collect ks (map (db.get t) ks)) ≡ value ps =
          rw (z, collect) at h in
        let (qs, e, w) = with_pair-value (k, v) (collect ks (map (db.get t) ks)) ps q in
        let r = collect-IsRead t ks qs e in
        subst (IsRead t (k ∷ ks)) w (ap (◌∷◌ k) r.0, (rw z refl, r.1))
  ]

  -- A multi_get that returns gives a pair for each key, in the order of the keys, with the value
  -- that get returns for it.
  pub multi_get-IsRead :
      (t : db.Tx) (ks : List Text) (ps : List KeyValue) → multi_get t ks ≡ value ps → IsRead t ks ps
  unfolding multi_get
  multi_get-IsRead t ks ps h =
      collect-IsRead t ks ps (subst (λ ss. collect ks ss ≡ value ps) (db.multi_get-get t ks) h)

  set-other : (t : db.Tx) (p : KeyValue) (k : Text) → p.0 ≢ k → get (set t p).0 k ≡ get t k
  unfolding set get
  set-other t (k', v) k n = elim (Option-cases (db.put t k' v)) [
    | inl z ↦ rw z refl
    | inr (t', z) ↦ rw z (ap (or_fail get_error) (db.get-put_other t t' k' k v z n))
  ]

  -- After a multi_set, also one that failed midway, get returns for every key that is not among
  -- its pairs what it returned before.
  pub multi_set-other :
      (t : db.Tx) (ps : List KeyValue) (k : Text)
      → ¬ In k (keys_of ps)
      → get (multi_set t ps).0 k ≡ get t k
  unfolding multi_set
  multi_set-other t [] k n = refl
  multi_set-other t (p ∷ ps) k n =
      go (set t p) (set-other t p k (λ h. n (inl h)))
        (λ t'. multi_set-other t' ps k (λ m. n (inr m)))
    where
      go :
          (r : db.Tx × Outcome Bool)
          → get r.0 k ≡ get t k
          → ((t' : db.Tx) → get (multi_set t' ps).0 k ≡ get t' k)
          → get (after_set (λ t'. multi_set t' ps) r).0 k ≡ get t k
      go (t', value b) e f = f t' ∙ e
      go (t', failed x) e f = e

  get-set :
      (t : db.Tx) (p : KeyValue) (b : Bool)
      → (set t p).1 ≡ value b
      → get (set t p).0 p.0 ≡ value p.1
  unfolding set get
  get-set t (k, v) b h = elim (Option-cases (db.put t k v)) [
    | inl z ↦ let q : failed put_error ≡ value b = rw z at h in cc
    | inr (t', z) ↦ rw z (rw (db.get-put_self t t' k v z) refl)
  ]

  multi_set-get :
      (t : db.Tx) (ps : List KeyValue)
      → Distinct (keys_of ps)
      → (multi_set t ps).1 ≡ value true
      → All (λ (p : KeyValue). get (multi_set t ps).0 p.0 ≡ value p.1) ps
  unfolding multi_set
  multi_set-get t [] d h = tt
  multi_set-get t (p ∷ ps) d h = go (set t p) (get-set t p) (λ t'. multi_set-get t' ps d.1) h
    where
      go :
          (r : db.Tx × Outcome Bool)
          → ((b : Bool) → r.1 ≡ value b → get r.0 p.0 ≡ value p.1)
          → ((t' : db.Tx)
              → (multi_set t' ps).1 ≡ value true
              → All (λ (q : KeyValue). get (multi_set t' ps).0 q.0 ≡ value q.1) ps)
          → (after_set (λ t'. multi_set t' ps) r).1 ≡ value true
          → All
              (λ (q : KeyValue). get (after_set (λ t'. multi_set t' ps) r).0 q.0 ≡ value q.1)
              (p ∷ ps)
      go (t', value b) g ih h = (multi_set-other t' ps p.0 d.0 ∙ g b refl, ih t' h)
      go (t', failed x) g ih h = absurd (failed_not x h)
        where
          failed_not : (x : DbError) → failed x ≡ value true → ⊥
          failed_not x h = cc

  collect-values :
      (t : db.Tx) (ps : List KeyValue)
      → All (λ (p : KeyValue). get t p.0 ≡ value p.1) ps
      → collect (keys_of ps) (map (db.get t) (keys_of ps)) ≡ value ps
  unfolding collect get
  collect-values t [] h = refl
  collect-values t ((k, v) ∷ ps) h = elim (Option-cases (db.get t k)) [
    | inl z ↦ let q : failed get_error ≡ value v = rw z at h.0 in cc
    | inr (w, z) ↦
        let q : value w ≡ value v = rw z at h.0 in
        rw (z, collect) (rw (collect-values t ps h.1) (ap (λ u. value ((k, u) ∷ ps)) (same q)))
  ]
    where
      same : {a b : Text} → value a ≡ value b → a ≡ b
      same q = cc

  -- After a multi_set of pairs with different keys that succeeds, a multi_get of the keys
  -- returns the pairs, in their order.
  pub multi_get-multi_set :
      (t : db.Tx) (ps : List KeyValue)
      → Distinct (keys_of ps)
      → (multi_set t ps).1 ≡ value true
      → multi_get (multi_set t ps).0 (keys_of ps) ≡ value ps
  unfolding multi_get
  multi_get-multi_set t ps d h =
      let t' = (multi_set t ps).0 in
      ap (collect (keys_of ps)) (db.multi_get-get t' (keys_of ps))
      ∙ collect-values t' ps (multi_set-get t ps d h)

  list_until-below :
      (end_key : Text) (ps : List KeyValue)
      → All (λ (p : KeyValue). less p.0 end_key ≡ true) (list_until end_key ps)
  unfolding list_until
  list_until-below end_key [] = tt
  list_until-below end_key (p ∷ ps) = elim (Bool-cases (less p.0 end_key)) [
    | inl y ↦ rw y (y, list_until-below end_key ps)
    | inr y ↦ rw y tt
  ]
