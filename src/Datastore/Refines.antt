-- ===== src/Datastore/Refines.antt =====
-- A transaction as a map from keys to what `get` returns: `multi_set` writes its pairs in their order,
-- up to the first one that fails.
use fabko.Base.{
  Bool, true, List, [], ◌∷◌, ◌++◌, ◌≡◌, ◌≢◌, refl, sym, ◌∙◌, ap, subst, inl, inr, Option-cases,
  Bool-cases, some, if◌then◌else◌, true≢false,
}
use fabko.Text.Join.{Text}
use fabko.Text.Stream.{same_text}
use fabko.Text.Stream.Laws.{same_text_refl, same_text-eq}
use fabko.Datastore.{
  KeyValue, Rocks, get_error, put_error, Outcome, value, failed, or_fail, get, set, after_set,
  multi_set, put_result,
}

-- What each key gives.
abbrev pub View : Type 0
View = Text → Outcome Text

abbrev pub updated : KeyValue → View → View
updated p m k = if same_text p.0 k then value p.1 else m k

-- The pairs written one after the other, the last one of a key staying.
abbrev pub replay : List KeyValue → View → View
replay [] m = m
replay (p ∷ ps) m = replay ps (updated p m)

replay_same :
    (ps : List KeyValue) (m n : View)
    → ((k : Text) → m k ≡ n k)
    → (k : Text) → replay ps m k ≡ replay ps n k
replay_same [] m n h k = h k
replay_same (p ∷ ps) m n h k =
    replay_same ps (updated p m) (updated p n)
      (λ j. ap (λ o. if same_text p.0 j then value p.1 else o) (h j)) k

module _ ⦃db : Rocks⦄ where
  put-updated :
      (t t' : db.Tx) (p : KeyValue)
      → db.put t p.0 p.1 ≡ some t'
      → (k : Text) → get t' k ≡ updated p (get t) k
  unfolding get
  put-updated t t' p z k = elim (Bool-cases (same_text p.0 k)) [
    | inl y ↦
        let q : p.0 ≡ k = same_text-eq p.0 k y in
        rw y (
          ap (or_fail get_error)
            (subst (λ j. db.get t' j ≡ some p.1) q (db.get-put_self t t' p.0 p.1 z)))
    | inr y ↦
        let n : p.0 ≢ k =
          λ q. true≢false (sym (subst (λ j. same_text p.0 j ≡ true) q (same_text_refl p.0)) ∙ y) in
        rw y (ap (or_fail get_error) (db.get-put_other t t' p.0 k p.1 z n))
  ]

  -- On a transaction seen as the map from keys to what get returns for them, a multi_set writes
  -- its pairs one after the other, all of them where it succeeds and the first ones otherwise,
  -- and nothing else.
  pub multi_set-refines :
      (t : db.Tx) (ps : List KeyValue)
      → (done : List KeyValue) × (left : List KeyValue) × (ps ≡ done ++ left)
        × ((k : Text) → get (multi_set t ps).0 k ≡ replay done (get t) k)
        × ((multi_set t ps).1 ≡ value true → left ≡ [])
  unfolding multi_set set
  multi_set-refines t [] = ([], [], refl, λ k. refl, λ h. refl)
  multi_set-refines t (p ∷ ps) = elim (Option-cases (db.put t p.0 p.1)) [
    | inl z ↦
        let e : multi_set t (p ∷ ps) ≡ (t, failed put_error) =
          ap (λ o. after_set (λ t'. multi_set t' ps) (put_result t o)) z in
        (
          [],
          p ∷ ps,
          refl,
          λ k. ap (λ (r : db.Tx × Outcome Bool). get r.0 k) e,
          λ h.
              let q : failed put_error ≡ value true =
                sym (ap (λ (r : db.Tx × Outcome Bool). r.1) e) ∙ h in
              cc,
        )
    | inr (t', z) ↦
        let e : multi_set t (p ∷ ps) ≡ multi_set t' ps =
          ap (λ o. after_set (λ t'. multi_set t' ps) (put_result t o)) z in
        let (done, left, q, f, g) = multi_set-refines t' ps in
        (
          p ∷ done,
          left,
          ap (◌∷◌ p) q,
          λ k.
              ap (λ (r : db.Tx × Outcome Bool). get r.0 k) e
              ∙ (f k ∙ replay_same done (get t') (updated p (get t)) (put-updated t t' p z) k),
          λ h. g (sym (ap (λ (r : db.Tx × Outcome Bool). r.1) e) ∙ h),
        )
  ]
