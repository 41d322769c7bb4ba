-- ===== src/Sat/Build/Variables.antt =====
-- The variables that the constructor makes, and the ids that it finds for the literals of a clause.
use fabko.Base.{
  ℕ, pos, ◌+ℤ◌, true, if◌then◌else◌, ==_iff, ==_refl, ==_ne, ◌≡◌, ◌≢◌, refl, sym, ◌∙◌, ap, subst,
  inl, inr, List, [], ◌∷◌, map, Option, none, some, In, In-append_cases, All, eq_cases, Bool-cases,
  none≢some, ◌+◌, length, length-append, arith,
}
use fabko.Sat.Literal.{Literal, value, same_var, is_unassigned}
use fabko.Sat.Types.{Env, Entry}
use fabko.Sat.Vsids.{change_activity}
use fabko.Sat.Watcher.{ok}
use fabko.Sat.Build.{
  new_variable, zip, insert_variables, find_variable, bump, found_or_fail, map_literals,
  ok-of_chain, ok-injective,
}

module _ ⦃e : Env⦄ where
  -- No variable has an assignment or a reason.
  abbrev pub IsFresh : e.vars.Store → Type 0
  IsFresh vs =
      (i : ℕ)
      → In i (e.vars.ids vs)
      → (is_unassigned (e.vars.at vs i).assignment ≡ true)
        × ((e.vars.at vs i).context.clause_propagation ≡ none)

  insert-IsFresh :
      (vs : e.vars.Store) (l : Literal) → IsFresh vs → IsFresh (e.vars.insert vs (new_variable l)).0
  insert-IsFresh vs l h i m =
      let row = new_variable l in
      let s' = (e.vars.insert vs row).0 in
      elim (In-append_cases i (e.vars.ids vs) ((e.vars.insert vs row).1 ∷ [])
        (subst (In i) (e.vars.ids-insert vs row) m)) [
          | inl j ↦
              let q = e.vars.at-insert_old vs row i j in
              (
                ap (λ v. is_unassigned v.assignment) q ∙ (h i j).0,
                ap (λ v. v.context.clause_propagation) q ∙ (h i j).1,
              )
          | inr (inl z) ↦
              let q : e.vars.at s' i ≡ row =
                subst (λ k. e.vars.at s' k ≡ row) z (e.vars.at-insert_new vs row) in
              (ap (λ v. is_unassigned v.assignment) q, ap (λ v. v.context.clause_propagation) q)
          | inr (inr z) ↦ absurd z
        ]

  pub insert_variables-IsFresh :
      (vs : e.vars.Store) (ls : List Literal) → IsFresh vs → IsFresh (insert_variables vs ls)
  unfolding insert_variables
  insert_variables-IsFresh vs [] h = h
  insert_variables-IsFresh vs (l ∷ ls) h =
      insert_variables-IsFresh (e.vars.insert vs (new_variable l)).0 ls (insert-IsFresh vs l h)

  pub length-insert_variables :
      (vs : e.vars.Store) (ls : List Literal)
      → length (e.vars.ids (insert_variables vs ls)) ≡ length (e.vars.ids vs) + length ls
  unfolding insert_variables
  length-insert_variables vs [] = omega arith
  length-insert_variables vs (l ∷ ls) = omega (
    arith,
    length-insert_variables (e.vars.insert vs (new_variable l)).0 ls,
    ap (length {A = ℕ}) (e.vars.ids-insert vs (new_variable l)),
    length-append (e.vars.ids vs) ((e.vars.insert vs (new_variable l)).1 ∷ []),
  )

  -- The second store is the first, but for the activities.
  pub record SameRows (vs vs' : e.vars.Store) : Type 0 where
    pub ids : e.vars.ids vs' ≡ e.vars.ids vs
    pub literals : (i : ℕ) → (e.vars.at vs' i).literal ≡ (e.vars.at vs i).literal
    pub fresh : IsFresh vs'

  pub bump-SameRows :
      (vs vs' : e.vars.Store) (i : ℕ)
      → In i (e.vars.ids vs')
      → SameRows vs vs'
      → SameRows vs (bump vs' i)
  unfolding bump change_activity
  bump-SameRows vs vs' i m h =
      let w = change_activity (λ a. a +ℤ pos 1) (e.vars.at vs' i) in
      let self : e.vars.at (bump vs' i) i ≡ w =
        e.vars.at-put vs' i i w m ∙ ap (λ b. if b then w else e.vars.at vs' i) (==_refl i) in
      let other : (j : ℕ) → i ≢ j → e.vars.at (bump vs' i) j ≡ e.vars.at vs' j = λ j n.
        e.vars.at-put vs' i j w m ∙ ap (λ b. if b then w else e.vars.at vs' j) (==_ne i j n) in
      record {
        ids = e.vars.ids-put vs' i w ∙ h.ids;
        literals = λ j. elim (eq_cases i j) [
          | inl z ↦
              subst (λ k. (e.vars.at (bump vs' i) k).literal ≡ (e.vars.at vs k).literal) z
                (ap (λ v. v.literal) self ∙ h.literals i)
          | inr n ↦ ap (λ v. v.literal) (other j n) ∙ h.literals j
        ];
        fresh = λ j mj.
            let mj' = subst (In j) (e.vars.ids-put vs' i w) mj in
            elim (eq_cases i j) [
              | inl z ↦
                  let q : e.vars.at (bump vs' i) j
                      ≡ change_activity (λ a. a +ℤ pos 1) (e.vars.at vs' j) =
                    subst
                      (λ k.
                        e.vars.at (bump vs' i) k
                        ≡ change_activity (λ a. a +ℤ pos 1) (e.vars.at vs' k))
                      z self in
                  (
                    ap (λ v. is_unassigned v.assignment) q ∙ (h.fresh j mj').0,
                    ap (λ v. v.context.clause_propagation) q ∙ (h.fresh j mj').1,
                  )
              | inr n ↦ (
                ap (λ v. is_unassigned v.assignment) (other j n) ∙ (h.fresh j mj').0,
                ap (λ v. v.context.clause_propagation) (other j n) ∙ (h.fresh j mj').1,
              )
            ];
      }

  pub find_variable-found :
      (vs : e.vars.Store) (l : Literal) (is : List ℕ) (i : ℕ)
      → find_variable vs l is ≡ some i
      → In i is × (value (e.vars.at vs i).literal ≡ value l)
  unfolding find_variable
  find_variable-found vs l [] i h = absurd (none≢some h)
  find_variable-found vs l (k ∷ is) i h = elim (Bool-cases (same_var (e.vars.at vs k).literal l)) [
    | inl t ↦
        let z : k ≡ i = some-injective (rw (t, find_variable) at h) in
        (inl z, subst (λ j. value (e.vars.at vs j).literal ≡ value l) z ((==_iff _ _).0 t))
    | inr f ↦ let r = find_variable-found vs l is i (rw (f, find_variable) at h) in (inr r.0, r.1)
  ]
    where
      some-injective : {a b : ℕ} → some a ≡ some b → a ≡ b
      some-injective q = cc

  -- The search looks at the variables' literals alone, and at the number of its own.
  find_variable-same :
      (vs vs' : e.vars.Store) (l l' : Literal) (is : List ℕ)
      → ((i : ℕ) → (e.vars.at vs' i).literal ≡ (e.vars.at vs i).literal)
      → value l' ≡ value l
      → find_variable vs' l' is ≡ find_variable vs l is
  unfolding find_variable
  find_variable-same vs vs' l l' [] h q = refl
  find_variable-same vs vs' l l' (i ∷ is) h q =
      rw (find_variable-same vs vs' l l' is h q)
        (ap (λ b. if b then some i else find_variable vs l is) (same (h i)))
    where
      same :
          (e.vars.at vs' i).literal ≡ (e.vars.at vs i).literal
          → same_var (e.vars.at vs' i).literal l' ≡ same_var (e.vars.at vs i).literal l
      same k = rw (k, q)

  abbrev or_zero : Option ℕ → ℕ
  or_zero none = 0
  or_zero (some i) = i

  -- The id that a variable number is mapped to.
  pub canon_of : e.vars.Store → ℕ → ℕ
  canon_of vs v = or_zero (find_variable vs (record { value_ = pos v }) (e.vars.ids vs))

  -- An entry, for the store of the variables.
  pub record IsMapped (vs : e.vars.Store) (p : Entry) : Type 0 where
    pub known : In p.1 (e.vars.ids vs)
    pub canonical : p.1 ≡ canon_of vs (value p.0)
    pub named : value p.0 ≡ value (e.vars.at vs p.1).literal

  found-IsMapped :
      (vs vs' : e.vars.Store) (l : Literal) (i : ℕ)
      → SameRows vs vs'
      → find_variable vs' l (e.vars.ids vs') ≡ some i
      → IsMapped vs (l, i)
  unfolding canon_of
  found-IsMapped vs vs' l i h q =
      let r = find_variable-found vs' l (e.vars.ids vs') i q in
      let found : find_variable vs (record { value_ = pos (value l) }) (e.vars.ids vs) ≡ some i =
        sym (
          find_variable-same vs vs' (record { value_ = pos (value l) }) l (e.vars.ids vs) h.literals
            refl)
        ∙ ap (find_variable vs' l) (sym h.ids)
        ∙ q in
      record {
        known = subst (In i) h.ids r.0;
        canonical = ap or_zero (sym found);
        named = sym (ap value (sym (h.literals i)) ∙ r.1);
      }

  -- What the fold over the literals of a clause gives.
  pub record IsMapping (vs : e.vars.Store) (ls : List Literal) (vs' : e.vars.Store) (is : List ℕ)
      : Type 0 where
    pub rows : SameRows vs vs'
    pub mapped : All (IsMapped vs) (zip ls is)
    pub literals : map (λ (p : Entry). p.0) (zip ls is) ≡ ls

  pub map_literals-IsMapping :
      (vs vs' : e.vars.Store) (ls : List Literal) (r : e.vars.Store × List ℕ)
      → SameRows vs vs'
      → map_literals vs' ls ≡ ok r
      → IsMapping vs ls r.0 r.1
  unfolding map_literals zip found_or_fail
  map_literals-IsMapping vs vs' [] r h q =
      subst (λ (t : e.vars.Store × List ℕ). IsMapping vs [] t.0 t.1) (ok-injective (vs', []) r q)
        (record { rows = h; mapped = tt; literals = refl })
  map_literals-IsMapping vs vs' (l ∷ ls) r h q =
      let (i, qi, q2) = ok-of_chain (found_or_fail (find_variable vs' l (e.vars.ids vs'))) _ q in
      let (t, qt, q3) = ok-of_chain (map_literals (bump vs' i) ls) _ q2 in
      let f = found_ok _ i qi in
      let m = find_variable-found vs' l (e.vars.ids vs') i f in
      let ih = map_literals-IsMapping vs (bump vs' i) ls t (bump-SameRows vs vs' i m.0 h) qt in
      subst (λ (u : e.vars.Store × List ℕ). IsMapping vs (l ∷ ls) u.0 u.1)
        (ok-injective (t.0, i ∷ t.1) r q3)
        (record {
          rows = ih.rows;
          mapped = (found-IsMapped vs vs' l i h f, ih.mapped);
          literals = ap (◌∷◌ l) ih.literals;
        })
    where
      found_ok : (o : Option ℕ) (i : ℕ) → found_or_fail o ≡ ok i → o ≡ some i
      found_ok none i h = cc
      found_ok (some j) i h = cc
