-- ===== src/Sat/Build/Total.antt =====
-- The constructor succeeds on a model whose clauses are not empty and use the variables of the model.
use fabko.Base.{
  ℕ, true, false, ==_iff, ◌≡◌, refl, sym, ◌∙◌, ap, subst, inl, inr, List, [], ◌∷◌, map, some, In,
  In-append_left, In-append_right, All, All-imp, is_nil, Bool-cases,
}
use fabko.Sat.Literal.{Literal, value, same_var}
use fabko.Sat.Types.{Env, Entry, Clause, Context, Model}
use fabko.Sat.Watcher.{ok}
use fabko.Sat.Watcher.Made.{make_watcher_total}
use fabko.Sat.Build.{
  new_variable, zip, insert_variables, find_variable, bump, found_or_fail, map_literals, Stores,
  insert_clause, insert_clauses, initial, make_context,
}
use fabko.Sat.Build.Variables.{
  SameRows, bump-SameRows, find_variable-found, map_literals-IsMapping, insert_variables-IsFresh,
}

-- The literals name the variable of the literal.
abbrev pub Names : List Literal → Literal → Type 0
Names us l = (m : Literal) × In m us × (value m ≡ value l)

module _ ⦃e : Env⦄ where
  -- So does the store.
  abbrev Holds : e.vars.Store → Literal → Type 0
  Holds vs l = (i : ℕ) × In i (e.vars.ids vs) × (value (e.vars.at vs i).literal ≡ value l)

  find_variable_total :
      (vs : e.vars.Store) (l : Literal) (is : List ℕ) (i : ℕ)
      → In i is
      → value (e.vars.at vs i).literal ≡ value l
      → (k : ℕ) × (find_variable vs l is ≡ some k)
  unfolding find_variable
  find_variable_total vs l [] i m h = absurd m
  find_variable_total vs l (k ∷ is) i m h =
      elim (Bool-cases (same_var (e.vars.at vs k).literal l)) [
        | inl t ↦ (k, rw (t, find_variable) refl)
        | inr f ↦ elim m [
          | inl z ↦
              let t : same_var (e.vars.at vs k).literal l ≡ true =
                (==_iff _ _).1 (ap (λ j. value (e.vars.at vs j).literal) z ∙ h) in
              cc
          | inr m' ↦ let r = find_variable_total vs l is i m' h in (r.0, rw (f, find_variable) r.1)
        ]
      ]

  map_literals_total :
      (vs vs' : e.vars.Store) (ls : List Literal)
      → SameRows vs vs'
      → All (Holds vs) ls
      → (r : e.vars.Store × List ℕ) × (map_literals vs' ls ≡ ok r)
  unfolding map_literals found_or_fail
  map_literals_total vs vs' [] h k = (_, refl)
  map_literals_total vs vs' (l ∷ ls) h ((i, m, q), k) =
      let (j, found) =
        find_variable_total vs' l (e.vars.ids vs') i (subst (In i) (sym h.ids) m)
          (ap value (h.literals i) ∙ q) in
      let known = (find_variable-found vs' l (e.vars.ids vs') j found).0 in
      let (r, e) = map_literals_total vs (bump vs' j) ls (bump-SameRows vs vs' j known h) k in
      ((r.0, j ∷ r.1), rw (found, e) refl)

  insert_clause_total :
      (vs : e.vars.Store) (s : Stores) (cl : List Literal)
      → SameRows vs s.vars
      → All (Holds vs) cl
      → is_nil cl ≡ false
      → (s' : Stores) × (insert_clause s cl ≡ ok s') × SameRows vs s'.vars
  unfolding insert_clause
  insert_clause_total vs s cl h k n =
      let (r, h') = map_literals_total vs s.vars cl h k in
      let m = map_literals-IsMapping vs s.vars cl r h h' in
      let c : Clause = record { vars = zip cl r.1 } in
      let n' : is_nil (zip cl r.1) ≡ false =
        sym (is_nil-map (zip cl r.1)) ∙ (ap (is_nil {A = Literal}) m.literals ∙ n) in
      let (w, q) = make_watcher_total r.0 c n' in
      let s' : Stores = record {
        vars = r.0;
        clauses = (e.clauses.insert s.clauses (record { clause = c; watcher = w })).0;
      } in
      (s', rw (h', q) refl, m.rows)
    where
      is_nil-map : (ps : List Entry) → is_nil (map (λ (p : Entry). p.0) ps) ≡ is_nil ps
      is_nil-map [] = refl
      is_nil-map (p ∷ ps) = refl

  insert_clauses_total :
      (vs : e.vars.Store) (s : Stores) (cs : List (List Literal))
      → SameRows vs s.vars
      → All (All (Holds vs)) cs
      → All (λ (cl : List Literal). is_nil cl ≡ false) cs
      → (s' : Stores) × (insert_clauses s cs ≡ ok s')
  unfolding insert_clauses
  insert_clauses_total vs s [] h k n = (s, refl)
  insert_clauses_total vs s (cl ∷ cs) h k n =
      let (s1, q, h1) = insert_clause_total vs s cl h k.0 n.0 in
      let (s2, q2) = insert_clauses_total vs s1 cs h1 k.1 n.1 in (s2, rw q q2)

  insert_variables-kept :
      (vs : e.vars.Store) (ls : List Literal) (i : ℕ)
      → In i (e.vars.ids vs)
      → In i (e.vars.ids (insert_variables vs ls))
        × (e.vars.at (insert_variables vs ls) i ≡ e.vars.at vs i)
  unfolding insert_variables
  insert_variables-kept vs [] i m = (m, refl)
  insert_variables-kept vs (l ∷ ls) i m =
      let row = new_variable l in
      let m' =
        subst (In i) (sym (e.vars.ids-insert vs row)) (In-append_left i (e.vars.ids vs) _ m) in
      let r = insert_variables-kept (e.vars.insert vs row).0 ls i m' in
      (r.0, r.1 ∙ e.vars.at-insert_old vs row i m)

  insert_variables-Holds :
      (vs : e.vars.Store) (ls : List Literal) (l : Literal)
      → In l ls
      → Holds (insert_variables vs ls) l
  unfolding insert_variables
  insert_variables-Holds vs [] l m = absurd m
  insert_variables-Holds vs (l' ∷ ls) l (inl z) =
      let row = new_variable l' in
      let s = (e.vars.insert vs row).0 in
      let i = (e.vars.insert vs row).1 in
      let m =
        subst (In i) (sym (e.vars.ids-insert vs row))
          (In-append_right i (e.vars.ids vs) (i ∷ []) (inl refl)) in
      let r = insert_variables-kept s ls i m in
      (i, r.0, ap (λ v. value v.literal) (r.1 ∙ e.vars.at-insert_new vs row) ∙ ap value z)
  insert_variables-Holds vs (l' ∷ ls) l (inr m) =
      insert_variables-Holds (e.vars.insert vs (new_variable l')).0 ls l m

  pub make_context_total :
      (m : Model)
      → All (λ (cl : List Literal). is_nil cl ≡ false) m.clauses
      → All (All (Names m.literals)) m.clauses
      → (c : Context) × (make_context m ≡ ok c)
  unfolding make_context
  make_context_total m n k =
      let vs = insert_variables e.vars.empty m.literals in
      let rows : SameRows vs vs = record {
        ids = refl;
        literals = λ i. refl;
        fresh =
            insert_variables-IsFresh e.vars.empty m.literals
              (λ i j. absurd (subst (In i) e.vars.ids-empty j));
      } in
      let held : All (All (Holds vs)) m.clauses =
        All-imp m.clauses
          (λ cl h.
            All-imp cl
              (λ l (u, i, q).
                let (j, known, at) = insert_variables-Holds e.vars.empty m.literals u i in
                (j, known, at ∙ q))
              h)
          k in
      let (s, q) =
        insert_clauses_total vs (record { vars = vs; clauses = e.clauses.empty }) m.clauses rows
          held n in
      (initial m s, rw q refl)
