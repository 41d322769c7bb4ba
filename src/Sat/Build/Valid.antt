-- ===== src/Sat/Build/Valid.antt =====
-- The constructor makes a valid context, whose clauses are those of the model.
use fabko.Base.{
  ℕ, ◌≡◌, ◌≢◌, refl, sym, ◌∙◌, ap, subst, inl, inr, List, [], ◌∷◌, ◌++◌, map, append_assoc,
  append-nil, In, In-append_left, In-append_right, In-append_cases, All, All-imp, length, arith,
}
use fabko.Sat.Literal.{Literal, value}
use fabko.Sat.Types.{Env, Context, ClauseRow, Entry, Model, lits_at, var_ids, clause_ids}
use fabko.Sat.Watcher.{ok, make_watcher}
use fabko.Sat.Build.{
  Stores, zip, insert_variables, map_literals, insert_clause, insert_clauses, make_context, initial,
  ok-of_chain, ok-injective,
}
use fabko.Sat.Build.Variables.{
  insert_variables-IsFresh, length-insert_variables, SameRows, canon_of, IsMapped,
  map_literals-IsMapping,
}
use fabko.Sat.Invariant.{IsValid}

-- The literals of the entries of a clause.
abbrev pub literals_of : List Entry → List Literal
literals_of = map λ (p : Entry). p.0

-- No literal of a model is 0, the terminator of the file format.
abbrev pub IsNonzero : List Literal → Type 0
IsNonzero = All λ (l : Literal). value l ≢ 0

module _ ⦃e : Env⦄ where
  abbrev stored_at : Stores → ℕ → List Entry
  stored_at s d = (e.clauses.at s.clauses d).clause.vars

  abbrev IsStoredEntry : e.vars.Store → Entry → Type 0
  IsStoredEntry vs p = IsMapped vs p × (value p.0 ≢ 0)

  -- The clauses stored are those of `done`, over the variables `vs`.
  record IsStored (vs : e.vars.Store) (done : List (List Literal)) (s : Stores) : Type 0 where
    rows : SameRows vs s.vars
    entries : (d : ℕ) → In d (e.clauses.ids s.clauses) → All (IsStoredEntry vs) (stored_at s d)
    from : (d : ℕ) → In d (e.clauses.ids s.clauses) → In (literals_of (stored_at s d)) done
    to :
        (cl : List Literal)
        → In cl done
        → (d : ℕ) × In d (e.clauses.ids s.clauses) × (literals_of (stored_at s d) ≡ cl)

  with_nonzero :
      (vs : e.vars.Store) (ps : List Entry)
      → All (IsMapped vs) ps
      → IsNonzero (literals_of ps)
      → All (IsStoredEntry vs) ps
  with_nonzero vs [] h n = tt
  with_nonzero vs (p ∷ ps) h n = ((h.0, n.0), with_nonzero vs ps h.1 n.1)

  -- One more clause.
  store_one :
      (vs : e.vars.Store) (done : List (List Literal)) (s : Stores) (vs' : e.vars.Store)
      (cl : List Literal) (row : ClauseRow)
      → IsStored vs done s
      → SameRows vs vs'
      → All (IsStoredEntry vs) row.clause.vars
      → literals_of row.clause.vars ≡ cl
      → IsStored vs
          (done ++ cl ∷ [])
          (record { vars = vs'; clauses = (e.clauses.insert s.clauses row).0 })
  store_one vs done s vs' cl row h rows entries lits =
      let s' : Stores = record { vars = vs'; clauses = (e.clauses.insert s.clauses row).0 } in
      let new = (e.clauses.insert s.clauses row).1 in
      let at_new : stored_at s' new ≡ row.clause.vars =
        ap (λ (r : ClauseRow). r.clause.vars) (e.clauses.at-insert_new s.clauses row) in
      let at_old : (d : ℕ) → In d (e.clauses.ids s.clauses) → stored_at s' d ≡ stored_at s d =
        λ d m. ap (λ (r : ClauseRow). r.clause.vars) (e.clauses.at-insert_old s.clauses row d m) in
      let split : (d : ℕ)
          → In d (e.clauses.ids s'.clauses)
          → In d (e.clauses.ids s.clauses ++ new ∷ []) =
        λ d m. subst (In d) (e.clauses.ids-insert s.clauses row) m in
      record {
        rows = rows;
        entries = λ d m. elim (In-append_cases d (e.clauses.ids s.clauses) (new ∷ []) (split d m)) [
          | inl i ↦ subst (All (IsStoredEntry vs)) (sym (at_old d i)) (h.entries d i)
          | inr (inl z) ↦
              subst (λ k. All (IsStoredEntry vs) (stored_at s' k)) z
                (subst (All (IsStoredEntry vs)) (sym at_new) entries)
          | inr (inr z) ↦ absurd z
        ];
        from = λ d m. elim (In-append_cases d (e.clauses.ids s.clauses) (new ∷ []) (split d m)) [
          | inl i ↦
              In-append_left _ done (cl ∷ [])
                (subst (λ ls. In (literals_of ls) done) (sym (at_old d i)) (h.from d i))
          | inr (inl z) ↦ In-append_right _ done (cl ∷ []) (
              inl (
                sym (
                  subst (λ k. literals_of (stored_at s' k) ≡ cl) z (ap literals_of at_new ∙ lits))))
          | inr (inr z) ↦ absurd z
        ];
        to = λ k m. elim (In-append_cases k done (cl ∷ []) m) [
          | inl i ↦
              let (d, md, q) = h.to k i in
              (
                d,
                subst (In d) (sym (e.clauses.ids-insert s.clauses row))
                    (In-append_left d _ (new ∷ []) md),
                ap literals_of (at_old d md) ∙ q,
              )
          | inr (inl z) ↦ (
            new,
            subst (In new) (sym (e.clauses.ids-insert s.clauses row))
                (In-append_right new (e.clauses.ids s.clauses) (new ∷ []) (inl refl)),
            ap literals_of at_new ∙ lits ∙ z,
          )
          | inr (inr z) ↦ absurd z
        ];
      }

  insert_clause-IsStored :
      (vs : e.vars.Store) (done : List (List Literal)) (s s' : Stores) (cl : List Literal)
      → IsStored vs done s
      → IsNonzero cl
      → insert_clause s cl ≡ ok s'
      → IsStored vs (done ++ cl ∷ []) s'
  unfolding insert_clause
  insert_clause-IsStored vs done s s' cl h n q =
      let (r, qr, q2) = ok-of_chain (map_literals s.vars cl) _ q in
      let (w, qw, q3) = ok-of_chain (make_watcher r.0 (record { vars = zip cl r.1 })) _ q2 in
      let m = map_literals-IsMapping vs s.vars cl r h.rows qr in
      let row : ClauseRow = record { clause = record { vars = zip cl r.1 }; watcher = w } in
      subst (IsStored vs (done ++ cl ∷ []))
        (ok-injective (record { vars = r.0; clauses = (e.clauses.insert s.clauses row).0 }) s' q3)
        (store_one vs done s r.0 cl row h m.rows
          (with_nonzero vs (zip cl r.1) m.mapped (subst IsNonzero (sym m.literals) n)) m.literals)

  insert_clauses-IsStored :
      (vs : e.vars.Store) (done : List (List Literal)) (s s' : Stores) (cs : List (List Literal))
      → IsStored vs done s
      → All IsNonzero cs
      → insert_clauses s cs ≡ ok s'
      → IsStored vs (done ++ cs) s'
  unfolding insert_clauses
  insert_clauses-IsStored vs done s s' [] h n q =
      rw append-nil (subst (IsStored vs done) (ok-injective s s' q) h)
  insert_clauses-IsStored vs done s s' (cl ∷ cs) h n q =
      let (s1, q1, q2) = ok-of_chain (insert_clause s cl) _ q in
      subst (λ ls. IsStored vs ls s') (append_assoc done (cl ∷ []) cs)
        (insert_clauses-IsStored vs (done ++ cl ∷ []) s1 s' cs
          (insert_clause-IsStored vs done s s1 cl h n.0 q1) n.1 q2)

  -- What the constructor makes of a model: a valid context whose clauses are, literal by literal, those
  -- of the model.
  pub record IsBuilt (m : Model) (c : Context) : Type 0 where
    pub canon : ℕ → ℕ
    pub valid : IsValid canon c
    pub from : (d : ℕ) → In d (clause_ids c) → In (literals_of (lits_at c d)) m.clauses
    pub to :
        (cl : List Literal)
        → In cl m.clauses
        → (d : ℕ) × In d (clause_ids c) × (literals_of (lits_at c d) ≡ cl)
    pub config : c.config ≡ m.conf
    pub level : c.level ≡ 0
    pub conflict_count : c.conflict_count ≡ 0
    pub variables : length (var_ids c) ≡ length m.literals

  no_id : (i : ℕ) → In i (e.vars.ids e.vars.empty) → ⊥
  no_id i m = subst (In i) e.vars.ids-empty m

  no_clause : (d : ℕ) → In d (e.clauses.ids e.clauses.empty) → ⊥
  no_clause d m = subst (In d) e.clauses.ids-empty m

  initial-IsBuilt :
      (m : Model) (vs : e.vars.Store) (s : Stores)
      → IsStored vs m.clauses s
      → length (e.vars.ids vs) ≡ length m.literals
      → IsBuilt m (initial m s)
  initial-IsBuilt m vs s h n = record {
    canon = canon_of vs;
    valid = record {
      entries = λ d i.
          All-imp (stored_at s d)
            (λ p k. record {
              known = subst (In p.1) (sym h.rows.ids) k.0.known;
              canonical = k.0.canonical;
              named = k.0.named ∙ ap value (sym (h.rows.literals p.1));
              nonzero = k.1;
            })
            (h.entries d i);
      ordered = tt;
      complete = λ i k a. let z = (h.rows.fresh i k).0 in cc;
      no_reason = λ i k a. (h.rows.fresh i k).1;
    };
    from = h.from;
    to = h.to;
    config = refl;
    level = refl;
    conflict_count = refl;
    variables = ap (length {A = ℕ}) h.rows.ids ∙ n;
  }

  -- For a model whose clauses have no literal 0, a context that the constructor returns is
  -- valid, and its clauses are, literal by literal, those of the model, in both directions.
  pub make_context-IsBuilt :
      (m : Model) (c : Context) → All IsNonzero m.clauses → make_context m ≡ ok c → IsBuilt m c
  unfolding make_context
  make_context-IsBuilt m c n q =
      let vs = insert_variables e.vars.empty m.literals in
      let s0 : Stores = record { vars = vs; clauses = e.clauses.empty } in
      let (s, qs, q2) = ok-of_chain (insert_clauses s0 m.clauses) _ q in
      let start : IsStored vs [] s0 = record {
        rows = record {
          ids = refl;
          literals = λ i. refl;
          fresh = insert_variables-IsFresh e.vars.empty m.literals (λ i k. absurd (no_id i k));
        };
        entries = λ d k. absurd (no_clause d k);
        from = λ d k. absurd (no_clause d k);
        to = λ cl k. absurd k;
      } in
      subst (IsBuilt m) (ok-injective (initial m s) c q2) (
        initial-IsBuilt m vs s (insert_clauses-IsStored vs [] s0 s m.clauses start n qs) (
          omega (
            arith,
            length-insert_variables e.vars.empty m.literals,
            ap (length {A = ℕ}) e.vars.ids-empty,
          )))
