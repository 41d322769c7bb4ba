-- ===== src/Sat/Correct.antt =====
-- The solver against the meaning of its model: a valuation of the variable numbers satisfies a clause
-- if it makes one of its literals true.
use fabko.Base.{
  ℕ, zero, suc, ℤ, pos, negsuc, abs, Bool, true, not, ◌&&◌, ◌||◌, ◌≡◌, refl, sym, ◌∙◌, ap, subst,
  inl, inr, List, [], ◌∷◌, map, In, any, any_elim, all_elim, All, All-In, All-of_In, arith,
}
use fabko.Sat.Literal.{
  Literal, Assignment, on, off, not_assigned, value, is_on, is_off, is_assigned_on,
}
use fabko.Sat.Types.{
  Env, Context, Entry, Model, var_at, lits_at, var_ids, clause_ids, assignment_at,
}
use fabko.Sat.Clauses.{lit_true, is_clause_satisfied}
use fabko.Sat.Watcher.{ok}
use fabko.Sat.Build.{make_context}
use fabko.Sat.Build.Valid.{IsNonzero, literals_of, IsBuilt, make_context-IsBuilt}
use fabko.Sat.Solve.{solved, unsatisfiable, solve_sat, solution, all_satisfied, signed}
use fabko.Sat.Solve.Learn.{IsNext}
use fabko.Sat.Solve.Sound.{solve_sat-IsOutcome}
use fabko.Sat.Solve.Steps.{IsOutcome}
use fabko.Sat.Invariant.{holds, Models, IsEntry, IsValid}

-- A valuation of the variable numbers makes a literal true.
abbrev pub lit_holds : (ℕ → Bool) → Literal → Bool
lit_holds μ l = (is_on l && μ (value l)) || (is_off l && not (μ (value l)))

-- It satisfies every clause.
abbrev pub Satisfies : (ℕ → Bool) → List (List Literal) → Type 0
Satisfies μ cs = All (λ cl. any (lit_holds μ) cl ≡ true) cs

-- The list of literals has one of each clause.
abbrev pub Covers : List Literal → List (List Literal) → Type 0
Covers ls cs = All (λ (cl : List Literal). (l : Literal) × In l cl × In l ls) cs

abbrev of_int : ℤ → Literal
of_int v = record { value_ = v }

signed_of :
    (v : ℤ) (a : Assignment)
    → lit_true (of_int v) a ≡ true
    → signed (abs v) (is_assigned_on a) ≡ of_int v
signed_of (pos zero) a h = cc
signed_of (pos (suc n)) on h = refl
signed_of (pos (suc n)) off h = cc
signed_of (pos (suc n)) not_assigned h = cc
signed_of (negsuc n) on h = cc
signed_of (negsuc n) off h = refl
signed_of (negsuc n) not_assigned h = cc

In-map : (f : ℕ → Literal) (is : List ℕ) (i : ℕ) → In i is → In (f i) (map f is)
In-map f [] i m = absurd m
In-map f (j ∷ is) i (inl z) = inl (ap f z)
In-map f (j ∷ is) i (inr m) = inr (In-map f is i m)

In-literals_of : (ps : List Entry) (p : Entry) → In p ps → In p.0 (literals_of ps)
In-literals_of [] p m = absurd m
In-literals_of (q ∷ ps) p (inl z) = inl (ap (λ (r : Entry). r.0) z)
In-literals_of (q ∷ ps) p (inr m) = inr (In-literals_of ps p m)

module _ ⦃e : Env⦄ where
  -- A satisfied clause has a literal of the solution.
  satisfied_literal :
      (canon : ℕ → ℕ) (c : Context) (d : ℕ)
      → IsValid canon c
      → In d (clause_ids c)
      → all_satisfied c ≡ true
      → (l : Literal) × In l (literals_of (lits_at c d)) × In l (solution c)
  unfolding all_satisfied is_clause_satisfied solution
  satisfied_literal canon c d v m t =
      let (p, i, h) =
        any_elim (λ (q : Entry). lit_true q.0 (assignment_at c q.1)) (lits_at c d)
          (all_elim _ (clause_ids c) t d m) in
      let entry = All-In (IsEntry canon c) (lits_at c d) (v.entries d m) p i in
      let f = λ (k : ℕ). signed (value (var_at c k).literal) (is_assigned_on (assignment_at c k)) in
      let same : f p.1 ≡ p.0 =
        ap (λ n. signed n (is_assigned_on (assignment_at c p.1))) (sym entry.named)
        ∙ signed_of p.0.value_ (assignment_at c p.1) h in
      (
        p.0,
        In-literals_of (lits_at c d) p i,
        subst (λ l. In l (map f (var_ids c))) same (In-map f (var_ids c) p.1 entry.known),
      )

  solved-Covers :
      (m : Model) (c c' : Context) (ls : List Literal)
      → (b : IsBuilt m c) → IsNext b.canon c c'
      → ls ≡ solution c'
      → all_satisfied c' ≡ true
      → Covers ls m.clauses
  solved-Covers m c c' ls b n q t = All-of_In _ m.clauses λ cl i.
      let (d, md, lits) = b.to cl i in
      let same = ap literals_of (n.extends.lits d md) ∙ lits in
      let (l, il, is) = satisfied_literal b.canon c' d n.valid (n.extends.kept d md) t in
      (l, subst (In l) same il, subst (In l) (sym q) is)

  -- A valuation of the numbers, as one of the ids.
  abbrev by_id : (ℕ → Bool) → Context → ℕ → Bool
  by_id μ c i = μ (value (var_at c i).literal)

  any-by_id :
      (canon : ℕ → ℕ) (c : Context) (μ : ℕ → Bool) (ps : List Entry)
      → All (IsEntry canon c) ps
      → any (lit_holds μ) (literals_of ps) ≡ true
      → any (holds (by_id μ c)) ps ≡ true
  any-by_id canon c μ [] h t = t
  any-by_id canon c μ (p ∷ ps) h t =
      let q : lit_holds μ p.0 ≡ holds (by_id μ c) p =
        ap (λ n. (is_on p.0 && μ n) || (is_off p.0 && not (μ n))) (h.0).named in
      let rest = any-by_id canon c μ ps h.1 in rw (← q) (ground arith)

  Models-of_Satisfies :
      (m : Model) (c : Context) (μ : ℕ → Bool)
      → (b : IsBuilt m c) → Satisfies μ m.clauses
      → Models (by_id μ c) c
  Models-of_Satisfies m c μ b s d i =
      any-by_id b.canon c μ (lits_at c d) (b.valid.entries d i)
        (All-In _ m.clauses s (literals_of (lits_at c d)) (b.from d i))

  -- For a model whose clauses have no literal 0, if the constructor succeeds and the main loop
  -- returns a solution, then the solution contains, for each clause of the model, one of its
  -- literals, sign included.
  pub solve_sat-solved :
      (m : Model) (c c' : Context) (fuel : ℕ) (ls : List Literal)
      → All IsNonzero m.clauses
      → make_context m ≡ ok c
      → solve_sat fuel c ≡ solved c' ls
      → Covers ls m.clauses
  solve_sat-solved m c c' fuel ls n q r =
      let b = make_context-IsBuilt m c n q in
      let o : IsOutcome b.canon c (solved c' ls) =
        subst (IsOutcome b.canon c) r (solve_sat-IsOutcome b.canon fuel c b.valid) in
      solved-Covers m c c' ls b o.0 o.1 o.2

  -- For a model whose clauses have no literal 0, if the constructor succeeds and the main loop
  -- answers unsatisfiable, then no valuation of the variables satisfies all clauses of the
  -- model.
  pub solve_sat-unsatisfiable :
      (m : Model) (c c' : Context) (fuel : ℕ) (μ : ℕ → Bool)
      → All IsNonzero m.clauses
      → make_context m ≡ ok c
      → solve_sat fuel c ≡ unsatisfiable c'
      → ¬ Satisfies μ m.clauses
  solve_sat-unsatisfiable m c c' fuel μ n q r s =
      let b = make_context-IsBuilt m c n q in
      let o : IsOutcome b.canon c (unsatisfiable c') =
        subst (IsOutcome b.canon c) r (solve_sat-IsOutcome b.canon fuel c b.valid) in
      o (by_id μ c) (Models-of_Satisfies m c μ b s)
