-- ===== src/Sat/Solve/Empty.antt =====
-- The main loop of fabko/compiler/backend/sat/solver_impl.cpp on a model with nothing in it: its
-- solution is the empty list, which the loop takes for no solution yet.
use fabko.Base.{
  ℕ, zero, suc, true, ◌≡◌, refl, sym, ◌∙◌, ap, subst, inl, inr, [], map, none, All, is_nil,
  Bool-cases, Option-cases,
}
use fabko.Sat.Literal.{value, is_assigned_on}
use fabko.Sat.Types.{Env, Context, var_ids, clause_ids, var_at, assignment_at}
use fabko.Sat.Propagate.{unit_propagation}
use fabko.Sat.Propagate.Settling.{IsSettled}
use fabko.Sat.Propagate.Settled.{settled_stays}
use fabko.Sat.Decide.{make_decision}
use fabko.Sat.Decide.Valid.{make_decision-IsDecision}
use fabko.Sat.Solve.{
  signed, running, restart, solution, all_satisfied, on_complete, no_conflict, after_propagation,
  solve_step, solve_sat,
}
use fabko.Sat.Solve.Steps.{restart-IsNext}
use fabko.Sat.Solve.Progress.{restart-clauses}
use fabko.Sat.Invariant.{IsValid}

module _ ⦃e : Env⦄ (canon : ℕ → ℕ) where
  solution_nil : (c : Context) → var_ids c ≡ [] → is_nil (solution c) ≡ true
  unfolding solution
  solution_nil c h =
      ap
        (λ is.
          is_nil (
            map (λ i. signed (value (var_at c i).literal) (is_assigned_on (assignment_at c i))) is))
        h

  -- Nothing is left to decide.
  complete_goes_on : (c : Context) → var_ids c ≡ [] → on_complete c ≡ running c
  unfolding on_complete
  complete_goes_on c h = elim (Bool-cases (all_satisfied c)) [
    | inl t ↦ rw t (rw (solution_nil c h) refl)
    | inr f ↦ rw f refl
  ]

  -- A context without variables and clauses.
  record IsEmpty (c : Context) : Type 0 where
    valid : IsValid canon c
    no_vars : var_ids c ≡ []
    no_clauses : clause_ids c ≡ []

  no_conflict_goes_on :
      (c : Context) → IsEmpty c → (c' : Context) × (no_conflict c ≡ running c') × IsEmpty c'
  unfolding no_conflict
  no_conflict_goes_on c h = elim (Option-cases (make_decision c)) [
    | inl n ↦ (c, rw (n, no_conflict) (complete_goes_on c h.no_vars), h)
    | inr (c', q) ↦
        let k = make_decision-IsDecision canon c c' h.valid q in
        (
          c',
          rw (q, no_conflict) refl,
          record {
            valid = k.valid;
            no_vars = k.ids ∙ h.no_vars;
            no_clauses = ap e.clauses.ids k.clauses ∙ h.no_clauses;
          },
        )
  ]

  -- Nothing is in conflict, so the round goes on.
  round_goes_on :
      (c : Context) → IsEmpty c → (c' : Context) × (solve_step c ≡ running c') × IsEmpty c'
  unfolding solve_step after_propagation
  round_goes_on c h =
      let n = restart-IsNext canon c h.valid in
      let h1 : IsEmpty (restart c) = record {
        valid = n.valid;
        no_vars = n.extends.ids ∙ h.no_vars;
        no_clauses = restart-clauses canon c h.valid ∙ h.no_clauses;
      } in
      let (c', q, h') = no_conflict_goes_on (restart c) h1 in
      let stays : unit_propagation (restart c) ≡ (restart c, none) =
        settled_stays (restart c) (subst (All (IsSettled (restart c))) (sym h1.no_clauses) tt) in
      (c', ap after_propagation stays ∙ q, h')

  goes_on : (fuel : ℕ) (c : Context) → IsEmpty c → (c' : Context) × (solve_sat fuel c ≡ running c')
  unfolding solve_sat
  goes_on zero c h = (c, refl)
  goes_on (suc fuel) c h =
      let (c1, q, h1) = round_goes_on c h in
      let (c', r) = goes_on fuel c1 h1 in (c', rw (q, solve_sat) r)

  -- From a valid context without variables and clauses no number of rounds ends the main loop.
  pub solve_sat_diverges :
      (c : Context) (fuel : ℕ)
      → IsValid canon c
      → var_ids c ≡ []
      → clause_ids c ≡ []
      → (c' : Context) × (solve_sat fuel c ≡ running c')
  solve_sat_diverges c fuel v hv hc =
      goes_on fuel c (record { valid = v; no_vars = hv; no_clauses = hc })
