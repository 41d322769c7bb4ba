-- ===== src/Examples/Witness.antt =====
-- The theorems on the solver, applied to the contexts of two small models.
use fabko.Base.{
  ◌≢◌, ℕ, ◌<◌, pos, true, [], ◌∷◌, ◌≡◌, refl, sym, ◌∙◌, inl, inr, none, some, length, keep, All,
  arith, subst, ◌↔◌,
}
use Prim.Native.Nat.{min}
use fabko.Sat.Literal.{on}
use fabko.Sat.Types.{Context, Clause, ClauseWatcher, clause_ids}
use fabko.Sat.Watcher.{make_watcher, replace, find_free, size, is_free, err, bad_optional_access}
use fabko.Sat.Watcher.Laws.{make_watcher-IsWatching, replace-IsWatching, replace_throws_iff}
use fabko.Sat.Watcher.Made.{IsWatching, IsFreeIn}
use fabko.Sat.Build.{new_variable}
use fabko.Sat.Build.Valid.{IsBuilt, IsNonzero, make_context-IsBuilt}
use fabko.Sat.Propagate.{unit_propagation, unit_loop}
use fabko.Sat.Propagate.Valid.{IsPropagated, unit_propagation-IsPropagated}
use fabko.Sat.Propagate.Complete.{unit_propagation_settles, unit_propagation_enough}
use fabko.Sat.Propagate.Settling.{IsSettled}
use fabko.Sat.Backtrack.{backtrack}
use fabko.Sat.Backtrack.Valid.{IsBacktracked, backtrack-IsBacktracked}
use fabko.Sat.Decide.Valid.{IsDecision, make_decision-IsDecision}
use fabko.Sat.Vsids.{update_vsids_activity}
use fabko.Sat.Vsids.Valid.{Retunes, update_vsids_activity-Retunes}
use fabko.Sat.Resolve.{resolve_conflict}
use fabko.Sat.Resolve.Literals.{IsDerived}
use fabko.Sat.Resolve.Sound.{resolve_conflict-IsDerived}
use fabko.Sat.Solve.{running, solve_sat}
use fabko.Sat.Solve.Learn.{IsNext}
use fabko.Sat.Solve.Sound.{solve_sat-IsOutcome}
use fabko.Sat.Solve.Steps.{IsOutcome}
use fabko.Sat.Solve.Empty.{solve_sat_diverges}
use fabko.Sat.Correct.{Covers, Satisfies, solve_sat-solved, solve_sat-unsatisfiable}
use fabko.Examples.Solver.{
  lit, list_env, small_model, unsat_model, blank, context_of, built, run, built_small, built_unsat,
  run_small, run_unsat, after_decision, step_unsat, run-eq, conflict_unsat, before_solution,
  rounds_small, running_small, no_conflict_small, decision_small,
}

two-IsNonzero : (i j : ℕ) → 0 < i → 0 < j → IsNonzero (lit (pos i) ∷ lit (pos j) ∷ [])
two-IsNonzero i j h k = (omega (arith, h), (omega (arith, k), tt))

pub IsNonzero-small : All IsNonzero small_model.clauses
IsNonzero-small =
    let h = two-IsNonzero 1 2 (omega arith) (omega arith) in
    (h, (h, (two-IsNonzero 2 3 (omega arith) (omega arith), tt)))

IsNonzero-unsat : All IsNonzero unsat_model.clauses
IsNonzero-unsat = let h = two-IsNonzero 1 2 (omega arith) (omega arith) in (h, (h, (h, (h, tt))))

made_small : IsBuilt small_model (built small_model)
made_small = make_context-IsBuilt small_model (built small_model) IsNonzero-small built_small

pub made_unsat : IsBuilt unsat_model (built unsat_model)
made_unsat = make_context-IsBuilt unsat_model (built unsat_model) IsNonzero-unsat built_unsat

-- The context after the first decision, and after the propagation that finds the conflict.
IsNext-unsat : IsNext made_unsat.canon (built unsat_model) after_decision
IsNext-unsat =
    subst (IsOutcome made_unsat.canon (built unsat_model)) (sym (run-eq 1 unsat_model) ∙ step_unsat)
      (solve_sat-IsOutcome made_unsat.canon 1 (built unsat_model) made_unsat.valid)

abbrev pub conflicting : Context
conflicting = (unit_propagation after_decision).0

pub conflicting-IsPropagated :
    IsPropagated made_unsat.canon after_decision (unit_propagation after_decision)
conflicting-IsPropagated =
    unit_propagation-IsPropagated made_unsat.canon after_decision IsNext-unsat.valid

solve_sat-solved_example : Covers (lit (pos 1) ∷ lit (pos 2) ∷ lit (pos 3) ∷ []) small_model.clauses
solve_sat-solved_example =
    solve_sat-solved small_model (built small_model) (context_of (run 10 small_model)) 10
      (lit (pos 1) ∷ lit (pos 2) ∷ lit (pos 3) ∷ []) IsNonzero-small built_small
      (sym (run-eq 10 small_model) ∙ run_small)

solve_sat-unsatisfiable_example : ¬ Satisfies (λ n. true) unsat_model.clauses
solve_sat-unsatisfiable_example =
    solve_sat-unsatisfiable unsat_model (built unsat_model) (context_of (run 10 unsat_model)) 10
      (λ n. true) IsNonzero-unsat built_unsat (sym (run-eq 10 unsat_model) ∙ run_unsat)

solve_sat-IsOutcome_example :
    IsOutcome made_small.canon (built small_model) (solve_sat 10 (built small_model))
solve_sat-IsOutcome_example =
    solve_sat-IsOutcome made_small.canon 10 (built small_model) made_small.valid

resolve_conflict-IsDerived_example :
    IsDerived made_unsat.canon conflicting (resolve_conflict conflicting 3).learned_clause.vars
resolve_conflict-IsDerived_example =
    resolve_conflict-IsDerived made_unsat.canon conflicting 3 conflicting-IsPropagated.valid
      (conflicting-IsPropagated.conflicting 3 conflict_unsat)

unit_propagation_settles_example :
    All
      (IsSettled (unit_propagation (built small_model)).0)
      (clause_ids (unit_propagation (built small_model)).0)
unit_propagation_settles_example =
    unit_propagation_settles made_small.canon (built small_model) made_small.valid no_conflict_small

unit_propagation-IsPropagated_example :
    IsPropagated made_small.canon (built small_model) (unit_propagation (built small_model))
unit_propagation-IsPropagated_example =
    unit_propagation-IsPropagated made_small.canon (built small_model) made_small.valid

unit_propagation_enough_example :
    unit_loop 5 (built small_model) ≡ unit_propagation (built small_model)
unfolding built
unit_propagation_enough_example =
    unit_propagation_enough made_small.canon (built small_model) 5 made_small.valid (omega arith)

make_context-IsBuilt_example : IsBuilt small_model (built small_model)
make_context-IsBuilt_example =
    make_context-IsBuilt small_model (built small_model) IsNonzero-small built_small

backtrack-IsBacktracked_example :
    IsBacktracked made_unsat.canon conflicting (backtrack conflicting 0) 0
backtrack-IsBacktracked_example =
    backtrack-IsBacktracked made_unsat.canon conflicting 0 conflicting-IsPropagated.valid

make_decision-IsDecision_example :
    IsDecision made_small.canon (built small_model) (context_of (run 1 small_model))
make_decision-IsDecision_example =
    make_decision-IsDecision made_small.canon (built small_model) (context_of (run 1 small_model))
      made_small.valid decision_small

update_vsids_activity-Retunes_example :
    Retunes
      (built small_model)
      (update_vsids_activity (built small_model) (record { vars = (lit (pos 2), 1) ∷ [] }))
unfolding built
update_vsids_activity-Retunes_example =
    update_vsids_activity-Retunes (built small_model) (record { vars = (lit (pos 2), 1) ∷ [] })
      (inr (inl refl), tt)

solve_sat_diverges_example : (c : Context) × (solve_sat 100 blank ≡ running c)
solve_sat_diverges_example =
    solve_sat_diverges (λ n. n) blank 100
      (record {
        entries = λ d m. absurd m;
        ordered = tt;
        complete = λ i m h. absurd m;
        no_reason = λ i m h. absurd m;
      })
      refl refl

-- Three variables, the first of them assigned, and a clause of them.
abbrev three_variables : list_env.vars.Store
three_variables =
    record (new_variable (lit (pos 1))) { assignment = on }
    ∷ new_variable (lit (pos 2))
    ∷ new_variable (lit (pos 3))
    ∷ []

abbrev three_literals : Clause
three_literals = record { vars = (lit (pos 1), 0) ∷ (lit (pos 2), 1) ∷ (lit (pos 3), 2) ∷ [] }

abbrev watch_both : ℕ → ℕ → ClauseWatcher
watch_both i j = record { first = some i; second = some j }

make_watcher-IsWatching_example :
    IsWatching three_variables three_literals (watch_both 1 2)
    × (size (watch_both 1 2) ≡ min 2 (length (keep (is_free three_variables) three_literals.vars)))
unfolding make_watcher
make_watcher-IsWatching_example =
    make_watcher-IsWatching three_variables three_literals (watch_both 1 2) refl

differ : (k : ℕ) → some 0 ≡ some k → some 1 ≡ some k → ⊥
differ k h q = cc

second_is_free : (k : ℕ) → some 1 ≡ some k → k ≢ 0 → IsFreeIn three_variables three_literals k
second_is_free k h n = record {
  entry = (lit (pos 2), 1);
  inside = inr (inl refl);
  named = cc;
  free = refl;
}

replace-IsWatching_example : IsWatching three_variables three_literals (watch_both 2 1)
unfolding replace find_free
replace-IsWatching_example =
    replace-IsWatching three_variables three_literals (watch_both 0 1) (watch_both 2 1) 0
      (λ k h n. absurd (n cc)) second_is_free (λ k h q. absurd (differ k h q)) refl

abbrev throwing : ClauseWatcher
throwing = record { first = none; second = some 1 }

replace_throws_iff_example :
    (replace three_variables throwing three_literals 1 ≡ err bad_optional_access)
    ↔ ((throwing.first ≡ none) × (throwing.second ≡ some 1))
replace_throws_iff_example = replace_throws_iff three_variables three_literals throwing 1

-- The context before the round that finds the solution.
before_solution-IsNext : IsNext made_small.canon (built small_model) before_solution
before_solution-IsNext =
    subst (IsOutcome made_small.canon (built small_model))
      (sym (run-eq rounds_small small_model) ∙ running_small)
      (solve_sat-IsOutcome made_small.canon rounds_small (built small_model) made_small.valid)
