-- ===== src/Examples/Solver.antt =====
-- The solver run on small models.
use fabko.Base.{ℕ, ℤ, pos, negsuc, List, [], ◌∷◌, ◌≡◌, refl, none, some}
use fabko.Sat.Literal.{Literal}
use fabko.Sat.Types.{Env, Model, Configuration, Context}
use fabko.Sat.Clauses.{is_clause_satisfied, unassigned}
use fabko.Sat.Propagate.{
  unit_propagation, propagate_all, propagate_each, propagate, propagate_unassigned, assign,
  count_propagations,
}
use fabko.Sat.Backtrack.{backtrack, pop}
use fabko.Sat.Decide.{make_decision, unassigned_vars, decide, highest_vsids}
use fabko.Sat.Resolve.{resolve_conflict, add_literal, sort_insert, unique_from}
use fabko.Sat.Vsids.{change_activity, need_normalization, update_each, update_vsids_activity}
use fabko.Sat.Build.{
  map_literals, find_variable, insert_clauses, insert_variables, zip, new_variable, make_context,
  no_statistics,
}
use fabko.Sat.Solve.{
  restart, no_conflict, all_satisfied, count_conflict, learn_additional_clause, learn_and_backtrack,
  on_conflict, solution, solve_sat, solve_step, Step, running, solved, unsatisfiable, thrown,
}
use fabko.Sat.Watcher.{make_watcher, ok, err}
use fabko.Examples.Store.{list_soa}

abbrev pub lit : ℤ → Literal
lit v = record { value_ = v }

-- Ratios are left alone, a float is a unit.
instance abbrev pub list_env : Env
list_env = record {
  vars = list_soa (new_variable (record { value_ = pos 0 }));
  clauses =
      list_soa (record {
        clause = record { vars = [] };
        watcher = record { first = none; second = none };
      });
  Float = Unit {0};
  divide = λ x r. x;
  divide_1e6 = λ x. x;
}

abbrev pub default_configuration : Configuration
default_configuration = record {
  restart_threshold = 100;
  restart_multiplier = 2;
  vsids_increment = pos 10;
  decay_interval = pos 100;
  vsids_decay_ratio = tt;
}

-- (1 or 2) and (-1 or 2) and (-2 or 3)
abbrev pub small_model : Model
small_model = record {
  literals = lit (pos 1) ∷ lit (pos 2) ∷ lit (pos 3) ∷ [];
  clauses =
      (lit (pos 1) ∷ lit (pos 2) ∷ [])
      ∷ (lit (negsuc 0) ∷ lit (pos 2) ∷ [])
      ∷ (lit (negsuc 1) ∷ lit (pos 3) ∷ [])
      ∷ [];
  conf = default_configuration;
}

abbrev pub unsat_model : Model
unsat_model = record {
  literals = lit (pos 1) ∷ lit (pos 2) ∷ [];
  clauses =
      (lit (pos 1) ∷ lit (pos 2) ∷ [])
      ∷ (lit (negsuc 0) ∷ lit (pos 2) ∷ [])
      ∷ (lit (pos 1) ∷ lit (negsuc 1) ∷ [])
      ∷ (lit (negsuc 0) ∷ lit (negsuc 1) ∷ [])
      ∷ [];
  conf = default_configuration;
}

abbrev pub blank : Context
blank = record {
  config = default_configuration;
  vars = [];
  clauses = [];
  trail = [];
  conflict_count = 0;
  level = 0;
  statistics = no_statistics;
}

abbrev pub context_of : Step → Context
context_of (running c) = c
context_of (solved c ls) = c
context_of (unsatisfiable c) = c
context_of (thrown x) = blank

-- The context that the constructor makes of a model.
unfoldable pub built : Model → Context
unfolding make_context map_literals find_variable make_watcher insert_clauses insert_variables zip
built m = elim (make_context m) [ ok c ↦ c | err x ↦ blank ]

-- The line names all that a run of the solver computes with.
unfoldable pub run : ℕ → Model → Step
unfolding built solve_sat solve_step unit_propagation propagate_all propagate_each propagate
    propagate_unassigned assign is_clause_satisfied unassigned restart count_propagations
    no_conflict make_decision unassigned_vars decide highest_vsids backtrack pop resolve_conflict
    add_literal sort_insert unique_from all_satisfied count_conflict learn_additional_clause
    learn_and_backtrack on_conflict solution change_activity need_normalization update_each
    update_vsids_activity
run fuel m = solve_sat fuel (built m)

pub built_small : make_context small_model ≡ ok (built small_model)
unfolding built
built_small = refl

pub built_unsat : make_context unsat_model ≡ ok (built unsat_model)
unfolding built
built_unsat = refl

-- How a run ends, without the context that it leaves.
data Verdict : Type 0 where
  still_running : Verdict
  found : List Literal → Verdict
  refuted failed : Verdict

abbrev verdict_of : Step → Verdict
verdict_of (running c) = still_running
verdict_of (solved c ls) = found ls
verdict_of (unsatisfiable c) = refuted
verdict_of (thrown x) = failed

solved_of : (s : Step) (ls : List Literal) → verdict_of s ≡ found ls → s ≡ solved (context_of s) ls
solved_of (running c) ls h = cc
solved_of (solved c ms) ls h = cc
solved_of (unsatisfiable c) ls h = cc
solved_of (thrown x) ls h = cc

unsatisfiable_of : (s : Step) → verdict_of s ≡ refuted → s ≡ unsatisfiable (context_of s)
unsatisfiable_of (running c) h = cc
unsatisfiable_of (solved c ms) h = cc
unsatisfiable_of (unsatisfiable c) h = cc
unsatisfiable_of (thrown x) h = cc

running_of : (s : Step) → verdict_of s ≡ still_running → s ≡ running (context_of s)
running_of (running c) h = refl
running_of (solved c ms) h = cc
running_of (unsatisfiable c) h = cc
running_of (thrown x) h = cc

verdict_small :
    verdict_of (run 10 small_model) ≡ found (lit (pos 1) ∷ lit (pos 2) ∷ lit (pos 3) ∷ [])
unfolding run
verdict_small = refl

verdict_unsat : verdict_of (run 10 unsat_model) ≡ refuted
unfolding run
verdict_unsat = refl

verdict_step : verdict_of (run 1 unsat_model) ≡ still_running
unfolding run
verdict_step = refl

pub run_small :
    run 10 small_model
    ≡ solved (context_of (run 10 small_model)) (lit (pos 1) ∷ lit (pos 2) ∷ lit (pos 3) ∷ [])
run_small = solved_of _ _ verdict_small

pub run_unsat : run 10 unsat_model ≡ unsatisfiable (context_of (run 10 unsat_model))
run_unsat = unsatisfiable_of _ verdict_unsat

-- One round decides a variable, and propagation then falsifies the fourth clause.
abbrev pub after_decision : Context
after_decision = context_of (run 1 unsat_model)

pub step_unsat : run 1 unsat_model ≡ running after_decision
step_unsat = running_of _ verdict_step

pub run-eq : (fuel : ℕ) (m : Model) → run fuel m ≡ solve_sat fuel (built m)
unfolding run
run-eq fuel m = refl

pub conflict_unsat : (unit_propagation after_decision).1 ≡ some 3
unfolding run
conflict_unsat = refl

pub no_conflict_small : (unit_propagation (built small_model)).1 ≡ none
unfolding run
no_conflict_small = refl

pub decision_small : make_decision (built small_model) ≡ some (context_of (run 1 small_model))
unfolding run
decision_small = refl

abbrev pub rounds_small : ℕ
rounds_small = 2

-- The context before the round that finds the solution.
abbrev pub before_solution : Context
before_solution = context_of (run rounds_small small_model)

verdict_before : verdict_of (run rounds_small small_model) ≡ still_running
unfolding run
verdict_before = refl

pub running_small : run rounds_small small_model ≡ running before_solution
running_small = running_of _ verdict_before

pub no_conflict_before : (unit_propagation before_solution).1 ≡ none
unfolding run
no_conflict_before = refl

pub no_decision_before : make_decision (unit_propagation before_solution).0 ≡ none
unfolding run
no_decision_before = refl

abbrev pub first_round : Context
first_round = context_of (solve_step (built unsat_model))

verdict_round : verdict_of (solve_step (built unsat_model)) ≡ still_running
unfolding run
verdict_round = refl

pub first_step_unsat : solve_step (built unsat_model) ≡ running first_round
first_step_unsat = running_of _ verdict_round
