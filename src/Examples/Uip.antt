-- ===== src/Examples/Uip.antt =====
-- The theorems on what conflict resolution learns, applied to the conflict of a small model.
use fabko.Base.{
  ℕ, ◌∙◌, negsuc, [], ◌∷◌, ◌≡◌, refl, sym, inl, inr, map, In, Distinct, subst, arith, pos, ap,
  true≢false,
}
use fabko.Sat.Literal.{not_assigned, is_unassigned}
use fabko.Sat.Invariant.Frame.{IsValid-same}
use fabko.Sat.Solve.Levels.{NotBelow}
use fabko.Sat.Solve.Stuck.{solve_sat_stuck}
use fabko.Sat.Types.{Context, var_ids, assignment_at, Entry, lits_at, level_at}
use fabko.Sat.Resolve.{resolve_conflict}
use fabko.Sat.Resolve.Uip.{IsLow}
use fabko.Sat.Resolve.Asserting.{IsAsserting, IsLevel, resolve_conflict-IsAsserting}
use fabko.Sat.Solve.{running, solve_sat, solve_step}
use fabko.Sat.Solve.Novel.{IsReady}
use fabko.Sat.Solve.Ready.{solve_step-IsReadyStep}
use fabko.Sat.Solve.Same.{IsReadyStep}
use fabko.Examples.Solver.{
  lit, list_env, run, conflict_unsat, built, unsat_model, first_round, first_step_unsat,
}
use fabko.Examples.Decides.{IsRanked-unsat}
use fabko.Examples.Witness.{made_unsat, conflicting, conflicting-IsPropagated}

abbrev first_entry : Entry
first_entry = (lit (negsuc 0), 0)

conflict_entries : lits_at conflicting 3 ≡ first_entry ∷ (lit (negsuc 1), 1) ∷ []
unfolding run
conflict_entries = refl

level_one : conflicting.level ≡ 1
unfolding run
level_one = refl

first_level : level_at conflicting 0 ≡ 1
unfolding run
first_level = refl

two_variables : Distinct {A = ℕ} (0 ∷ 1 ∷ [])
two_variables = (λ m. elim m [ inl q ↦ omega (arith, q) | inr z ↦ z ], ((λ m. m), tt))

-- The context after the first round, which decided a variable.
decided-IsReady : IsReady made_unsat.canon first_round
decided-IsReady =
    (subst (IsReadyStep made_unsat.canon (built unsat_model)) first_step_unsat
      (solve_step-IsReadyStep made_unsat.canon (built unsat_model) IsRanked-unsat.ready)).0

solve_step-IsReadyStep_example : IsReadyStep made_unsat.canon first_round (solve_step first_round)
solve_step-IsReadyStep_example = solve_step-IsReadyStep made_unsat.canon first_round decided-IsReady

resolve_conflict-IsAsserting_example :
    IsAsserting made_unsat.canon conflicting (resolve_conflict conflicting 3).learned_clause.vars
    × IsLow made_unsat.canon conflicting (resolve_conflict conflicting 3).backtrack_level
    × IsLevel made_unsat.canon conflicting
        (resolve_conflict conflicting 3).learned_clause.vars
        (resolve_conflict conflicting 3).backtrack_level
resolve_conflict-IsAsserting_example =
    resolve_conflict-IsAsserting made_unsat.canon conflicting 3 first_entry
      conflicting-IsPropagated.valid (conflicting-IsPropagated.conflicting 3 conflict_unsat)
      (subst (λ ls. Distinct (map (λ (q : Entry). q.1) ls)) (sym conflict_entries) two_variables)
      (subst (In first_entry) (sym conflict_entries) (inl refl)) (first_level ∙ sym level_one)

-- The context after the first round, with a threshold that has wrapped.
abbrev wrapped_round : Context
wrapped_round = record first_round {
  config = record {
    restart_threshold = 0;
    restart_multiplier = 2;
    vsids_increment = pos 10;
    decay_interval = pos 100;
    vsids_decay_ratio = tt;
  };
}

first_level_one : first_round.level ≡ 1
unfolding run
first_level_one = refl

second_known : In 1 (var_ids first_round)
unfolding run
second_known = inr (inl refl)

second_free : assignment_at first_round 1 ≡ not_assigned
unfolding run
second_free = refl

not_below : NotBelow wrapped_round 1 1
not_below a = absurd (true≢false (ap is_unassigned (sym second_free) ∙ a))

solve_sat_stuck_example : (c : Context) × (solve_sat 1000 wrapped_round ≡ running c)
solve_sat_stuck_example = solve_sat_stuck made_unsat.canon wrapped_round 1000 (record {
  ready = record {
    valid =
        IsValid-same made_unsat.canon first_round wrapped_round refl refl refl refl
          decided-IsReady.valid;
    history = decided-IsReady.history;
    distinct = decided-IsReady.distinct;
  };
  wrapped = refl;
  begun = omega (arith, first_level_one);
  free = (1, second_known, not_below);
})
