-- ===== src/Examples/Decides.antt =====
-- The theorems on how the solver ends, applied to small models and to a file.
use fabko.Base.{ℕ, ◌<◌, ◌≡◌, ◌≢◌, refl, inl, inr, [], ◌∷◌, All, Distinct, word_count, pos, arith}
use fabko.Sat.Types.{Context}
use fabko.Sat.Watcher.{ok}
use fabko.Sat.Solve.{solve_sat, solve}
use fabko.Sat.Solve.Thresholds.{Lasts, Lasts-doubled, doubled}
use fabko.Sat.Solve.Rank.{rank}
use fabko.Sat.Solve.Restarted.{IsRanked}
use fabko.Sat.Solve.Descent.{solve_step_descends}
use fabko.Sat.Decides.{
  IsUnrepeated, conflict_bound, round_bound, built-IsRanked, Decides, solve_sat-Decides,
}
use fabko.Sat.Cnf.{solver_from_file}
use fabko.Sat.Cnf.Decides.{Answers, solver_from_file_decides}
use fabko.Examples.Solver.{
  list_env, default_configuration, small_model, unsat_model, built, built_small, first_round,
  first_step_unsat,
}
use fabko.Examples.Cnf.{doubling, file, model_of_file, read_file}
use fabko.Examples.Witness.{IsNonzero-small, made_unsat}

one : (i : ℕ) → Distinct (i ∷ [])
one i = (λ m. m, tt)

two : (i j : ℕ) → i ≢ j → Distinct (i ∷ j ∷ [])
two i j n = (λ m. elim m [ inl q ↦ omega (arith, n, q) | inr z ↦ z ], one j)

two_variables : Distinct {A = ℕ} (1 ∷ 2 ∷ [])
two_variables = two 1 2 (omega arith)

IsUnrepeated-small : All IsUnrepeated small_model.clauses
IsUnrepeated-small = (two_variables, (two_variables, (two 2 3 (omega arith), tt)))

pub IsUnrepeated-unsat : All IsUnrepeated unsat_model.clauses
IsUnrepeated-unsat = (two_variables, (two_variables, (two_variables, (two_variables, tt))))

-- 259 clauses over three variables.
Lasts-small : Lasts (conflict_bound 3) default_configuration
unfolding conflict_bound doubled word_count
Lasts-small =
    Lasts-doubled 2 100 (conflict_bound 3) default_configuration refl refl (omega arith)
      (omega arith) (omega arith)

Lasts-unsat : Lasts (conflict_bound 2) default_configuration
unfolding conflict_bound doubled word_count
Lasts-unsat =
    Lasts-doubled 2 100 (conflict_bound 2) default_configuration refl refl (omega arith)
      (omega arith) (omega arith)

bound_small : round_bound 3 < 2080
unfolding round_bound conflict_bound word_count
bound_small = omega arith

bound_file : round_bound 2 < 200
unfolding round_bound conflict_bound word_count
bound_file = omega arith

few_conflicts : conflict_bound 2 < 6_710_886_300
unfolding conflict_bound word_count
few_conflicts = omega arith

solve_sat-Decides_example : Decides small_model (solve_sat 2080 (built small_model))
solve_sat-Decides_example =
    solve_sat-Decides small_model (built small_model) 2080 IsNonzero-small IsUnrepeated-small refl
      built_small (omega arith) Lasts-small bound_small

pub IsRanked-unsat : IsRanked made_unsat.canon (built unsat_model)
IsRanked-unsat =
    built-IsRanked unsat_model (built unsat_model) made_unsat IsUnrepeated-unsat refl Lasts-unsat

solve_step_descends_example :
    IsRanked made_unsat.canon first_round × (rank first_round < rank (built unsat_model))
solve_step_descends_example =
    solve_step_descends made_unsat.canon (built unsat_model) first_round IsRanked-unsat
      first_step_unsat

solver_from_file_decides_example :
    (c : Context) × (solver_from_file tt file ≡ ok c) × Answers model_of_file (solve 200 c (pos 1))
solver_from_file_decides_example =
    solver_from_file_decides tt file model_of_file 200 read_file refl (two_variables, (one 2, tt))
      few_conflicts bound_file
