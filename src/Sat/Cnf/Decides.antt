-- ===== src/Sat/Cnf/Decides.antt =====
-- From a CNF file to an answer: `make_model_from_cnf_file`, the constructor and `solver::solve` of
-- fabko/compiler/backend/sat/solver.cpp together.
use fabko.Base.{
  ℕ, ◌^◌, ◌<◌, ◌≡◌, ◌⊎◌, refl, sym, ◌∙◌, ap, to_size, inl, inr, List, [], ◌∷◌, All, Bool, false,
  Option, none, some, is_nil, length, pos, arith,
}
use fabko.Sat.Literal.{Literal}
use fabko.Sat.Types.{Env, Context, Model}
use fabko.Sat.Watcher.{Result, ok, err}
use fabko.Sat.Solve.{
  Step, running, solved, unsatisfiable, thrown, solve_sat, Solutions, solve_times, solve,
}
use fabko.Sat.Solve.Thresholds.{Lasts-doubled, doubled}
use fabko.Sat.Correct.{Covers, Satisfies}
use fabko.Sat.Decides.{IsUnrepeated, conflict_bound, round_bound, Decides, solve_sat-Decides}
use fabko.Sat.Cnf.{VectorGrowth, CnfFile, make_model_from_cnf_file, solver_from_file}
use fabko.Sat.Cnf.Laws.{make_model_from_cnf_file-IsReadable, solver_from_file_total}

module _ ⦃e : Env⦄ where
  -- One result, with a literal of each clause, or none, where no valuation satisfies the clauses.
  abbrev pub Answers : Model → Option (Result Solutions) → Type 0
  Answers m none = ⊥
  Answers m (some (err x)) = ⊥
  Answers m (some (ok s)) =
      ((ls : List Literal) × (s.results ≡ ls ∷ []) × Covers ls m.clauses)
      ⊎ ((s.results ≡ []) × ((μ : ℕ → Bool) → ¬ Satisfies μ m.clauses))

  Answers-of_Decides :
      (m : Model) (fuel : ℕ) (c : Context)
      → Decides m (solve_sat fuel c)
      → Answers m (solve fuel c (pos 1))
  unfolding solve solve_times
  Answers-of_Decides m fuel c h = go (solve_sat fuel c) h
    where
      go :
          (s : Step)
          → Decides m s
          → Answers m (elim s [
            | running c' ↦ none
            | solved c' ls ↦ some (ok (record { context = c'; results = ls ∷ [] }))
            | unsatisfiable c' ↦ some (ok (record { context = c'; results = [] }))
            | thrown x ↦ some (err x)
          ])
      go (running c') d = d
      go (solved c' ls) d = inl (ls, refl, d)
      go (unsatisfiable c') d = inr (refl, d)
      go (thrown x) d = d

doubled_fits : doubled 25 100 < 2 ^ 32
unfolding doubled
doubled_fits = omega arith

doubled_limit : doubled 25 200 ≡ 6_710_886_400
unfolding doubled
doubled_limit = refl

module _ ⦃g : VectorGrowth⦄ ⦃e : Env⦄ where
  -- If a model that has a variable is read from a file, its clauses name each variable once, and
  -- the conflicts that are possible over its variables are too few for the restart threshold to
  -- wrap, then the solver is built from the file, and asked for one solution on any fuel above
  -- the bound for the number of variables it gives a list with a literal of each clause, sign
  -- included, or none where no valuation satisfies the clauses.
  pub solver_from_file_decides :
      (ratio : e.Float) (file : CnfFile) (m : Model) (fuel : ℕ)
      → make_model_from_cnf_file ratio file ≡ ok m
      → is_nil m.literals ≡ false
      → All IsUnrepeated m.clauses
      → conflict_bound (length m.literals) < 6_710_886_300
      → round_bound (length m.literals) < fuel
      → (c : Context) × (solver_from_file ratio file ≡ ok c) × Answers m (solve fuel c (pos 1))
  solver_from_file_decides ratio file m fuel h s u small lt =
      let r = make_model_from_cnf_file-IsReadable ratio file m h in
      let (c, q, made) = solver_from_file_total ratio file m h in
      (
        c,
        q,
        Answers-of_Decides m fuel c (
            solve_sat-Decides m c fuel r.nonzero u s made
              (λ z. omega (arith, ap to_size (sym r.interval) ∙ z))
              (Lasts-doubled 25 100 _ m.conf r.threshold r.multiplier (omega arith) doubled_fits
                (omega (arith, small, doubled_limit)))
              lt),
      )
