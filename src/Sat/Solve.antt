-- ===== src/Sat/Solve.antt =====
-- `learn_additional_clause` and `solve_sat` of fabko/compiler/backend/sat/solver_impl.cpp, and
-- `solver::solve` of solver.cpp.
pub mod Levels
pub mod History
pub mod Novel
pub mod Learned
pub mod Same
pub mod Ready
pub mod Learn
pub mod Steps
pub mod Sound
pub mod Empty
pub mod Progress
pub mod Thresholds
pub mod Rank
pub mod Counted
pub mod Restarted
pub mod Falls
pub mod Descent
pub mod Stuck
use fabko.Base.{
  is_nil, minus, ℕ, zero, suc, ◌+◌, ◌*◌, ◌%◌, ◌^◌, ℤ, pos, negsuc, Bool, ◌&&◌, if◌then◌else◌, List,
  [], ◌∷◌, ◌++◌, map, all, Option, none, some, ◌==◌, leb,
}
use fabko.Sat.Literal.{Literal, value, is_assigned_on}
use fabko.Sat.Types.{
  Env, Context, Clause, ConflictResolutionResult, var_at, var_ids, clause_ids, assignment_at,
}
use fabko.Sat.Clauses.{is_clause_satisfied}
use fabko.Sat.Propagate.{unit_propagation}
use fabko.Sat.Resolve.{resolve_conflict}
use fabko.Sat.Backtrack.{backtrack}
use fabko.Sat.Decide.{make_decision}
use fabko.Sat.Vsids.{update_vsids_activity}
use fabko.Sat.Watcher.{Exception, Result, ok, err, make_watcher}

-- A literal of the result: the variable with the sign of its assignment.
abbrev pub signed : ℕ → Bool → Literal
signed n b = record { value_ = if b then pos n else minus n }

module _ ⦃e : Env⦄ where
  unfoldable pub learn_additional_clause : Context → Clause → Result Context
  learn_additional_clause ctx c = if is_nil c.vars then ok ctx else elim (make_watcher ctx.vars c) [
    | err x ↦ err x
    | ok w ↦ ok (record ctx {
      clauses = (e.clauses.insert ctx.clauses (record { clause = c; watcher = w })).0;
      statistics = record (ctx.statistics) {
        learned_clause = (ctx.statistics.learned_clause + 1) % 2 ^ 64;
      };
    })
  ]

  -- How a round of the main loop ends.
  pub data Step : Type 0 where
    running : Context → Step
    solved : Context → List Literal → Step
    unsatisfiable : Context → Step
    thrown : Exception → Step

  pub restarted : Context → Context
  restarted ctx =
      let ctx' =
        backtrack
          (record ctx {
            conflict_count = 0;
            statistics = record (ctx.statistics) {
              restarts = (ctx.statistics.restarts + 1) % 2 ^ 64;
            };
          })
          0 in
      record ctx' {
        config = record (ctx'.config) {
          restart_threshold =
              ctx'.config.restart_threshold * ctx'.config.restart_multiplier % 2 ^ 32;
        };
      }

  unfoldable pub restart : Context → Context
  unfolding restarted
  restart ctx = if leb ctx.config.restart_threshold ctx.conflict_count then restarted ctx else ctx

  unfoldable pub count_conflict : Context → Context
  count_conflict ctx = record ctx {
    conflict_count = (ctx.conflict_count + 1) % 2 ^ 64;
    statistics = record (ctx.statistics) { conflicts = (ctx.statistics.conflicts + 1) % 2 ^ 64 };
  }

  abbrev pub running_of : Result Context → Step
  running_of (err x) = thrown x
  running_of (ok ctx) = running ctx

  unfoldable pub learn_and_backtrack : Context → ConflictResolutionResult → Step
  learn_and_backtrack ctx r = elim (learn_additional_clause ctx r.learned_clause) [
    | err x ↦ thrown x
    | ok ctx' ↦
        running_of (update_vsids_activity (backtrack ctx' r.backtrack_level) r.learned_clause)
  ]

  after_resolution : Context → ConflictResolutionResult → Step
  after_resolution ctx r =
      if (ctx.level == 0) && (r.backtrack_level == 0)
      then unsatisfiable ctx
      else if is_nil r.learned_clause.vars
      then unsatisfiable ctx
      else learn_and_backtrack ctx r

  -- The branch of a conflict in clause `d`.
  unfoldable pub on_conflict : Context → ℕ → Step
  unfolding after_resolution
  on_conflict ctx d =
      after_resolution (count_conflict ctx) (resolve_conflict (count_conflict ctx) d)

  unfoldable pub solution : Context → List Literal
  solution ctx =
      map (λ i. signed (value (var_at ctx i).literal) (is_assigned_on (assignment_at ctx i)))
        (var_ids ctx)

  unfoldable pub all_satisfied : Context → Bool
  all_satisfied ctx =
      all (λ d. is_clause_satisfied ctx (e.clauses.at ctx.clauses d).clause) (clause_ids ctx)

  -- Nothing is left to decide. The main loop goes on as long as the solution is empty.
  unfoldable pub on_complete : Context → Step
  on_complete ctx =
      if all_satisfied ctx
      then if is_nil (solution ctx) then running ctx else solved ctx (solution ctx)
      else running ctx

  unfoldable pub no_conflict : Context → Step
  unfolding on_complete
  no_conflict ctx = elim (make_decision ctx) [ some ctx' ↦ running ctx' | none ↦ on_complete ctx ]

  after_propagation : Context × Option ℕ → Step
  after_propagation (ctx, none) = no_conflict ctx
  after_propagation (ctx, some d) = on_conflict ctx d

  -- One round of the main loop.
  unfoldable pub solve_step : Context → Step
  unfolding after_propagation
  solve_step ctx = after_propagation (unit_propagation (restart ctx))

  -- The main loop, on fuel: `running` is the result where the fuel ran out.
  unfoldable pub solve_sat : ℕ → Context → Step
  solve_sat zero ctx = running ctx
  solve_sat (suc fuel) ctx = elim (solve_step ctx) [
    | running ctx' ↦ solve_sat fuel ctx'
    | solved ctx' lits ↦ solved ctx' lits
    | unsatisfiable ctx' ↦ unsatisfiable ctx'
    | thrown x ↦ thrown x
  ]

  -- What `solver::solve` returns after its loop, with the context that it leaves: `none` where a call
  -- ran out of fuel, an exception where one threw.
  pub record Solutions : Type 0 where
    pub context : Context
    pub results : List (List Literal)

  -- `for (i = 0; i < expected; ++i)`, over the rounds that are left.
  unfoldable pub solve_times : ℕ → ℕ → Context → List (List Literal) → Option (Result Solutions)
  solve_times fuel zero ctx res = some (ok (record { context = ctx; results = res }))
  solve_times fuel (suc n) ctx res = elim (solve_sat fuel ctx) [
    | running ctx' ↦ none
    | solved ctx' lits ↦ solve_times fuel n ctx' (res ++ lits ∷ [])
    | unsatisfiable ctx' ↦ some (ok (record { context = ctx'; results = res }))
    | thrown x ↦ some (err x)
  ]

  abbrev pub rounds : ℤ → ℕ
  rounds (pos n) = n
  rounds (negsuc n) = 0

  unfoldable pub solve : ℕ → Context → ℤ → Option (Result Solutions)
  unfolding solve_times
  solve fuel ctx expected = solve_times fuel (rounds expected) ctx []
