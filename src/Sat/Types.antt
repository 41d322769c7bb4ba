-- ===== src/Sat/Types.antt =====
-- The data of the solver: fabko/compiler/backend/sat/solver.hh and solver_context.hh. `metadata`
-- holds nothing that the solver reads, and a `struct_id` is its offset.
use fabko.Base.{ℕ, ℤ, List, Option}
use fabko.Soa.{Soa}
use fabko.Sat.Literal.{Literal, Assignment}

-- A literal of a clause with the `struct_id` of its variable.
abbrev pub Entry : Type 0
Entry = Literal × ℕ

pub record Clause : Type 0 where
  pub vars : List Entry

-- The two watched variables of a clause.
pub record ClauseWatcher : Type 0 where
  pub first : Option ℕ
  pub second : Option ℕ

pub record AssignmentContext : Type 0 where
  pub vsids_activity : ℤ
  pub decision_level : ℕ
  pub clause_propagation : Option ℕ

-- A row of `Vars_Soa`.
pub record Variable : Type 0 where
  pub literal : Literal
  pub assignment : Assignment
  pub context : AssignmentContext

-- A row of `Clauses_Soa`.
pub record ClauseRow : Type 0 where
  pub clause : Clause
  pub watcher : ClauseWatcher

-- What the solver takes from outside: the two containers, and floating point. `divide x r` is
-- `x /= r` of an `int64_t` by a `float`, `divide_1e6 x` that by the double `1e6`.
pub record Env : Type 1 where
  pub vars : Soa Variable
  pub clauses : Soa ClauseRow
  pub Float : Type 0
  pub divide : ℤ → Float → ℤ
  pub divide_1e6 : ℤ → ℤ

pub record Statistics : Type 0 where
  pub restarts : ℕ
  pub conflicts : ℕ
  pub propagations : ℕ
  pub decisions : ℕ
  pub learned_clause : ℕ
  pub max_decision_lvl : ℕ

pub record ConflictResolutionResult : Type 0 where
  pub learned_clause : Clause
  pub backtrack_level : ℕ

module _ ⦃e : Env⦄ where
  pub record Configuration : Type 0 where
    pub restart_threshold : ℕ
    pub restart_multiplier : ℕ
    pub vsids_increment : ℤ
    pub decay_interval : ℤ
    pub vsids_decay_ratio : e.Float

  -- `solver_context`. The head of `trail` is the back of the vector.
  pub record Context : Type 0 where
    pub config : Configuration
    pub vars : e.vars.Store
    pub clauses : e.clauses.Store
    pub trail : List ℕ
    pub conflict_count : ℕ
    pub level : ℕ
    pub statistics : Statistics

  pub record Model : Type 0 where
    pub literals : List Literal
    pub clauses : List (List Literal)
    pub conf : Configuration

  -- The row of a variable and the literals of a clause.
  abbrev pub var_at : Context → ℕ → Variable
  var_at ctx i = e.vars.at ctx.vars i

  abbrev pub lits_at : Context → ℕ → List Entry
  lits_at ctx d = (e.clauses.at ctx.clauses d).clause.vars

  abbrev pub var_ids : Context → List ℕ
  var_ids ctx = e.vars.ids ctx.vars

  abbrev pub clause_ids : Context → List ℕ
  clause_ids ctx = e.clauses.ids ctx.clauses

  abbrev pub assignment_at : Context → ℕ → Assignment
  assignment_at ctx i = (var_at ctx i).assignment

  abbrev pub level_at : Context → ℕ → ℕ
  level_at ctx i = (var_at ctx i).context.decision_level

  abbrev pub reason_at : Context → ℕ → Option ℕ
  reason_at ctx i = (var_at ctx i).context.clause_propagation
