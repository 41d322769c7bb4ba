-- ===== src/Sat/Propagate.antt =====
-- `unit_propagation` of fabko/compiler/backend/sat/solver_impl.cpp.
pub mod Assign
pub mod Valid
pub mod Settling
pub mod Complete
pub mod Settled
use fabko.Base.{
  ℕ, zero, suc, ◌+◌, ◌%◌, ◌^◌, if◌then◌else◌, List, [], ◌∷◌, Option, none, some, length, ◌==◌,
}
use fabko.Sat.Literal.{Literal, on, off, is_on}
use fabko.Sat.Types.{Env, Context, Clause, Entry, Variable, var_at, var_ids, clause_ids}
use fabko.Sat.Clauses.{is_clause_satisfied, unassigned}

module _ ⦃e : Env⦄ where
  -- The variables of the lambda `propagate`, and the count of `count_if`.
  pub record Pass : Type 0 where
    pub ctx : Context
    pub conflict : Option ℕ
    pub count : ℕ

  -- The assignment of the one literal that is left, with the clause as its reason.
  unfoldable pub propagated : Context → ℕ → Literal → Variable → Variable
  propagated ctx d l v = record v {
    assignment = if is_on l then on else off;
    context = record {
      vsids_activity = v.context.vsids_activity;
      decision_level = ctx.level;
      clause_propagation = some d;
    };
  }

  unfoldable pub assign : Context → ℕ → Entry → Context
  unfolding propagated
  assign ctx d (l, i) = record ctx {
    vars = e.vars.put ctx.vars i (propagated ctx d l (var_at ctx i));
    trail = i ∷ ctx.trail;
  }

  -- What the lambda does with the unassigned literals of a clause that is not satisfied.
  unfoldable pub propagate_unassigned : Pass → ℕ → List Entry → Pass
  propagate_unassigned p d [] = record p { conflict = some d }
  propagate_unassigned p d (q ∷ []) = record p { ctx = assign p.ctx d q; count = p.count + 1 }
  propagate_unassigned p d (q ∷ r ∷ qs) = p

  propagate_clause : Pass → ℕ → Clause → Pass
  propagate_clause p d c =
      if is_clause_satisfied p.ctx c then p else propagate_unassigned p d (unassigned p.ctx c)

  -- The lambda returns at once where a conflict is known.
  propagate_unless : Pass → ℕ → Option ℕ → Pass
  unfolding propagate_clause
  propagate_unless p d (some c) = p
  propagate_unless p d none = propagate_clause p d (e.clauses.at p.ctx.clauses d).clause

  -- The lambda `propagate`, at the clause of id `d`.
  unfoldable pub propagate : Pass → ℕ → Pass
  unfolding propagate_unless
  propagate p d = propagate_unless p d p.conflict

  -- `count_if` over the clauses.
  unfoldable pub propagate_each : Pass → List ℕ → Pass
  propagate_each p [] = p
  propagate_each p (d ∷ ds) = propagate_each (propagate p d) ds

  unfoldable pub propagate_all : Context → Pass
  propagate_all ctx =
      propagate_each (record { ctx = ctx; conflict = none; count = 0 }) (clause_ids ctx)

  unfoldable pub count_propagations : Context → ℕ → Context
  count_propagations ctx n = record ctx {
    statistics = record {
      restarts = ctx.statistics.restarts;
      conflicts = ctx.statistics.conflicts;
      propagations = (ctx.statistics.propagations + n) % 2 ^ 64;
      decisions = ctx.statistics.decisions;
      learned_clause = ctx.statistics.learned_clause;
      max_decision_lvl = ctx.statistics.max_decision_lvl;
    };
  }

  -- The loop, on fuel. A round with no propagation or with a conflict is the last.
  unfoldable pub unit_loop : ℕ → Context → Context × Option ℕ
  unit_loop zero ctx = (ctx, none)
  unit_loop (suc fuel) ctx =
      let p = propagate_all ctx in
      let rest = unit_loop fuel (count_propagations p.ctx p.count) in
      elim p.conflict [
        | some d ↦ (p.ctx, some d)
        | none ↦ if p.count == 0 then (p.ctx, none) else rest
      ]

  -- A round that is not the last assigns a variable, so one round more than variables are enough.
  unfoldable pub unit_propagation : Context → Context × Option ℕ
  unfolding unit_loop
  unit_propagation ctx = unit_loop (suc (length (var_ids ctx))) ctx
