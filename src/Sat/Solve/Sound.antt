-- ===== src/Sat/Solve/Sound.antt =====
-- The main loop is sound: what it calls a solution satisfies every clause, and what it calls
-- unsatisfiable has no model.
use fabko.Base.{
  ℕ, zero, suc, Bool, true, false, ◌&&◌, ◌==◌, ◌≡◌, refl, sym, ap, ◌∙◌, inl, inr, List, [], ◌∷◌,
  Option, none, some, any, is_nil, Bool-cases, Option-cases, true≢false, arith,
}
use fabko.Sat.Types.{Env, Context, Entry, ConflictResolutionResult}
use fabko.Sat.Propagate.Assign.{IsConflict}
use fabko.Sat.Propagate.Valid.{IsPropagated, unit_propagation-IsPropagated}
use fabko.Sat.Resolve.{resolve_conflict}
use fabko.Sat.Resolve.Literals.{IsDerived}
use fabko.Sat.Resolve.Sound.{resolve_conflict-IsDerived}
use fabko.Sat.Decide.{make_decision}
use fabko.Sat.Decide.Valid.{make_decision-IsDecision}
use fabko.Sat.Solve.{
  Step, running, solved, unsatisfiable, thrown, restart, count_conflict, after_resolution,
  on_conflict, solution, all_satisfied, on_complete, no_conflict, after_propagation, solve_step,
  solve_sat,
}
use fabko.Sat.Solve.Learn.{IsNext, IsNext-same}
use fabko.Sat.Invariant.{holds, IsValid}
use fabko.Sat.Invariant.Ground.{no_conflict_at_zero}
use fabko.Sat.Solve.Steps.{
  IsOutcome, IsOutcome-after, IsNext-refl, restart-IsNext, count_conflict-IsNext, IsLearning,
  learn_and_backtrack-IsLearning,
}

module _ ⦃e : Env⦄ (canon : ℕ → ℕ) where
  after_resolution-IsOutcome :
      (c : Context) (d : ℕ) (r : ConflictResolutionResult)
      → IsValid canon c
      → IsConflict c d
      → IsDerived canon c r.learned_clause.vars
      → IsOutcome canon c (after_resolution c r)
  unfolding after_resolution
  after_resolution-IsOutcome c d r v k h =
      elim (Bool-cases ((c.level == 0) && (r.backtrack_level == 0))) [
        | inl t ↦
            rw t (λ ν m. no_conflict_at_zero canon c ν m d v (ground arith) k.known k.falsified)
        | inr f ↦ rw f (elim (Bool-cases (is_nil r.learned_clause.vars)) [
          | inl n ↦
              rw n (λ ν m. true≢false (sym (h.implied ν m) ∙ of_nil r.learned_clause.vars ν n))
          | inr n ↦ rw n (learned _ (learn_and_backtrack-IsLearning canon c r v h n))
        ])
      ]
    where
      learned : (s : Step) → IsLearning canon c s → IsOutcome canon c s
      learned (running c') l = l.0
      learned (solved c' ls) l = absurd l
      learned (unsatisfiable c') l = absurd l
      learned (thrown x) l = l

      of_nil : (ls : List Entry) (ν : ℕ → Bool) → is_nil ls ≡ true → any (holds ν) ls ≡ false
      of_nil [] ν n = refl
      of_nil (x ∷ xs) ν n = cc

  on_conflict-IsOutcome :
      (c : Context) (d : ℕ) → IsValid canon c → IsConflict c d → IsOutcome canon c (on_conflict c d)
  unfolding on_conflict
  on_conflict-IsOutcome c d v k =
      let c1 = count_conflict c in
      let n = count_conflict-IsNext canon c v in
      let k1 : IsConflict c1 d =
        unfold count_conflict in record { known = k.known; falsified = k.falsified } in
      IsOutcome-after canon c c1 _ n (
        after_resolution-IsOutcome c1 d (resolve_conflict c1 d) n.valid k1
          (resolve_conflict-IsDerived canon c1 d n.valid k1))

  on_complete-IsOutcome : (c : Context) → IsValid canon c → IsOutcome canon c (on_complete c)
  unfolding on_complete
  on_complete-IsOutcome c v = elim (Bool-cases (all_satisfied c)) [
    | inr f ↦ rw f (IsNext-refl canon c v)
    | inl t ↦ rw t (elim (Bool-cases (is_nil (solution c))) [
      | inl n ↦ rw n (IsNext-refl canon c v)
      | inr n ↦ rw n (IsNext-refl canon c v, refl, t, n)
    ])
  ]

  no_conflict-IsOutcome : (c : Context) → IsValid canon c → IsOutcome canon c (no_conflict c)
  unfolding no_conflict
  no_conflict-IsOutcome c v = elim (Option-cases (make_decision c)) [
    | inl n ↦ rw (n, no_conflict) (on_complete-IsOutcome c v)
    | inr (c', q) ↦
        let h = make_decision-IsDecision canon c c' v q in
        rw (q, no_conflict)
          (IsNext-same canon c c' h.valid h.ids h.clauses
            (ap (λ f. f.decay_interval) h.carried.config))
  ]

  same : (c c' : Context) (o : Option ℕ) → IsPropagated canon c (c', o) → IsNext canon c c'
  same c c' o h =
      IsNext-same canon c c' h.valid h.keeps.ids h.keeps.clauses
        (ap (λ f. f.decay_interval) h.keeps.carried.config)

  after_propagation-IsOutcome :
      (c c' : Context) (o : Option ℕ)
      → IsPropagated canon c (c', o)
      → IsOutcome canon c (after_propagation (c', o))
  unfolding after_propagation
  after_propagation-IsOutcome c c' none h =
      IsOutcome-after canon c c' _ (same c c' _ h) (no_conflict-IsOutcome c' h.valid)
  after_propagation-IsOutcome c c' (some d) h =
      IsOutcome-after canon c c' _ (same c c' _ h)
        (on_conflict-IsOutcome c' d h.valid (h.conflicting d refl))

  -- One round: it goes on from a valid context with the same variables, clauses and models, ends with
  -- a solution of all clauses, or ends because there is no model, or divides by zero.
  pub solve_step-IsOutcome : (c : Context) → IsValid canon c → IsOutcome canon c (solve_step c)
  unfolding solve_step
  solve_step-IsOutcome c v =
      let n = restart-IsNext canon c v in
      IsOutcome-after canon c (restart c) _ n (
        after_propagation-IsOutcome (restart c) _ _
          (unit_propagation-IsPropagated canon (restart c) n.valid))

  -- From a valid context any number of rounds of the main loop ends in a valid context with the
  -- same variables, the old clauses and the same models, or in a non-empty solution under which
  -- all clauses are satisfied, or in unsatisfiable when no valuation satisfies the clauses, or
  -- in a division by zero, which it does only where the decay interval of the context is 0 as a
  -- size_t; no exception is thrown.
  pub solve_sat-IsOutcome :
      (fuel : ℕ) (c : Context) → IsValid canon c → IsOutcome canon c (solve_sat fuel c)
  unfolding solve_sat
  solve_sat-IsOutcome zero c v = IsNext-refl canon c v
  solve_sat-IsOutcome (suc fuel) c v = go (solve_step c) (solve_step-IsOutcome c v) (λ c' h.
      IsOutcome-after canon c c' (solve_sat fuel c') h (solve_sat-IsOutcome fuel c' h.valid))
    where
      go :
          (s : Step)
          → IsOutcome canon c s
          → ((c' : Context) → IsNext canon c c' → IsOutcome canon c (solve_sat fuel c'))
          → IsOutcome canon c (elim s [
            | running c' ↦ solve_sat fuel c'
            | solved c' lits ↦ solved c' lits
            | unsatisfiable c' ↦ unsatisfiable c'
            | thrown x ↦ thrown x
          ])
      go (running c') h k = k c' h
      go (solved c' lits) h k = h
      go (unsatisfiable c') h k = h
      go (thrown x) h k = h
