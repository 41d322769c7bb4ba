-- ===== src/Sat/Solve/Counted.antt =====
-- What a round of the main loop of fabko/compiler/backend/sat/solver_impl.cpp does to the
-- configuration and to the count of conflicts, a restart aside.
use fabko.Base.{
  ℕ, ◌+◌, ◌≤◌, ◌&&◌, ◌==◌, ◌≡◌, refl, ◌∙◌, inl, inr, Option, none, some, is_nil, subst, Bool-cases,
  Option-cases, arith,
}
use fabko.Sat.Types.{Env, Context, ConflictResolutionResult, var_at}
use fabko.Sat.Invariant.{IsValid}
use fabko.Sat.Invariant.Carried.{Carries, Carries-refl}
use fabko.Sat.Propagate.Assign.{IsConflict}
use fabko.Sat.Propagate.Valid.{IsPropagated, unit_propagation-IsPropagated}
use fabko.Sat.Resolve.{resolve_conflict}
use fabko.Sat.Resolve.Literals.{IsDerived}
use fabko.Sat.Resolve.Sound.{resolve_conflict-IsDerived}
use fabko.Sat.Decide.{make_decision}
use fabko.Sat.Decide.Valid.{make_decision-IsDecision}
use fabko.Sat.Solve.{
  Step, running, solved, unsatisfiable, thrown, restart, count_conflict, learn_and_backtrack,
  after_resolution, on_conflict, solution, all_satisfied, on_complete, no_conflict,
  after_propagation, solve_step,
}
use fabko.Sat.Solve.Steps.{
  IsLearning, learn_and_backtrack-IsLearning, count_conflict-IsNext, restart-IsNext,
}

module _ ⦃e : Env⦄ where
  -- The configuration and the names are kept, and at most one conflict is counted.
  pub record IsCounted (c c' : Context) : Type 0 where
    pub config : c'.config ≡ c.config
    pub conflicts : c'.conflict_count ≤ c.conflict_count + 1
    pub literals : (i : ℕ) → (var_at c' i).literal ≡ (var_at c i).literal

  abbrev pub IsCountedStep : Context → Step → Type 0
  IsCountedStep c (running c') = IsCounted c c'
  IsCountedStep c (solved c' ls) = Unit
  IsCountedStep c (unsatisfiable c') = Unit
  IsCountedStep c (thrown x) = Unit

  Carries-IsCounted : (c c' : Context) → Carries c c' → IsCounted c c'
  Carries-IsCounted c c' h = record {
    config = h.config;
    conflicts = omega (arith, h.conflict_count);
    literals = h.literals;
  }

  IsCountedStep-after :
      (a b : Context) (s : Step) → Carries a b → IsCountedStep b s → IsCountedStep a s
  IsCountedStep-after a b (running c') h k = record {
    config = k.config ∙ h.config;
    conflicts = omega (arith, h.conflict_count, k.conflicts);
    literals = λ i. k.literals i ∙ h.literals i;
  }
  IsCountedStep-after a b (solved c' ls) h k = tt
  IsCountedStep-after a b (unsatisfiable c') h k = tt
  IsCountedStep-after a b (thrown x) h k = tt

module _ ⦃e : Env⦄ (canon : ℕ → ℕ) where
  on_complete_counted : (c : Context) → IsCountedStep c (on_complete c)
  unfolding on_complete
  on_complete_counted c = elim (Bool-cases (all_satisfied c)) [
    | inr f ↦ rw f (Carries-IsCounted c c (Carries-refl c))
    | inl t ↦ rw t (elim (Bool-cases (is_nil (solution c))) [
      | inl n ↦ rw n (Carries-IsCounted c c (Carries-refl c))
      | inr n ↦ rw n tt
    ])
  ]

  no_conflict_counted : (c : Context) → IsValid canon c → IsCountedStep c (no_conflict c)
  unfolding no_conflict
  no_conflict_counted c v = elim (Option-cases (make_decision c)) [
    | inl n ↦ rw (n, no_conflict) (on_complete_counted c)
    | inr (c', q) ↦
        rw (q, no_conflict)
          (Carries-IsCounted c c' (make_decision-IsDecision canon c c' v q).carried)
  ]

  after_resolution_counted :
      (c : Context) (r : ConflictResolutionResult)
      → IsValid canon c
      → IsDerived canon c r.learned_clause.vars
      → (c' : Context) → after_resolution c r ≡ running c'
      → Carries c c'
  unfolding after_resolution
  after_resolution_counted c r v h c' q =
      elim (Bool-cases ((c.level == 0) && (r.backtrack_level == 0))) [
        | inl t ↦ absurd (ended c (rw t at q))
        | inr f ↦ elim (Bool-cases (is_nil r.learned_clause.vars)) [
          | inl n ↦ absurd (ended c (rw n at (rw f at q)))
          | inr n ↦
              let z : learn_and_backtrack c r ≡ running c' = rw n at (rw f at q) in
              let l : IsLearning canon c (running c') =
                subst (IsLearning canon c) z (learn_and_backtrack-IsLearning canon c r v h n) in
              l.2
        ]
      ]
    where
      ended : (a : Context) → unsatisfiable a ≡ running c' → ⊥
      ended a z = cc

  on_conflict-IsCounted :
      (c c' : Context) (d : ℕ)
      → IsValid canon c
      → IsConflict c d
      → on_conflict c d ≡ running c'
      → IsCounted c c'
  unfolding on_conflict count_conflict
  on_conflict-IsCounted c c' d v k q =
      let c1 = count_conflict c in
      let v1 = (count_conflict-IsNext canon c v).valid in
      let k1 : IsConflict c1 d = record { known = k.known; falsified = k.falsified } in
      let h =
        after_resolution_counted c1 (resolve_conflict c1 d) v1
          (resolve_conflict-IsDerived canon c1 d v1 k1) c' q in
      record {
        config = h.config;
        conflicts = omega (arith, h.conflict_count);
        literals = h.literals;
      }

  to_step :
      (c : Context) (s : Step)
      → ((c' : Context) → s ≡ running c' → IsCounted c c')
      → IsCountedStep c s
  to_step c (running c') h = h c' refl
  to_step c (solved c' ls) h = tt
  to_step c (unsatisfiable c') h = tt
  to_step c (thrown x) h = tt

  after_propagation_counted :
      (c c' : Context) (o : Option ℕ)
      → IsPropagated canon c (c', o)
      → IsCountedStep c (after_propagation (c', o))
  unfolding after_propagation
  after_propagation_counted c c' none h =
      IsCountedStep-after c c' _ h.keeps.carried (no_conflict_counted c' h.valid)
  after_propagation_counted c c' (some d) h = IsCountedStep-after c c' _ h.keeps.carried (
      to_step c' (on_conflict c' d)
        (λ a q. on_conflict-IsCounted c' a d h.valid (h.conflicting d refl) q))

  -- A round, from the context that its restart leaves.
  pub solve_step_counted :
      (c : Context) → IsValid canon c → IsCountedStep (restart c) (solve_step c)
  unfolding solve_step
  solve_step_counted c v =
      after_propagation_counted (restart c) _ _
        (unit_propagation-IsPropagated canon (restart c) (restart-IsNext canon c v).valid)
