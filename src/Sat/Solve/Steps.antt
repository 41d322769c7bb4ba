-- ===== src/Sat/Solve/Steps.antt =====
-- The steps of a round that keep the models: a restart, a counted conflict, and learning.
use fabko.Base.{
  ℕ, suc, to_size, ◌+◌, ◌%◌, ◌^◌, Bool, true, false, leb, ◌≡◌, refl, sym, ◌∙◌, subst, inl, inr, In,
  is_nil, All-of_In, Bool-cases, arith, length, length-append, ap,
}
use fabko.Sat.Types.{Env, Context, Clause, ClauseRow, ConflictResolutionResult, var_ids, clause_ids}
use fabko.Sat.Resolve.Literals.{IsDerived}
use fabko.Sat.Backtrack.{backtrack}
use fabko.Sat.Backtrack.Valid.{backtrack-IsBacktracked}
use fabko.Sat.Vsids.Valid.{
  IsDivisionByZero, Retunes, update_vsids_activity-Retunes, IsRetuned-IsValid,
}
use fabko.Sat.Watcher.{Result, ok, err}
use fabko.Sat.Watcher.Made.{make_watcher_total}
use fabko.Sat.Solve.{
  learn_additional_clause, Step, running, solved, unsatisfiable, thrown, restarted, restart,
  count_conflict, running_of, learn_and_backtrack, solution, all_satisfied,
}
use fabko.Sat.Solve.Learn.{IsNext, IsNext-trans, IsNext-same, grown-IsNext}
use fabko.Sat.Invariant.{Models, IsValid}
use fabko.Sat.Invariant.Frame.{IsValid-same}
use fabko.Sat.Invariant.Carried.{Carries, Carries-trans}

module _ ⦃e : Env⦄ (canon : ℕ → ℕ) where
  -- What each way to end a round says of the context that it began with.
  abbrev pub IsOutcome : Context → Step → Type 0
  IsOutcome c (running c') = IsNext canon c c'
  IsOutcome c (solved c' ls) =
      IsNext canon c c' × (ls ≡ solution c') × (all_satisfied c' ≡ true) × (is_nil ls ≡ false)
  IsOutcome c (unsatisfiable c') = (ν : ℕ → Bool) → ¬ Models ν c
  IsOutcome c (thrown x) = IsDivisionByZero c x

  pub IsOutcome-after :
      (a b : Context) (s : Step) → IsNext canon a b → IsOutcome b s → IsOutcome a s
  IsOutcome-after a b (running c') n h = IsNext-trans canon a b c' n h
  IsOutcome-after a b (solved c' ls) n h = (IsNext-trans canon a b c' n h.0, h.1, h.2, h.3)
  IsOutcome-after a b (unsatisfiable c') n h = λ ν m. h ν (n.models ν m)
  IsOutcome-after a b (thrown x) n h = (h.0, ap to_size (sym n.interval) ∙ h.1)

  restarted-IsNext : (c : Context) → IsValid canon c → IsNext canon c (restarted c)
  unfolding restarted
  restarted-IsNext c v =
      let c1 : Context = record c {
        conflict_count = 0;
        statistics = record (c.statistics) { restarts = _ };
      } in
      let b = backtrack-IsBacktracked canon c1 0 (IsValid-same canon c c1 refl refl refl refl v) in
      IsNext-same canon c (restarted c)
        (IsValid-same canon (backtrack c1 0) (restarted c) refl refl refl refl b.valid) b.ids
        b.clauses (ap (λ f. f.decay_interval) b.carried.config)

  pub IsNext-refl : (c : Context) → IsValid canon c → IsNext canon c c
  IsNext-refl c v = IsNext-same canon c c v refl refl refl

  pub restart-IsNext : (c : Context) → IsValid canon c → IsNext canon c (restart c)
  unfolding restart
  restart-IsNext c v = elim (Bool-cases (leb c.config.restart_threshold c.conflict_count)) [
    | inl t ↦ rw t (restarted-IsNext c v)
    | inr f ↦ rw f (IsNext-refl c v)
  ]

  pub count_conflict-IsNext : (c : Context) → IsValid canon c → IsNext canon c (count_conflict c)
  unfolding count_conflict
  count_conflict-IsNext c v =
      IsNext-same canon c (count_conflict c)
        (IsValid-same canon c (count_conflict c) refl refl refl refl v) refl refl refl

  learned-IsNext :
      (c : Context) (l : Clause)
      → IsValid canon c
      → IsDerived canon c l.vars
      → is_nil l.vars ≡ false
      → (c' : Context) × (learn_additional_clause c l ≡ ok c')
        × IsNext canon c c'
        × (length (clause_ids c') ≡ suc (length (clause_ids c)))
        × Carries c c'
  unfolding learn_additional_clause
  learned-IsNext c l v h n =
      let w = make_watcher_total c.vars l n in
      let row : ClauseRow = record { clause = l; watcher = w.0 } in
      let g = grown-IsNext canon c row v h in
      let c1 : Context = record c { clauses = (e.clauses.insert c.clauses row).0 } in
      let c' : Context = record c1 {
        statistics = record (c.statistics) {
          learned_clause = (c.statistics.learned_clause + 1) % 2 ^ 64;
        };
      } in
      (
        c',
        rw n (rw w.1 refl),
        IsNext-trans canon c c1 c' g (
            IsNext-same canon c1 c' (IsValid-same canon c1 c' refl refl refl refl g.valid) refl refl
              refl),
        ap length (e.clauses.ids-insert c.clauses row)
            ∙ (length-append (clause_ids c) _ ∙ omega arith),
        record { config = refl; conflict_count = refl; literals = λ i. refl },
      )

  -- Learning goes on with a valid context that has one clause more, unless its last step divides by
  -- zero.
  abbrev pub IsLearning : Context → Step → Type 0
  IsLearning c (running c') =
      IsNext canon c c' × (length (clause_ids c') ≡ suc (length (clause_ids c))) × Carries c c'
  IsLearning c (solved c' ls) = ⊥
  IsLearning c (unsatisfiable c') = ⊥
  IsLearning c (thrown x) = IsDivisionByZero c x

  pub learn_and_backtrack-IsLearning :
      (c : Context) (r : ConflictResolutionResult)
      → IsValid canon c
      → IsDerived canon c r.learned_clause.vars
      → is_nil r.learned_clause.vars ≡ false
      → IsLearning c (learn_and_backtrack c r)
  unfolding learn_and_backtrack
  learn_and_backtrack-IsLearning c r v h n =
      let (c1, q, n1, k, m) = learned-IsNext c r.learned_clause v h n in
      let b = backtrack-IsBacktracked canon c1 r.backtrack_level n1.valid in
      let c2 = backtrack c1 r.backtrack_level in
      let u = update_vsids_activity-Retunes c2 r.learned_clause (
        All-of_In (λ p. In p.1 (var_ids c2)) r.learned_clause.vars
          (λ p i. subst (In p.1) (sym (b.ids ∙ n1.extends.ids)) (h.falsified p i).entry.known)) in
      rw (q, learn_and_backtrack)
        (go c1 c2 n1 k (Carries-trans c c1 c2 m b.carried) b.ids b.clauses b.valid _ u)
    where
      go :
          (c1 c2 : Context)
          → IsNext canon c c1
          → length (clause_ids c1) ≡ suc (length (clause_ids c))
          → Carries c c2
          → var_ids c2 ≡ var_ids c1
          → c2.clauses ≡ c1.clauses
          → IsValid canon c2
          → (o : Result Context) → Retunes c2 o
          → IsLearning c (running_of o)
      go c1 c2 n1 k m qi qc v2 (ok c3) (u, nonzero) =
          let carried = Carries-trans c c2 c3 m u.carried in
          (
            IsNext-trans canon c c1 c3 n1 (
                IsNext-same canon c1 c3 (IsRetuned-IsValid canon c2 c3 u v2) (u.ids ∙ qi)
                  (u.clauses ∙ qc) (ap (λ f. f.decay_interval) carried.config ∙ sym n1.interval)),
            ap (λ s. length (e.clauses.ids s)) (u.clauses ∙ qc) ∙ k,
            carried,
          )
      go c1 c2 n1 k m qi qc v2 (err x) u =
          (u.0, ap (λ f. to_size f.decay_interval) (sym m.config) ∙ u.1)
