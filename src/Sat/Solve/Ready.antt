-- ===== src/Sat/Solve/Ready.antt =====
-- A round of the main loop keeps the history of the levels, and what it learns is new.
use fabko.Base.{
  ℕ, ◌≤◌, ◌<◌, false, ◌&&◌, ◌==◌, ltb, ◌≡◌, refl, ◌∙◌, ap, inl, inr, List, [], ◌∷◌, Option, none,
  some, length, is_nil, All, All-of_In, Distinct, Bool-cases, Option-cases, arith,
}
use fabko.Sat.Types.{Env, Context, Entry, var_at, lits_at, clause_ids}
use fabko.Sat.Invariant.Frame.{IsValid-same}
use fabko.Sat.Propagate.Assign.{IsConflict}
use fabko.Sat.Propagate.Valid.{IsPropagated, unit_propagation-IsPropagated}
use fabko.Sat.Propagate.Complete.{unit_propagation_settles}
use fabko.Sat.Propagate.Settling.{IsSettled}
use fabko.Sat.Literal.{value}
use fabko.Sat.Resolve.{
  resolve_conflict, resolve_loop, resolve_at, start_resolution, Resolution, sort, unique,
}
use fabko.Sat.Resolve.Literals.{IsDerived}
use fabko.Sat.Resolve.Strict.{IsStrict-Distinct, sorted-IsStrict}
use fabko.Sat.Decide.{make_decision}
use fabko.Sat.Decide.Valid.{make_decision-IsDecision}
use fabko.Sat.Solve.{
  restart, count_conflict, after_resolution, on_conflict, solution, all_satisfied, on_complete,
  no_conflict, after_propagation, solve_step,
}
use fabko.Sat.Solve.History.{IsValid-IsKnown, IsDecision-IsHistory}
use fabko.Sat.Solve.Levels.{ids_of, Keeps-IsHistory}
use fabko.Sat.Solve.Novel.{IsReady, IsResolved, conflict-IsResolved, conflict_at_level}
use fabko.Sat.Solve.Learned.{learn_and_backtrack-IsReady}
use fabko.Sat.Solve.Same.{
  IsReadyStep, IsReadyStep-of_running, IsReadyStep-after, IsReady-same, restart-IsReady,
}

module _ ⦃e : Env⦄ (canon : ℕ → ℕ) where
  on_complete_ready : (c : Context) → IsReady canon c → IsReadyStep canon c (on_complete c)
  unfolding on_complete
  on_complete_ready c h = elim (Bool-cases (all_satisfied c)) [
    | inr f ↦ rw f (h, inl refl)
    | inl t ↦
        rw t
          (elim (Bool-cases (is_nil (solution c))) [ inl n ↦ rw n (h, inl refl) | inr n ↦ rw n tt ])
  ]

  no_conflict_ready :
      (c : Context)
      → IsReady canon c
      → All (IsSettled c) (clause_ids c)
      → IsReadyStep canon c (no_conflict c)
  unfolding no_conflict
  no_conflict_ready c h settled = elim (Option-cases (make_decision c)) [
    | inl n ↦ rw (n, no_conflict) (on_complete_ready c h)
    | inr (c', q) ↦
        let k = make_decision-IsDecision canon c c' h.valid q in
        rw (q, no_conflict)
          (
            IsReady-same canon c c' k.clauses k.valid
                (IsDecision-IsHistory canon c c' h.valid k h.distinct settled h.history) h,
            inl k.clauses,
          )
  ]

  -- The sorted clause names each variable once.
  resolved-Distinct :
      (c : Context) (d : ℕ)
      → IsDerived canon c (resolve_conflict c d).learned_clause.vars
      → Distinct (ids_of (resolve_conflict c d).learned_clause.vars)
  unfolding resolve_conflict
  resolved-Distinct c d h =
      let ls = (resolve_loop c (start_resolution c (lits_at c d)) c.trail).learned in
      IsStrict-Distinct (unique (sort ls)) (λ i. value (var_at c i).literal)
        (All-of_In (λ (p : Entry). value p.0 ≡ value (var_at c p.1).literal) (unique (sort ls))
          (λ p i. (h.falsified p i).entry.named))
        (sorted-IsStrict ls)

  -- Nothing is resolved where one variable of the level is left.
  resolve_loop-few :
      (c : Context) (s : Resolution) (t : List ℕ)
      → length s.current_level_vars ≤ 1
      → resolve_loop c s t ≡ s
  unfolding resolve_loop resolve_at
  resolve_loop-few c s [] h = refl
  resolve_loop-few c s (x ∷ []) h = refl
  resolve_loop-few c s (x ∷ y ∷ rest) h =
      let few : ltb 1 (length s.current_level_vars) ≡ false = ground arith in
      let same : resolve_at c s x ≡ s = rw (few, resolve_at) refl in
      ap (λ r. resolve_loop c r (y ∷ rest)) same ∙ resolve_loop-few c s (y ∷ rest) h

  -- An empty clause is resolved at once.
  empty_resolved :
      (c : Context) (d : ℕ) → lits_at c d ≡ [] → (resolve_conflict c d).backtrack_level ≡ 0
  unfolding resolve_conflict
  empty_resolved c d q =
      ap (λ ls. (resolve_loop c (start_resolution c ls) c.trail).backtrack_level) q
      ∙ ap (λ (r : Resolution). r.backtrack_level)
          (resolve_loop-few c (start_resolution c []) c.trail (omega arith))

  after_resolution_ready :
      (c : Context) (d : ℕ)
      → IsReady canon c
      → IsConflict c d
      → IsReadyStep canon c (after_resolution c (resolve_conflict c d))
  unfolding after_resolution
  after_resolution_ready c d h k =
      let r = resolve_conflict c d in
      elim (Bool-cases ((c.level == 0) && (r.backtrack_level == 0))) [
        | inl t ↦ rw t tt
        | inr f ↦ rw f (elim (Bool-cases (is_nil r.learned_clause.vars)) [
          | inl n ↦ rw n tt
          | inr n ↦
              let (s, pos) = resolved f in
              rw n (
                IsReadyStep-of_running canon c _ (
                  learn_and_backtrack-IsReady canon c r h s pos n
                    (resolved-Distinct c d s.derived)))
        ])
      ]
    where
      resolved :
          ((c.level == 0) && ((resolve_conflict c d).backtrack_level == 0)) ≡ false
          → IsResolved canon c (resolve_conflict c d) × (0 < c.level)
      resolved f = elim (conflict_at_level canon c h d k) [
        | inr (z, q) ↦ absurd (both_zero z (empty_resolved c d q) f)
        | inl (p, m, at) ↦
            let s = conflict-IsResolved canon c h d p k m at in
            (s, elim s.low [ inl lt ↦ omega (arith, lt) | inr z ↦ above z f ])
      ]
        where
          both_zero : {a b : ℕ} → a ≡ 0 → b ≡ 0 → ((a == 0) && (b == 0)) ≡ false → ⊥
          both_zero z w f = ground arith

          above : {a b : ℕ} → b ≡ 0 → ((a == 0) && (b == 0)) ≡ false → 0 < a
          above z f = ground arith

  on_conflict_ready :
      (c : Context) (d : ℕ)
      → IsReady canon c
      → IsConflict c d
      → IsReadyStep canon c (on_conflict c d)
  unfolding on_conflict count_conflict
  on_conflict_ready c d h k =
      let c1 = count_conflict c in
      IsReadyStep-after canon c c1 _ refl (
        after_resolution_ready c1 d
          (IsReady-same canon c c1 refl (IsValid-same canon c c1 refl refl refl refl h.valid)
            h.history h)
          (record { known = k.known; falsified = k.falsified }))

  after_propagation_ready :
      (c c' : Context) (o : Option ℕ)
      → IsReady canon c
      → IsPropagated canon c (c', o)
      → (o ≡ none → All (IsSettled c') (clause_ids c'))
      → IsReadyStep canon c (after_propagation (c', o))
  unfolding after_propagation
  after_propagation_ready c c' o h k settled =
      IsReadyStep-after canon c c' (after_propagation (c', o)) k.keeps.clauses (go o k settled)
    where
      ready : (o : Option ℕ) → IsPropagated canon c (c', o) → IsReady canon c'
      ready o k =
          IsReady-same canon c c' k.keeps.clauses k.valid
            (Keeps-IsHistory c c' k.keeps (IsValid-IsKnown canon c h.valid) h.history) h

      go :
          (o : Option ℕ)
          → IsPropagated canon c (c', o)
          → (o ≡ none → All (IsSettled c') (clause_ids c'))
          → IsReadyStep canon c' (after_propagation (c', o))
      go none k settled = no_conflict_ready c' (ready none k) (settled refl)
      go (some d) k settled = on_conflict_ready c' d (ready (some d) k) (k.conflicting d refl)

  -- From a valid context whose clauses name each variable once and, below each level that was
  -- begun, have a true literal or two free variables, a round of the main loop that goes on
  -- leaves a valid context of which this holds too, and its clauses are the old ones or one of
  -- them differs from every old one.
  pub solve_step-IsReadyStep : (c : Context) → IsReady canon c → IsReadyStep canon c (solve_step c)
  unfolding solve_step
  solve_step-IsReadyStep c h =
      let (q, r) = restart-IsReady canon c h in
      IsReadyStep-after canon c (restart c) _ q (
        after_propagation_ready (restart c) _ _ r
          (unit_propagation-IsPropagated canon (restart c) r.valid)
          (unit_propagation_settles canon (restart c) r.valid))
