-- ===== src/Sat/Solve/Progress.antt =====
-- The main loop of fabko/compiler/backend/sat/solver_impl.cpp makes progress: no round goes on as it
-- was.
use fabko.Base.{
  ℕ, suc, ◌+◌, ◌%◌, ◌^◌, ◌≤◌, true, false, ◌&&◌, ◌==◌, leb, ◌≡◌, ◌⊎◌, refl, sym, ◌∙◌, ap, subst,
  inl, inr, List, [], ◌∷◌, Option, none, some, In, is_nil, all_intro, All, All-In, keep, In-keep,
  length, map, Bool-cases, Option-cases, arith,
}
use fabko.Sat.Literal.{Literal, is_unassigned}
use fabko.Sat.Types.{Env, Context, Entry, lits_at, var_ids, clause_ids, assignment_at}
use fabko.Sat.Clauses.{is_clause_satisfied, unassigned}
use fabko.Sat.Propagate.{unit_propagation}
use fabko.Sat.Propagate.Assign.{IsConflict}
use fabko.Sat.Propagate.Valid.{IsPropagated, unit_propagation-IsPropagated}
use fabko.Sat.Propagate.Complete.{unit_propagation_settles}
use fabko.Sat.Propagate.Settling.{IsSettled}
use fabko.Sat.Backtrack.Valid.{backtrack-IsBacktracked}
use fabko.Sat.Invariant.Frame.{IsValid-same}
use fabko.Sat.Resolve.{resolve_conflict}
use fabko.Sat.Decide.{unassigned_vars, make_decision}
use fabko.Sat.Decide.Valid.{none_free}
use fabko.Sat.Solve.{
  running, solved, unsatisfiable, restarted, restart, count_conflict, learn_and_backtrack,
  on_conflict, solution, all_satisfied, after_resolution, on_complete, no_conflict,
  after_propagation, solve_step,
}
use fabko.Sat.Resolve.Sound.{resolve_conflict-IsDerived}
use fabko.Sat.Solve.Steps.{
  IsLearning, learn_and_backtrack-IsLearning, count_conflict-IsNext, restart-IsNext,
}
use fabko.Sat.Invariant.{IsEntry, IsValid}

module _ ⦃e : Env⦄ where
  -- What a round that goes on has done: it decided a variable, or learned a clause.
  abbrev pub HasMoved : Context → Context → Type 0
  HasMoved c c' =
      (make_decision (unit_propagation (restart c)).0 ≡ some c')
      ⊎ (length (clause_ids c') ≡ suc (length (clause_ids c)))

module _ ⦃e : Env⦄ (canon : ℕ → ℕ) where
  settled_satisfied :
      (c : Context) (d : ℕ)
      → IsValid canon c
      → make_decision c ≡ none
      → In d (clause_ids c)
      → IsSettled c d
      → is_clause_satisfied c (e.clauses.at c.clauses d).clause ≡ true
  unfolding unassigned unassigned_vars
  settled_satisfied c d v h m (inl t) = t
  settled_satisfied c d v h m (inr le) = absurd (go (lits_at c d) (v.entries d m) le)
    where
      go :
          (ps : List Entry)
          → All (IsEntry canon c) ps
          → 2 ≤ length (keep (λ p. is_unassigned (assignment_at c p.1)) ps)
          → ⊥
      go [] hs n = omega (arith, n)
      go (p ∷ ps) hs n = elim (Bool-cases (is_unassigned (assignment_at c p.1))) [
        | inl t ↦
            subst (In p.1) (none_free c h)
              (In-keep (λ i. is_unassigned (assignment_at c i)) (var_ids c) p.1 (hs.0).known t)
        | inr f ↦ go ps hs.1 (rw f at n)
      ]

  -- Where unit propagation of a valid context finds no conflict and no decision can be made
  -- afterwards, every clause is satisfied.
  pub complete_satisfied :
      (c : Context)
      → IsValid canon c
      → (unit_propagation c).1 ≡ none
      → make_decision (unit_propagation c).0 ≡ none
      → all_satisfied (unit_propagation c).0 ≡ true
  unfolding all_satisfied
  complete_satisfied c v n h =
      let c' = (unit_propagation c).0 in
      let v' = (unit_propagation-IsPropagated canon c v).valid in
      let s = unit_propagation_settles canon c v n in
      all_intro (λ d. is_clause_satisfied c' (e.clauses.at c'.clauses d).clause) (clause_ids c')
        λ d m. settled_satisfied c' d v' h m (All-In (IsSettled c') (clause_ids c') s d m)

  solution_not_nil : (c : Context) → is_nil (var_ids c) ≡ false → is_nil (solution c) ≡ false
  unfolding solution
  solution_not_nil c h = go _ (var_ids c) h
    where
      go : (f : ℕ → Literal) (is : List ℕ) → is_nil is ≡ false → is_nil (map f is) ≡ false
      go f [] q = q
      go f (i ∷ is) q = refl

  no_conflict_decides :
      (c c' : Context)
      → (make_decision c ≡ none → all_satisfied c ≡ true)
      → is_nil (solution c) ≡ false
      → no_conflict c ≡ running c'
      → make_decision c ≡ some c'
  unfolding no_conflict on_complete
  no_conflict_decides c c' t n h = elim (Option-cases (make_decision c)) [
    | inl z ↦
        let q : on_complete c ≡ running c' = rw (z, no_conflict) at h in
        let q' : solved c (solution c) ≡ running c' =
          rw (n, on_complete) at (rw (t z, on_complete) at q) in
        cc
    | inr (c1, z) ↦ let q : running c1 ≡ running c' = rw (z, no_conflict) at h in cc
  ]

  on_conflict_learns :
      (c c' : Context) (d : ℕ)
      → IsValid canon c
      → IsConflict c d
      → on_conflict c d ≡ running c'
      → length (clause_ids c') ≡ suc (length (clause_ids c))
  unfolding on_conflict after_resolution
  on_conflict_learns c c' d v k h =
      let c1 = count_conflict c in
      let n = count_conflict-IsNext canon c v in
      let k1 : IsConflict c1 d =
        unfold count_conflict in record { known = k.known; falsified = k.falsified } in
      let same : clause_ids c1 ≡ clause_ids c = unfold count_conflict in refl in
      let r = resolve_conflict c1 d in
      elim (Bool-cases ((c1.level == 0) && (r.backtrack_level == 0))) [
        | inl t ↦ let q : unsatisfiable c1 ≡ running c' = rw t at h in cc
        | inr f ↦ elim (Bool-cases (is_nil r.learned_clause.vars)) [
          | inl z ↦ let q : unsatisfiable c1 ≡ running c' = rw z at (rw f at h) in cc
          | inr z ↦
              let q : learn_and_backtrack c1 r ≡ running c' = rw z at (rw f at h) in
              let l : IsLearning canon c1 (running c') = subst (IsLearning canon c1) q (
                learn_and_backtrack-IsLearning canon c1 r n.valid
                  (resolve_conflict-IsDerived canon c1 d n.valid k1) z) in
              l.1 ∙ ap (λ is. suc (length is)) same
        ]
      ]

  after_moves :
      (c c' : Context) (r : Context × Option ℕ)
      → IsPropagated canon c r
      → (r.1 ≡ none → make_decision r.0 ≡ none → all_satisfied r.0 ≡ true)
      → is_nil (var_ids c) ≡ false
      → after_propagation r ≡ running c'
      → (make_decision r.0 ≡ some c') ⊎ (length (clause_ids c') ≡ suc (length (clause_ids r.0)))
  unfolding after_propagation
  after_moves c c' (c1, none) p t n h = inl (
      no_conflict_decides c1 c' (t refl)
        (solution_not_nil c1 (subst (λ is. is_nil is ≡ false) (sym p.keeps.ids) n)) h)
  after_moves c c' (c1, some d) p t n h =
      inr (on_conflict_learns c1 c' d p.valid (p.conflicting d refl) h)

  pub restart-clauses : (c : Context) → IsValid canon c → clause_ids (restart c) ≡ clause_ids c
  unfolding restart restarted
  restart-clauses c v = elim (Bool-cases (leb c.config.restart_threshold c.conflict_count)) [
    | inl t ↦
        let c1 : Context = record c {
          conflict_count = 0;
          statistics = record (c.statistics) { restarts = (c.statistics.restarts + 1) % 2 ^ 64 };
        } in
        let b =
          backtrack-IsBacktracked canon c1 0 (IsValid-same canon c c1 refl refl refl refl v) in
        rw t (ap e.clauses.ids b.clauses)
    | inr f ↦ rw f refl
  ]

  -- From a valid context that has variables, a round of the main loop that goes on made a
  -- decision after unit propagation, or the context has one clause more.
  pub solve_step_moves :
      (c c' : Context)
      → IsValid canon c
      → is_nil (var_ids c) ≡ false
      → solve_step c ≡ running c'
      → HasMoved c c'
  unfolding solve_step
  solve_step_moves c c' v n h =
      let a = restart-IsNext canon c v in
      let p = unit_propagation-IsPropagated canon (restart c) a.valid in
      let same = ap e.clauses.ids p.keeps.clauses ∙ restart-clauses c v in
      let n' = subst (λ is. is_nil is ≡ false) (sym a.extends.ids) n in
      elim (after_moves (restart c) c' (unit_propagation (restart c)) p
        (complete_satisfied (restart c) a.valid) n' h) [
          | inl q ↦ inl q
          | inr q ↦ inr (q ∙ ap (λ is. suc (length is)) same)
        ]
