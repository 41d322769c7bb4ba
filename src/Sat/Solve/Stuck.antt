-- ===== src/Sat/Solve/Stuck.antt =====
-- The main loop where the restart threshold has wrapped to 0: each round restarts before it goes on,
-- so no second decision stands beside the first one.
use fabko.Base.{
  ℕ, zero, suc, ◌+◌, ◌*◌, ◌%◌, ◌^◌, ◌≤◌, ◌<◌, true, leb, ◌≡◌, ◌≢◌, ◌⊎◌, refl, sym, ◌∙◌, ap, subst,
  inl, inr, List, [], ◌∷◌, some, length, In, In-keep, keep, any_intro, All, All-In, All-of_In,
  Bool-cases, Option-cases, arith,
}
use fabko.Sat.Literal.{is_unassigned}
use fabko.Sat.Types.{Env, Context, Entry, lits_at, var_ids, clause_ids, assignment_at, level_at}
use fabko.Sat.Clauses.{lit_true, is_clause_satisfied, unassigned}
use fabko.Sat.Invariant.Frame.{IsValid-same, trail_level}
use fabko.Sat.Backtrack.{backtrack}
use fabko.Sat.Backtrack.Valid.{IsBacktracked, backtrack-IsBacktracked}
use fabko.Sat.Propagate.{unit_propagation}
use fabko.Sat.Propagate.Settling.{IsSettled}
use fabko.Sat.Propagate.Settled.{settled_stays}
use fabko.Sat.Decide.{unassigned_vars, make_decision}
use fabko.Sat.Decide.Valid.{make_decision-IsDecision, none_free}
use fabko.Sat.Solve.{
  running, restarted, restart, no_conflict, after_propagation, solve_step, solve_sat,
}
use fabko.Sat.Solve.History.{IsValid-IsKnown}
use fabko.Sat.Solve.Levels.{NotBelow, IsClosed, IsOpen}
use fabko.Sat.Solve.Novel.{IsReady}
use fabko.Sat.Solve.Ready.{solve_step-IsReadyStep}
use fabko.Sat.Solve.Same.{restarted_same, IsReadyStep}

-- Two different entries of a list.
two_In : (xs : List Entry) (p q : Entry) → In p xs → In q xs → p.1 ≢ q.1 → 2 ≤ length xs
two_In [] p q i j n = absurd i
two_In (x ∷ []) p q (inl a) (inl b) n = absurd (n (ap (λ (r : Entry). r.1) (sym a ∙ b)))
two_In (x ∷ []) p q (inl a) (inr j) n = absurd j
two_In (x ∷ []) p q (inr i) j n = absurd i
two_In (x ∷ y ∷ xs) p q i j n = omega arith

zero_times : (a b : ℕ) → a ≡ 0 → a * b % 2 ^ 32 ≡ 0
zero_times a b q = rw q (omega arith)

module _ ⦃e : Env⦄ (canon : ℕ → ℕ) where
  -- A decision was made, a variable is not assigned below it, and the threshold is 0.
  pub record IsWrapped (c : Context) : Type 0 where
    pub ready : IsReady canon c
    pub wrapped : c.config.restart_threshold ≡ 0
    pub begun : 0 < c.level
    pub free : (i : ℕ) × In i (var_ids c) × NotBelow c 1 i

  module _ (c : Context) (h : IsWrapped c) where
    abbrev c1 : Context
    c1 = restarted c

    abbrev counted : Context
    counted = record c {
      conflict_count = 0;
      statistics = record (c.statistics) { restarts = (c.statistics.restarts + 1) % 2 ^ 64 };
    }

    back : IsBacktracked canon counted (backtrack counted 0) 0
    back =
        backtrack-IsBacktracked canon counted 0
          (IsValid-same canon c counted refl refl refl refl h.ready.valid)

    -- What was not assigned below level 1 is free again.
    freed : (i : ℕ) → In i (var_ids c) → NotBelow c 1 i → is_unassigned (assignment_at c1 i) ≡ true
    unfolding restarted
    freed i m n = elim (Bool-cases (is_unassigned (assignment_at c1 i))) [
      | inl u ↦ u
      | inr a ↦
          let b = back in
          let low : level_at c1 i ≤ 0 = omega (
            arith,
            b.level,
            trail_level canon (backtrack counted 0) (backtrack counted 0).level
                (backtrack counted 0).trail b.valid.ordered i
                (b.valid.complete i (subst (In i) (sym b.ids) m) a),
          ) in
          let row = b.kept i (omega (arith, low, b.levels i)) in
          absurd
            (omega (arith, low, b.levels i, n (ap (λ v. is_unassigned v.assignment) (sym row) ∙ a)))
    ]

    known : (d : ℕ) → In d (clause_ids c) → (p : Entry) → In p (lits_at c d) → In p.1 (var_ids c)
    known d m p i =
        All-In (λ (r : Entry). In r.1 (var_ids c)) (lits_at c d)
          (IsValid-IsKnown canon c h.ready.valid d m) p i

    IsSettled-lits :
        (d : ℕ)
        → In d (clause_ids c)
        → IsClosed c 1 (lits_at c d) ⊎ IsOpen c 1 (lits_at c d)
        → IsSettled c1 d
    unfolding restarted is_clause_satisfied unassigned
    IsSettled-lits d m o =
        let b = back in
        let same : lits_at c1 d ≡ lits_at c d =
          ap (λ s. (e.clauses.at s d).clause.vars) b.clauses in
        elim o [
          | inl (p, i, t, lt) ↦ inl (
              any_intro (λ q. lit_true q.0 (assignment_at c1 q.1)) (lits_at c1 d) p
                (subst (In p) (sym same) i)
                (ap (λ v. lit_true p.0 v.assignment) (b.kept p.1 (omega (arith, lt))) ∙ t))
          | inr (p, q, i, j, ne, hp, hq) ↦ inr (
              two_In (keep (λ r. is_unassigned (assignment_at c1 r.1)) (lits_at c1 d)) p q
                (In-keep _ (lits_at c1 d) p (subst (In p) (sym same) i)
                  (freed p.1 (known d m p i) hp))
                (In-keep _ (lits_at c1 d) q (subst (In q) (sym same) j)
                  (freed q.1 (known d m q j) hq))
                ne)
        ]

    all-IsSettled : All (IsSettled c1) (clause_ids c1)
    all-IsSettled = All-of_In (IsSettled c1) (clause_ids c1) λ d k.
        let m : In d (clause_ids c) =
          subst (λ t. In d (e.clauses.ids t)) (restarted_same canon c h.ready).0 k in
        IsSettled-lits d m (h.ready.history 1 d (omega arith) (omega (arith, h.begun)) m)

    -- The round is a restart and a decision.
    decides : (c' : Context) × (make_decision c1 ≡ some c')
    unfolding unassigned_vars restarted
    decides = elim (Option-cases (make_decision c1)) [
      | inr d ↦ d
      | inl n ↦
          let (i, m, below) = h.free in
          absurd (
            subst (In i) (none_free c1 n) (
              In-keep (λ j. is_unassigned (assignment_at c1 j)) (var_ids c1) i
                (subst (In i) (sym back.ids) m) (freed i m below)))
    ]

    restarts : restart c ≡ c1
    unfolding restart
    restarts =
        let due : leb c.config.restart_threshold c.conflict_count ≡ true =
          rw h.wrapped (ground arith) in
        rw due refl

    round : solve_step c ≡ running decides.0
    unfolding solve_step after_propagation no_conflict
    round =
        ap (λ r. after_propagation (unit_propagation r)) restarts
        ∙ ap after_propagation (settled_stays c1 all-IsSettled)
        ∙ rw (decides.1, no_conflict) refl

    next-IsWrapped : IsWrapped decides.0
    unfolding restarted
    next-IsWrapped =
        let b = back in
        let (c', q) = decides in
        let k = make_decision-IsDecision canon c1 c' (restarted_same canon c h.ready).1.valid q in
        let threshold : c1.config.restart_threshold ≡ 0 =
          ap (λ f. f.restart_threshold * f.restart_multiplier % 2 ^ 32) b.carried.config
          ∙ zero_times c.config.restart_threshold c.config.restart_multiplier h.wrapped in
        let (i, m, below) = h.free in
        record {
          ready = (subst (IsReadyStep canon c) round (solve_step-IsReadyStep canon c h.ready)).0;
          wrapped = ap (λ f. f.restart_threshold) k.carried.config ∙ threshold;
          begun = omega (arith, k.level);
          free = (
            i,
            subst (In i) (sym (k.ids ∙ b.ids)) m,
            λ a. omega (arith, k.new i (freed i m below) a),
          );
        }

  -- From a valid context whose clauses name each variable once and, below each level that was
  -- begun, have a true literal or two free variables, with a decision on its trail, where a
  -- restart threshold of 0 was reached and a variable has no assignment from before the first
  -- decision, no number of rounds ends the main loop.
  pub solve_sat_stuck :
      (c : Context) (fuel : ℕ) → IsWrapped c → (c' : Context) × (solve_sat fuel c ≡ running c')
  unfolding solve_sat
  solve_sat_stuck c zero h = (c, refl)
  solve_sat_stuck c (suc fuel) h =
      let (c', q) = solve_sat_stuck (decides c h).0 fuel (next-IsWrapped c h) in
      (c', rw (round c h, solve_sat) q)
