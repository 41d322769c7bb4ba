-- ===== src/Sat/Solve/Learned.antt =====
-- Learning a new clause and going back keeps the history of the levels.
use fabko.Base.{
  ℕ, ◌+◌, ◌%◌, ◌^◌, ◌≤◌, ◌<◌, false, ◌≡◌, ◌≢◌, ◌⊎◌, refl, sym, ◌∙◌, ap, subst, inl, inr, [], ◌∷◌,
  is_nil, In, In-append_right, All, All-of_In, Distinct, arith,
}
use fabko.Sat.Types.{
  Env, Context, ClauseRow, ConflictResolutionResult, lits_at, var_ids, clause_ids,
}
use fabko.Sat.Invariant.{IsValid}
use fabko.Sat.Invariant.Frame.{IsValid-same}
use fabko.Sat.Backtrack.{backtrack}
use fabko.Sat.Backtrack.Valid.{backtrack-IsBacktracked}
use fabko.Sat.Vsids.Valid.{IsRetuned, Retunes, update_vsids_activity-Retunes, IsRetuned-IsValid}
use fabko.Sat.Watcher.{Result, ok, err}
use fabko.Sat.Watcher.Made.{make_watcher_total}
use fabko.Sat.Solve.{learn_additional_clause, running, thrown, running_of, learn_and_backtrack}
use fabko.Sat.Solve.Learn.{grown-IsNext, grown_cases}
use fabko.Sat.Solve.History.{IsValid-IsKnown, backtracked-Steady}
use fabko.Sat.Solve.Levels.{ids_of, IsClosed, IsOpen, IsHistory, Steady-transfer, IsRetuned-Steady}
use fabko.Sat.Solve.Novel.{IsReady, IsResolved, learned_is_new, learned-IsOpen}

module _ ⦃e : Env⦄ (canon : ℕ → ℕ) where
  -- The clauses are the old ones, or one of them is none of the old.
  abbrev pub IsGrown : Context → Context → Type 0
  IsGrown c c' =
      (c'.clauses ≡ c.clauses)
      ⊎ ((d : ℕ) × In d (clause_ids c')
          × ((k : ℕ) → In k (clause_ids c) → lits_at c k ≢ lits_at c' d))

  module _ (c : Context) (r : ConflictResolutionResult) (h : IsReady canon c)
      (s : IsResolved canon c r) (pos : 0 < c.level) (n : is_nil r.learned_clause.vars ≡ false)
      (distinct : Distinct (ids_of r.learned_clause.vars)) where
    abbrev row : ClauseRow
    row = record {
      clause = r.learned_clause;
      watcher = (make_watcher_total c.vars r.learned_clause n).0;
    }

    abbrev learned : Context
    learned = record c {
      clauses = (e.clauses.insert c.clauses row).0;
      statistics = record (c.statistics) {
        learned_clause = (c.statistics.learned_clause + 1) % 2 ^ 64;
      };
    }

    abbrev back : Context
    back = backtrack learned r.backtrack_level

    learned-IsValid : IsValid canon learned
    learned-IsValid =
        IsValid-same canon (record c { clauses = (e.clauses.insert c.clauses row).0 }) learned refl
          refl refl refl (grown-IsNext canon c row h.valid s.derived).valid

    learned_cases :
        (d : ℕ)
        → In d (clause_ids learned)
        → (In d (clause_ids c) × (lits_at learned d ≡ lits_at c d))
          ⊎ (lits_at learned d ≡ r.learned_clause.vars)
    learned_cases d m = grown_cases canon c row h.valid s.derived d m

    low : r.backtrack_level ≤ c.level
    low = elim s.low [ inl lt ↦ omega (arith, lt) | inr z ↦ omega (arith, z) ]

    next-IsReady : (next : Context) → IsRetuned back next → IsReady canon next × IsGrown c next
    next-IsReady next u =
        let b = backtrack-IsBacktracked canon learned r.backtrack_level learned-IsValid in
        let same = u.clauses ∙ b.clauses in
        let old : (d : ℕ) → In d (clause_ids next) → In d (clause_ids learned) =
          λ d m. subst (λ t. In d (e.clauses.ids t)) same m in
        let lits : (d : ℕ) → lits_at next d ≡ lits_at learned d =
          λ d. ap (λ t. (e.clauses.at t d).clause.vars) same in
        let known = IsValid-IsKnown canon learned learned-IsValid in
        let begun : (l d : ℕ)
            → 0 < l
            → l ≤ r.backtrack_level
            → In d (clause_ids learned)
            → IsClosed c l (lits_at learned d) ⊎ IsOpen c l (lits_at learned d) =
          λ l d lpos le m. elim (learned_cases d m) [
            | inl (i, q) ↦
                subst (λ ls. IsClosed c l ls ⊎ IsOpen c l ls) (sym q)
                  (h.history l d lpos (omega (arith, le, low)) i)
            | inr q ↦
                subst (λ ls. IsClosed c l ls ⊎ IsOpen c l ls) (sym q)
                  (inr (learned-IsOpen canon c h r s l lpos le))
          ] in
        let history : IsHistory next = λ l d lpos le m.
          let lb : l ≤ r.backtrack_level = omega (arith, le, u.level, b.level) in
          let i = old d m in
          let st = backtracked-Steady canon learned back r.backtrack_level b l lb in
          subst (λ ls. IsClosed next l ls ⊎ IsOpen next l ls) (sym (lits d))
            (Steady-transfer l back next (lits_at learned d) (IsRetuned-Steady l back next u)
              (subst (λ t. All (λ p. In p.1 t) (lits_at learned d)) (sym b.ids) (known d i))
              (Steady-transfer l c back (lits_at learned d) (record { down = st.down; up = st.up })
                (known d i) (begun l d lpos lb i))) in
        let names : (d : ℕ) → In d (clause_ids learned) → Distinct (ids_of (lits_at learned d)) =
          λ d m. elim (learned_cases d m) [
            | inl (i, q) ↦ subst (λ ls. Distinct (ids_of ls)) (sym q) (h.distinct d i)
            | inr q ↦ subst (λ ls. Distinct (ids_of ls)) (sym q) distinct
          ] in
        let id = (e.clauses.insert c.clauses row).1 in
        let new : In id (clause_ids learned) =
          subst (In id) (sym (e.clauses.ids-insert c.clauses row))
            (In-append_right id (clause_ids c) (id ∷ []) (inl refl)) in
        let new_lits : lits_at learned id ≡ r.learned_clause.vars =
          ap (λ (t : ClauseRow). t.clause.vars) (e.clauses.at-insert_new c.clauses row) in
        (
          record {
            valid = IsRetuned-IsValid canon back next u b.valid;
            history = history;
            distinct = λ d m. subst (λ ls. Distinct (ids_of ls)) (sym (lits d)) (names d (old d m));
          },
          inr (
            id,
            subst (λ t. In id (e.clauses.ids t)) (sym same) new,
            λ k i q. learned_is_new canon c h r k s pos i (q ∙ lits id ∙ new_lits),
          ),
        )

    learned_eq : learn_additional_clause c r.learned_clause ≡ ok learned
    unfolding learn_additional_clause
    learned_eq = rw n (rw (make_watcher_total c.vars r.learned_clause n).1 refl)

    pub learn_and_backtrack-IsReady :
        (c' : Context) → learn_and_backtrack c r ≡ running c' → IsReady canon c' × IsGrown c c'
    unfolding learn_and_backtrack
    learn_and_backtrack-IsReady c' q =
        let b = backtrack-IsBacktracked canon learned r.backtrack_level learned-IsValid in
        let u = update_vsids_activity-Retunes back r.learned_clause (
          All-of_In (λ p. In p.1 (var_ids back)) r.learned_clause.vars
            (λ p i. subst (In p.1) (sym b.ids) (s.derived.falsified p i).entry.known)) in
        go _ u (rw (learned_eq, learn_and_backtrack) at q)
      where
        go :
            (o : Result Context)
            → Retunes back o
            → running_of o ≡ running c'
            → IsReady canon c' × IsGrown c c'
        go (err x) u z = absurd (differ z)
          where
            differ : thrown x ≡ running c' → ⊥
            differ z = cc
        go (ok next) u z = subst (λ a. IsReady canon a × IsGrown c a) same (next-IsReady next u.0)
          where
            same : next ≡ c'
            same = let w : running next ≡ running c' = z in cc
