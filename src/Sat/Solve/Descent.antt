-- ===== src/Sat/Solve/Descent.antt =====
-- Each round of the main loop that goes on lowers the rank of the context, so the loop ends.
use fabko.Base.{
  ℕ, zero, suc, to_size, ◌+◌, ◌<◌, ◌≡◌, ◌≢◌, refl, sym, ◌∙◌, ap, subst, inl, inr, some, In, is_nil,
  length, arith,
}
use fabko.Sat.Types.{Env, Context, lits_at, var_ids, clause_ids}
use fabko.Sat.Invariant.Carried.{Carries, Carries-trans}
use fabko.Sat.Propagate.{unit_propagation}
use fabko.Sat.Propagate.Valid.{unit_propagation-IsPropagated}
use fabko.Sat.Propagate.Settling.{free_count}
use fabko.Sat.Decide.{make_decision}
use fabko.Sat.Decide.Valid.{make_decision-IsDecision}
use fabko.Sat.Solve.{Step, running, solved, unsatisfiable, thrown, restart, solve_step, solve_sat}
use fabko.Sat.Solve.Novel.{IsReady}
use fabko.Sat.Solve.Learned.{IsGrown}
use fabko.Sat.Solve.Ready.{solve_step-IsReadyStep}
use fabko.Sat.Solve.Same.{IsReadyStep}
use fabko.Sat.Solve.Learn.{IsNext}
use fabko.Sat.Solve.Sound.{solve_step-IsOutcome}
use fabko.Sat.Solve.Steps.{IsOutcome}
use fabko.Sat.Solve.Progress.{solve_step_moves}
use fabko.Sat.Solve.Counted.{IsCounted, IsCountedStep, solve_step_counted}
use fabko.Sat.Solve.Rank.{unlearned, pending, rank, unlearned-same, unlearned_falls}
use fabko.Sat.Solve.Thresholds.{Lasts-mono}
use fabko.Sat.Solve.Restarted.{
  pending-Carries, pending-le, IsRanked, IsRestarted, restart-IsRestarted,
}
use fabko.Sat.Solve.Falls.{free_mono, decision_falls, rank_lt_head, rank_lt_free}

module _ ⦃e : Env⦄ where
  -- What the main loop answers, on enough fuel.
  abbrev pub IsAnswer : Step → Type 0
  IsAnswer (running c) = ⊥
  IsAnswer (solved c ls) = Unit
  IsAnswer (unsatisfiable c) = Unit
  IsAnswer (thrown x) = ⊥

module _ ⦃e : Env⦄ (canon : ℕ → ℕ) where
  -- What a round leaves that goes on from a ranked context.
  record IsLower (c c' : Context) : Type 0 where
    ranked : IsRanked canon c'
    lower : rank c' < rank c

  -- A round that ends in a decision.
  decided-IsLower :
      (c c' : Context) (r : IsRestarted canon c (restart c))
      → IsRanked canon c
      → IsReady canon c'
      → make_decision (unit_propagation (restart c)).0 ≡ some c'
      → IsLower c c'
  decided-IsLower c c' r h y q =
      let c1 = restart c in
      let p = unit_propagation-IsPropagated canon c1 r.ready.valid in
      let c2 = (unit_propagation c1).0 in
      let k = make_decision-IsDecision canon c2 c' p.valid q in
      let m : Carries c1 c' = Carries-trans c1 c2 c' p.keeps.carried k.carried in
      let ids : var_ids c' ≡ var_ids c = k.ids ∙ p.keeps.ids ∙ r.ids in
      let same : unlearned c' ≡ unlearned c =
        unlearned-same c c' (k.clauses ∙ p.keeps.clauses ∙ r.clauses) ids
          (λ i. m.literals i ∙ r.literals i) in
      let free : free_count c' < free_count c1 =
        omega (arith, decision_falls canon c2 c' k, free_mono c1 c2 p.keeps.ids p.keeps.old) in
      let settled : pending c' ≡ 0 = pending-Carries c1 c' m ∙ r.settled in
      record {
        ranked = record {
          ready = y;
          has_vars = ap is_nil ids ∙ h.has_vars;
          lasting =
              Lasts-mono (unlearned c' + c'.conflict_count) (unlearned c + c1.conflict_count)
                c1.config c'.config (omega (arith, same, m.conflict_count)) m.config r.lasting;
        };
        lower = elim r.changed [
          | inl due ↦ rank_lt_head c c' ids (omega (arith, same, settled, due))
          | inr (n, z) ↦
              rank_lt_free c c' ids same (settled ∙ sym n)
                (subst (λ t. free_count c' < free_count t) z free)
        ];
      }

  -- A round that ends in a new clause.
  learned-IsLower :
      (c c' : Context) (r : IsRestarted canon c (restart c))
      → IsRanked canon c
      → IsReady canon c'
      → IsNext canon c c'
      → IsCounted (restart c) c'
      → (d : ℕ) → In d (clause_ids c')
      → ((k : ℕ) → In k (clause_ids c) → lits_at c k ≢ lits_at c' d)
      → IsLower c c'
  learned-IsLower c c' r h y n s d m new =
      let falls : unlearned c' < unlearned c =
        unlearned_falls canon c c' d y.valid n.extends.ids (λ i. s.literals i ∙ r.literals i)
          (λ k i. (n.extends.kept k i, n.extends.lits k i)) m (y.distinct d m) new in
      record {
        ranked = record {
          ready = y;
          has_vars = ap is_nil n.extends.ids ∙ h.has_vars;
          lasting =
              Lasts-mono (unlearned c' + c'.conflict_count)
                (unlearned c + (restart c).conflict_count) (restart c).config c'.config
                (omega (arith, falls, s.conflicts)) s.config r.lasting;
        };
        lower = rank_lt_head c c' n.extends.ids (omega (arith, falls, pending-le c'));
      }

  -- From a valid context with variables, whose clauses name each variable once and, below each
  -- level that was begun, have a true literal or two free variables, and whose restart threshold
  -- does not wrap to 0 within the conflicts that are left, a round of the main loop that goes on
  -- leaves such a context, of a lower rank.
  pub solve_step_descends :
      (c c' : Context)
      → IsRanked canon c
      → solve_step c ≡ running c'
      → IsRanked canon c' × (rank c' < rank c)
  solve_step_descends c c' h q =
      let r = restart-IsRestarted canon c h in
      let v = h.ready.valid in
      let y : IsReady canon c' × IsGrown canon c c' =
        subst (IsReadyStep canon c) q (solve_step-IsReadyStep canon c h.ready) in
      let n : IsNext canon c c' = subst (IsOutcome canon c) q (solve_step-IsOutcome canon c v) in
      let s : IsCounted (restart c) c' =
        subst (IsCountedStep (restart c)) q (solve_step_counted canon c v) in
      let low : IsLower c c' = elim (solve_step_moves canon c c' v h.has_vars q) [
        | inl z ↦ decided-IsLower c c' r h y.0 z
        | inr z ↦ elim y.1 [
          | inl w ↦ absurd (omega (arith, z, ap (λ t. length (e.clauses.ids t)) w))
          | inr (d, m, new) ↦ learned-IsLower c c' r h y.0 n s d m new
        ]
      ] in
      (low.ranked, low.lower)

  pub solve_sat_answers :
      (fuel : ℕ) (c : Context)
      → IsRanked canon c
      → to_size c.config.decay_interval ≢ 0
      → rank c < fuel
      → IsAnswer (solve_sat fuel c)
  unfolding solve_sat
  solve_sat_answers zero c h d lt = absurd (omega (arith, lt))
  solve_sat_answers (suc fuel) c h d lt =
      go (solve_step c) (solve_step-IsOutcome canon c h.ready.valid) (λ c' n q.
        let (y, low) = solve_step_descends c c' h q in
        solve_sat_answers fuel c' y (λ z. d (ap to_size (sym n.interval) ∙ z))
          (omega (arith, lt, low)))
    where
      go :
          (s : Step)
          → IsOutcome canon c s
          → ((c' : Context) → IsNext canon c c' → s ≡ running c' → IsAnswer (solve_sat fuel c'))
          → IsAnswer (elim s [
            | running c' ↦ solve_sat fuel c'
            | solved c' lits ↦ solved c' lits
            | unsatisfiable c' ↦ unsatisfiable c'
            | thrown x ↦ thrown x
          ])
      go (running c') o k = k c' o refl
      go (solved c' lits) o k = tt
      go (unsatisfiable c') o k = tt
      go (thrown x) o k = absurd (d o.1)
