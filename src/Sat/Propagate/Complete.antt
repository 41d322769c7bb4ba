-- ===== src/Sat/Propagate/Complete.antt =====
-- Unit propagation comes to an end within its fuel, and leaves no clause that could propagate.
use fabko.Base.{
  ℕ, zero, suc, ◌+◌, ◌≤◌, ◌<◌, ◌==◌, ==_iff, ◌≡◌, refl, sym, ap, ◌∙◌, subst, inl, inr, List, [],
  ◌∷◌, Option, none, some, In, All, All-In, length, Bool-cases, Option-cases, none≢some, arith,
}
use fabko.Sat.Types.{Env, Context, Entry, lits_at, var_ids, clause_ids}
use fabko.Sat.Propagate.{
  Pass, propagate, propagate_each, propagate_all, count_propagations, unit_loop, unit_propagation,
}
use fabko.Sat.Propagate.Assign.{IsPass, free_known}
use fabko.Sat.Propagate.Valid.{propagate-IsPass, propagate_all-IsPass, count-IsValid, start-IsPass}
use fabko.Sat.Invariant.{IsEntry, IsValid}
use fabko.Sat.Propagate.Settling.{
  IsSettled, free_count, free_le, count_free, assign_free, propagate-Move, propagate_stops,
  All-settles, idle, forced, stuck,
}

module _ ⦃e : Env⦄ (canon : ℕ → ℕ) where
  entry_known :
      (c : Context) (b : ℕ) (q : Entry)
      → IsValid canon c
      → In b (clause_ids c)
      → In q (lits_at c b)
      → In q.1 (var_ids c)
  entry_known c b q v i j = (All-In (IsEntry canon c) (lits_at c b) (v.entries b i) q j).known

  propagate_free :
      (c0 : Context) (p : Pass) (d : ℕ)
      → IsPass canon c0 p
      → In d (clause_ids c0)
      → free_count (propagate p d).ctx + (propagate p d).count ≤ free_count p.ctx + p.count
  propagate_free c0 p d h m = elim (Option-cases p.conflict) [
    | inr (k, q) ↦ rw (propagate_stops p d k q) (omega arith)
    | inl n ↦ elim (propagate-Move p d n) [
      | idle z s ↦ rw z (omega arith)
      | stuck z ↦ rw z (omega arith)
      | forced q z s ↦
          let m' : In d (clause_ids p.ctx) =
            subst (λ t. In d (e.clauses.ids t)) (sym h.keeps.clauses) m in
          let f = free_known canon p.ctx d q [] s in
          let k = entry_known p.ctx d q h.valid m' f.0 in
          rw z (omega (arith, assign_free p.ctx d q k f.1))
    ]
  ]

  each_free :
      (c0 : Context) (p : Pass) (ds : List ℕ)
      → IsPass canon c0 p
      → ((d : ℕ) → In d ds → In d (clause_ids c0))
      → free_count (propagate_each p ds).ctx + (propagate_each p ds).count
        ≤ free_count p.ctx + p.count
  unfolding propagate_each
  each_free c0 p [] h m = omega arith
  each_free c0 p (d ∷ ds) h m = omega (
    arith,
    propagate_free c0 p d h (m d (inl refl)),
    each_free c0 (propagate p d) ds (propagate-IsPass canon c0 p d h (m d (inl refl)))
        (λ k i. m k (inr i)),
  )

  -- Each propagation of a round takes a variable.
  all_free :
      (c : Context)
      → IsValid canon c
      → free_count (propagate_all c).ctx + (propagate_all c).count ≤ free_count c
  unfolding propagate_all
  all_free c v = omega (
    arith,
    each_free c (record { ctx = c; conflict = none; count = 0 }) (clause_ids c)
        (start-IsPass canon c v) (λ d i. i),
  )

  unit_loop_settles :
      (fuel : ℕ) (c c' : Context)
      → IsValid canon c
      → free_count c < fuel
      → unit_loop fuel c ≡ (c', none)
      → All (IsSettled c') (clause_ids c')
  unfolding unit_loop
  unit_loop_settles zero c c' v lt h = absurd (omega arith)
  unit_loop_settles (suc fuel) c c' v lt h =
      let p = propagate_all c in
      let pv = (propagate_all-IsPass canon c v).valid in
      elim (Option-cases p.conflict) [
        | inr (d, q) ↦
            let h' : (p.ctx, some d) ≡ (c', none) = rw (q, unit_loop) at h in
            absurd (none≢some (sym (ap (λ (t : Context × Option ℕ). t.1) h')))
        | inl n ↦ elim (Bool-cases (p.count == 0)) [
          | inl z ↦
              let h' : (p.ctx, none) ≡ (c', none) = rw (z, unit_loop) at (rw (n, unit_loop) at h) in
              let s = All-settles c n ((==_iff p.count 0).0 z) in
              subst (λ t. All (IsSettled t) (clause_ids t))
                (sym s.0 ∙ ap (λ (t : Context × Option ℕ). t.0) h') s.1
          | inr z ↦
              let h' : unit_loop fuel (count_propagations p.ctx p.count) ≡ (c', none) =
                rw (z, unit_loop) at (rw (n, unit_loop) at h) in
              unit_loop_settles fuel (count_propagations p.ctx p.count) c'
                (count-IsValid canon p.ctx p.count pv)
                (ground (arith, count_free p.ctx p.count, all_free c v)) h'
        ]
      ]

  -- Where unit propagation of a valid context finds no conflict, every clause is afterwards
  -- satisfied or has at least two unassigned literals.
  pub unit_propagation_settles :
      (c : Context)
      → IsValid canon c
      → (unit_propagation c).1 ≡ none
      → All (IsSettled (unit_propagation c).0) (clause_ids (unit_propagation c).0)
  unfolding unit_propagation
  unit_propagation_settles c v h =
      let r = unit_loop (suc (length (var_ids c))) c in
      unit_loop_settles (suc (length (var_ids c))) c r.0 v (omega (arith, free_le c))
        (λ i. (r.0, h i))

  unit_loop_enough :
      (f g : ℕ) (c : Context)
      → IsValid canon c
      → free_count c < f
      → free_count c < g
      → unit_loop f c ≡ unit_loop g c
  unfolding unit_loop
  unit_loop_enough zero g c v lf lg = absurd (omega arith)
  unit_loop_enough (suc f) zero c v lf lg = absurd (omega arith)
  unit_loop_enough (suc f) (suc g) c v lf lg =
      let p = propagate_all c in
      let pv = (propagate_all-IsPass canon c v).valid in
      elim (Option-cases p.conflict) [
        | inr (d, q) ↦ rw (q, unit_loop)
        | inl n ↦ elim (Bool-cases (p.count == 0)) [
          | inl z ↦ rw (n, unit_loop) (rw z)
          | inr z ↦
              rw (n, unit_loop)
                (rw z (
                  unit_loop_enough f g (count_propagations p.ctx p.count)
                    (count-IsValid canon p.ctx p.count pv)
                    (ground (arith, count_free p.ctx p.count, all_free c v))
                    (ground (arith, count_free p.ctx p.count, all_free c v))))
        ]
      ]

  -- For a valid context the loop of unit propagation gives the same result on any fuel above the
  -- number of variables, the fuel of the model being one more than that number.
  pub unit_propagation_enough :
      (c : Context) (fuel : ℕ)
      → IsValid canon c
      → length (var_ids c) < fuel
      → unit_loop fuel c ≡ unit_propagation c
  unfolding unit_propagation
  unit_propagation_enough c fuel v lt =
      unit_loop_enough fuel (suc (length (var_ids c))) c v (omega (arith, free_le c))
        (omega (arith, free_le c))
