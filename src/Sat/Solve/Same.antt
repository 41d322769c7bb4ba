-- ===== src/Sat/Solve/Same.antt =====
-- What a round leaves of a context with a history, where the clauses stay and after a restart.
use fabko.Base.{ℕ, leb, ◌≡◌, ◌≢◌, refl, sym, ◌∙◌, subst, inl, inr, In, Distinct, Bool-cases}
use fabko.Sat.Types.{Env, Context, lits_at}
use fabko.Sat.Invariant.{IsValid}
use fabko.Sat.Invariant.Frame.{IsValid-same}
use fabko.Sat.Backtrack.{backtrack}
use fabko.Sat.Backtrack.Valid.{backtrack-IsBacktracked}
use fabko.Sat.Solve.{Step, running, solved, unsatisfiable, thrown, restarted, restart}
use fabko.Sat.Solve.Levels.{ids_of, IsHistory, IsHistory-zero}
use fabko.Sat.Solve.Novel.{IsReady}
use fabko.Sat.Solve.Learned.{IsGrown}

module _ ⦃e : Env⦄ (canon : ℕ → ℕ) where
  -- What is known of the context of a round that goes on.
  abbrev pub IsReadyStep : Context → Step → Type 0
  IsReadyStep c (running c') = IsReady canon c' × IsGrown canon c c'
  IsReadyStep c (solved c' ls) = Unit
  IsReadyStep c (unsatisfiable c') = Unit
  IsReadyStep c (thrown x) = Unit

  pub IsReadyStep-of_running :
      (c : Context) (s : Step)
      → ((c' : Context) → s ≡ running c' → IsReady canon c' × IsGrown canon c c')
      → IsReadyStep c s
  IsReadyStep-of_running c (running c') h = h c' refl
  IsReadyStep-of_running c (solved c' ls) h = tt
  IsReadyStep-of_running c (unsatisfiable c') h = tt
  IsReadyStep-of_running c (thrown x) h = tt

  -- A context with the clauses of the first.
  pub IsReadyStep-after :
      (a b : Context) (s : Step) → b.clauses ≡ a.clauses → IsReadyStep b s → IsReadyStep a s
  IsReadyStep-after a b (running c') q (h, inl z) = (h, inl (z ∙ q))
  IsReadyStep-after a b (running c') q (h, inr (d, m, f)) = (
    h,
    inr (
      d,
      m,
      λ k i.
          subst (λ t. (e.clauses.at t k).clause.vars ≢ lits_at c' d) q
            (f k (subst (λ t. In k (e.clauses.ids t)) (sym q) i)),
    ),
  )
  IsReadyStep-after a b (solved c' ls) q h = tt
  IsReadyStep-after a b (unsatisfiable c') q h = tt
  IsReadyStep-after a b (thrown x) q h = tt

  -- The same clauses, with a history.
  pub IsReady-same :
      (a b : Context)
      → b.clauses ≡ a.clauses
      → IsValid canon b
      → IsHistory b
      → IsReady canon a
      → IsReady canon b
  IsReady-same a b q v h r = record {
    valid = v;
    history = h;
    distinct = λ d m.
        subst (λ t. Distinct (ids_of (e.clauses.at t d).clause.vars)) (sym q)
          (r.distinct d (subst (λ t. In d (e.clauses.ids t)) q m));
  }

  pub restarted_same :
      (c : Context)
      → IsReady canon c
      → ((restarted c).clauses ≡ c.clauses) × IsReady canon (restarted c)
  unfolding restarted
  restarted_same c h =
      let c1 : Context = record c {
        conflict_count = 0;
        statistics = record (c.statistics) { restarts = _ };
      } in
      let b =
        backtrack-IsBacktracked canon c1 0 (IsValid-same canon c c1 refl refl refl refl h.valid) in
      (
        b.clauses,
        IsReady-same c (restarted c) b.clauses
            (IsValid-same canon (backtrack c1 0) (restarted c) refl refl refl refl b.valid)
            (IsHistory-zero (restarted c) b.level) h,
      )

  pub restart-IsReady :
      (c : Context)
      → IsReady canon c
      → ((restart c).clauses ≡ c.clauses) × IsReady canon (restart c)
  unfolding restart
  restart-IsReady c h = elim (Bool-cases (leb c.config.restart_threshold c.conflict_count)) [
    | inl t ↦ rw t (restarted_same c h)
    | inr f ↦ rw f (refl, h)
  ]
