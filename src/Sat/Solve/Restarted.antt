-- ===== src/Sat/Solve/Restarted.antt =====
-- A restart, be it due or not: the ranked contexts of the main loop, and what is left of one.
use fabko.Base.{
  ℕ, ◌+◌, ◌%◌, ◌^◌, ◌≤◌, ◌<◌, leb, ◌≡◌, ◌⊎◌, refl, ap, inl, inr, if◌then◌else◌, true, false, is_nil,
  Bool-cases, arith,
}
use fabko.Sat.Types.{Env, Context, var_at, var_ids}
use fabko.Sat.Invariant.Frame.{IsValid-same}
use fabko.Sat.Invariant.Carried.{Carries}
use fabko.Sat.Backtrack.Valid.{backtrack-IsBacktracked}
use fabko.Sat.Solve.{restarted, restart}
use fabko.Sat.Solve.Novel.{IsReady}
use fabko.Sat.Solve.Same.{restarted_same}
use fabko.Sat.Solve.Rank.{unlearned, pending}
use fabko.Sat.Solve.Thresholds.{raised, Lasts, Lasts-raised, Lasts-mono, Lasts-pos}

module _ ⦃e : Env⦄ where
  pub pending_cases : (c : Context) → (pending c ≡ 1) ⊎ (pending c ≡ 0)
  unfolding pending
  pending_cases c = elim (Bool-cases (leb c.config.restart_threshold c.conflict_count)) [
    | inl t ↦ rw t (inl refl)
    | inr f ↦ rw f (inr refl)
  ]

  pub pending-Carries : (c c' : Context) → Carries c c' → pending c' ≡ pending c
  unfolding pending
  pending-Carries c c' h k =
      if◌then◌else◌ (leb (h.config k).restart_threshold (h.conflict_count k)) 1 0

  pub pending-le : (c : Context) → pending c ≤ 1
  pending-le c = elim (pending_cases c) [ inl q ↦ omega (arith, q) | inr q ↦ omega (arith, q) ]

  not_pending : (c : Context) → c.conflict_count < c.config.restart_threshold → pending c ≡ 0
  unfolding pending
  not_pending c h = ground arith

module _ ⦃e : Env⦄ (canon : ℕ → ℕ) where
  -- A context from which the main loop ends.
  pub record IsRanked (c : Context) : Type 0 where
    pub ready : IsReady canon c
    pub has_vars : is_nil (var_ids c) ≡ false
    pub lasting : Lasts (unlearned c + c.conflict_count) c.config

  -- What a restart leaves, be it due or not.
  pub record IsRestarted (c c1 : Context) : Type 0 where
    pub ready : IsReady canon c1
    pub clauses : c1.clauses ≡ c.clauses
    pub ids : var_ids c1 ≡ var_ids c
    pub literals : (i : ℕ) → (var_at c1 i).literal ≡ (var_at c i).literal
    pub lasting : Lasts (unlearned c + c1.conflict_count) c1.config
    pub settled : pending c1 ≡ 0
    pub changed : (pending c ≡ 1) ⊎ ((pending c ≡ 0) × (c1 ≡ c))

  restarted-IsRestarted :
      (c : Context)
      → IsRanked c
      → leb c.config.restart_threshold c.conflict_count ≡ true
      → IsRestarted c (restarted c)
  unfolding restarted raised pending
  restarted-IsRestarted c h t =
      let c1 : Context = record c {
        conflict_count = 0;
        statistics = record (c.statistics) { restarts = (c.statistics.restarts + 1) % 2 ^ 64 };
      } in
      let b =
        backtrack-IsBacktracked canon c1 0
          (IsValid-same canon c c1 refl refl refl refl h.ready.valid) in
      let same = restarted_same canon c h.ready in
      let lasting : Lasts (unlearned c) (restarted c).config =
        Lasts-mono (unlearned c) (unlearned c) (raised c.config) (restarted c).config (omega arith)
          (ap raised b.carried.config)
          (Lasts-raised (unlearned c) c.conflict_count c.config (ground arith) h.lasting) in
      record {
        ready = same.1;
        clauses = same.0;
        ids = b.ids;
        literals = b.carried.literals;
        lasting =
            Lasts-mono (unlearned c + (restarted c).conflict_count) (unlearned c)
              (restarted c).config (restarted c).config (omega (arith, b.carried.conflict_count))
              refl lasting;
        settled = not_pending (restarted c) (
            omega (
              arith,
              Lasts-pos (unlearned c) (restarted c).config lasting,
              b.carried.conflict_count,
            ));
        changed = inl (rw t refl);
      }

  pub restart-IsRestarted : (c : Context) → IsRanked c → IsRestarted c (restart c)
  unfolding restart pending
  restart-IsRestarted c h = elim (Bool-cases (leb c.config.restart_threshold c.conflict_count)) [
    | inl t ↦ rw t (restarted-IsRestarted c h t)
    | inr f ↦ rw f (record {
      ready = h.ready;
      clauses = refl;
      ids = refl;
      literals = λ i. refl;
      lasting = h.lasting;
      settled = rw f refl;
      changed = inr (rw f refl, refl);
    })
  ]
