-- ===== src/Sat/Solve/Learn.antt =====
-- Learning a derived clause keeps the invariant and the models.
use fabko.Base.{
  ℕ, Bool, true, ◌≡◌, refl, sym, ◌∙◌, ap, subst, inl, inr, ◌⊎◌, [], ◌∷◌, In, In-append_left,
  In-append_cases, any, All, All-of_In, All-imp,
}
use fabko.Sat.Types.{Env, Context, ClauseRow, var_at, lits_at, var_ids, clause_ids}
use fabko.Sat.Resolve.Literals.{IsDerived}
use fabko.Sat.Invariant.{holds, Models, IsEntry, IsValid}
use fabko.Sat.Invariant.Frame.{Extends, Agree-refl, IsEntry-frame, IsValid-frame}

module _ ⦃e : Env⦄ (canon : ℕ → ℕ) where
  -- The second context comes from the first by steps that keep the invariant, the clauses, the
  -- models and the interval of the decay.
  pub record IsNext (c c' : Context) : Type 0 where
    pub valid : IsValid canon c'
    pub extends : Extends c c'
    pub models : (ν : ℕ → Bool) → Models ν c → Models ν c'
    pub interval : c'.config.decay_interval ≡ c.config.decay_interval

  pub IsNext-trans : (a b c : Context) → IsNext a b → IsNext b c → IsNext a c
  IsNext-trans a b c h k = record {
    valid = k.valid;
    extends = record {
      ids = k.extends.ids ∙ h.extends.ids;
      kept = λ d m. k.extends.kept d (h.extends.kept d m);
      lits = λ d m. k.extends.lits d (h.extends.kept d m) ∙ h.extends.lits d m;
    };
    models = λ ν m. k.models ν (h.models ν m);
    interval = k.interval ∙ h.interval;
  }

  -- A step that leaves the clauses alone.
  pub IsNext-same :
      (a b : Context)
      → IsValid canon b
      → var_ids b ≡ var_ids a
      → b.clauses ≡ a.clauses
      → b.config.decay_interval ≡ a.config.decay_interval
      → IsNext a b
  IsNext-same a b v ei ec ed = record {
    valid = v;
    extends = record {
      ids = ei;
      kept = λ d m. subst (λ s. In d (e.clauses.ids s)) (sym ec) m;
      lits = λ d m. ap (λ s. (e.clauses.at s d).clause.vars) ec;
    };
    models = λ ν m.
        subst
          (λ s.
            (d : ℕ) → In d (e.clauses.ids s) → any (holds ν) (e.clauses.at s d).clause.vars ≡ true)
          (sym ec) m;
    interval = ed;
  }

  module _ (c : Context) (row : ClauseRow) (v : IsValid canon c)
      (h : IsDerived canon c row.clause.vars) where
    abbrev grown : Context
    grown = record c { clauses = (e.clauses.insert c.clauses row).0 }

    abbrev new_id : ℕ
    new_id = (e.clauses.insert c.clauses row).1

    new_or_old : (d : ℕ) → In d (clause_ids grown) → In d (clause_ids c) ⊎ (new_id ≡ d)
    new_or_old d m =
        elim (In-append_cases d (clause_ids c) (new_id ∷ [])
          (subst (In d) (e.clauses.ids-insert c.clauses row) m)) [
            | inl i ↦ inl i
            | inr (inl z) ↦ inr z
            | inr (inr z) ↦ absurd z
          ]

    new_lits : lits_at grown new_id ≡ row.clause.vars
    new_lits = ap (λ (r : ClauseRow). r.clause.vars) (e.clauses.at-insert_new c.clauses row)

    grown-Extends : Extends c grown
    grown-Extends = record {
      ids = refl;
      kept = λ d m.
          subst (In d) (sym (e.clauses.ids-insert c.clauses row))
            (In-append_left d (clause_ids c) (new_id ∷ []) m);
      lits =
          λ d m. ap (λ (r : ClauseRow). r.clause.vars) (e.clauses.at-insert_old c.clauses row d m);
    }

    -- Each clause is an old one or has the new literals.
    pub grown_cases :
        (d : ℕ)
        → In d (clause_ids grown)
        → (In d (clause_ids c) × (lits_at grown d ≡ lits_at c d))
          ⊎ (lits_at grown d ≡ row.clause.vars)
    grown_cases d m = elim (new_or_old d m) [
      | inl i ↦ inl (i, grown-Extends.lits d i)
      | inr z ↦ inr (subst (λ k. lits_at grown k ≡ row.clause.vars) z new_lits)
    ]

    pub grown-IsNext : IsNext c grown
    grown-IsNext =
        let ext = grown-Extends in
        let entries : (d : ℕ)
            → In d (clause_ids grown)
            → All (IsEntry canon grown) (lits_at grown d) =
          λ d m. elim (new_or_old d m) [
            | inl i ↦ subst (All (IsEntry canon grown)) (sym (ext.lits d i)) (
                All-imp (lits_at c d) (IsEntry-frame canon c grown ext (λ j k. refl))
                  (v.entries d i))
            | inr z ↦
                subst (λ k. All (IsEntry canon grown) (lits_at grown k)) z
                  (subst (All (IsEntry canon grown)) (sym new_lits) (
                    All-of_In (IsEntry canon grown) row.clause.vars (λ p i.
                      IsEntry-frame canon c grown ext (λ j k. refl) p (h.falsified p i).entry)))
          ] in
        record {
          valid =
              IsValid-frame canon c grown ext (λ i m. Agree-refl (var_at c i)) refl refl entries v;
          extends = ext;
          models = λ ν m d i. elim (new_or_old d i) [
            | inl j ↦ subst (λ ls. any (holds ν) ls ≡ true) (sym (ext.lits d j)) (m d j)
            | inr z ↦
                subst (λ k. any (holds ν) (lits_at grown k) ≡ true) z
                  (subst (λ ls. any (holds ν) ls ≡ true) (sym new_lits) (h.implied ν m))
          ];
          interval = refl;
        }
