-- ===== src/Sat/Invariant/Carried.antt =====
-- What every operation of the solver leaves alone but a restart and the count of a conflict: the
-- configuration, the count of conflicts and the names of the variables.
use fabko.Base.{ℕ, ◌≡◌, refl, ◌∙◌, ap, subst, inl, inr, In, eq_cases}
use fabko.Sat.Types.{Env, Context, Variable, var_at, var_ids}
use fabko.Sat.Invariant.Assign.{at-put_self, at-put_ne}

module _ ⦃e : Env⦄ where
  pub record Carries (c c' : Context) : Type 0 where
    pub config : c'.config ≡ c.config
    pub conflict_count : c'.conflict_count ≡ c.conflict_count
    pub literals : (i : ℕ) → (var_at c' i).literal ≡ (var_at c i).literal

  pub Carries-refl : (c : Context) → Carries c c
  Carries-refl c = record { config = refl; conflict_count = refl; literals = λ i. refl }

  pub Carries-trans : (a b c : Context) → Carries a b → Carries b c → Carries a c
  Carries-trans a b c h k = record {
    config = k.config ∙ h.config;
    conflict_count = k.conflict_count ∙ h.conflict_count;
    literals = λ i. k.literals i ∙ h.literals i;
  }

  -- Writing the row of a variable under its name.
  pub Carries-put :
      (c c' : Context) (i : ℕ) (w : Variable)
      → In i (var_ids c)
      → w.literal ≡ (var_at c i).literal
      → c'.vars ≡ e.vars.put c.vars i w
      → c'.config ≡ c.config
      → c'.conflict_count ≡ c.conflict_count
      → Carries c c'
  Carries-put c c' i w m q ev ec en = record {
    config = ec;
    conflict_count = en;
    literals = λ j. ap (λ s. (e.vars.at s j).literal) ev ∙ elim (eq_cases i j) [
      | inl z ↦
          subst (λ k. (e.vars.at (e.vars.put c.vars i w) k).literal ≡ (var_at c k).literal) z
            (ap (λ v. v.literal) (at-put_self c i w m) ∙ q)
      | inr n ↦ ap (λ v. v.literal) (at-put_ne c i j w m n)
    ];
  }
