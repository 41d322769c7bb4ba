-- ===== src/Sat/Vsids/Valid.antt =====
-- The update of the activities changes nothing else.
use fabko.Base.{
  ℕ, ℤ, to_size, ◌%◌, ◌==◌, ◌≡◌, ◌≢◌, true≢false, refl, sym, ◌∙◌, ap, subst, inl, inr, List, [],
  ◌∷◌, map, In, All, eq_cases, ==_iff, Bool-cases,
}
use fabko.Sat.Types.{Env, Context, Clause, Entry, var_at, var_ids}
use fabko.Sat.Vsids.{
  change_activity, update_each, need_normalization, normalized, increased, decayed,
  update_vsids_activity,
}
use fabko.Sat.Watcher.{Exception, Result, ok, err, division_by_zero}
use fabko.Sat.Invariant.{Agree, IsValid}
use fabko.Sat.Invariant.Frame.{
  Agree-refl, Agree-trans, Agree-of_eq, Extends, IsValid-frame, entries-frame,
}
use fabko.Sat.Invariant.Assign.{at-put_self, at-put_ne}
use fabko.Sat.Invariant.Carried.{Carries, Carries-refl, Carries-trans, Carries-put}

module _ ⦃e : Env⦄ where
  -- The second context is the first, but for the activities.
  pub record IsRetuned (c c' : Context) : Type 0 where
    pub ids : var_ids c' ≡ var_ids c
    pub clauses : c'.clauses ≡ c.clauses
    pub trail : c'.trail ≡ c.trail
    pub level : c'.level ≡ c.level
    pub agree : (i : ℕ) → Agree (var_at c i) (var_at c' i)
    pub carried : Carries c c'

  -- The division by the interval of the decay has no result.
  abbrev pub IsDivisionByZero : Context → Exception → Type 0
  IsDivisionByZero c x = (x ≡ division_by_zero) × (to_size c.config.decay_interval ≡ 0)

  -- What the update leaves, or why it does not return: it returns where the interval is not 0 only.
  abbrev pub Retunes : Context → Result Context → Type 0
  Retunes c (ok c') = IsRetuned c c' × (to_size c.config.decay_interval ≢ 0)
  Retunes c (err x) = IsDivisionByZero c x

  IsRetuned-refl : (c : Context) → IsRetuned c c
  IsRetuned-refl c = record {
    ids = refl;
    clauses = refl;
    trail = refl;
    level = refl;
    agree = λ i. Agree-refl (var_at c i);
    carried = Carries-refl c;
  }

  IsRetuned-trans : (a b c : Context) → IsRetuned a b → IsRetuned b c → IsRetuned a c
  IsRetuned-trans a b c h k = record {
    ids = k.ids ∙ h.ids;
    clauses = k.clauses ∙ h.clauses;
    trail = k.trail ∙ h.trail;
    level = k.level ∙ h.level;
    agree = λ i. Agree-trans (var_at a i) (var_at b i) (var_at c i) (h.agree i) (k.agree i);
    carried = Carries-trans a b c h.carried k.carried;
  }

  change_one :
      (f : ℤ → ℤ) (c : Context) (i : ℕ)
      → In i (var_ids c)
      → IsRetuned c (record c { vars = e.vars.put c.vars i (change_activity f (var_at c i)) })
  unfolding change_activity
  change_one f c i m =
      let w = change_activity f (var_at c i) in
      record {
        ids = e.vars.ids-put c.vars i w;
        clauses = refl;
        trail = refl;
        level = refl;
        agree = λ j. elim (eq_cases i j) [
          | inl z ↦
              subst (λ k. Agree (var_at c k) (e.vars.at (e.vars.put c.vars i w) k)) z
                (subst (Agree (var_at c i)) (sym (at-put_self c i w m))
                  (record { literal = refl; assignment = refl; level = refl; reason = refl }))
          | inr n ↦
              Agree-of_eq (var_at c j) (e.vars.at (e.vars.put c.vars i w) j) (at-put_ne c i j w m n)
        ];
        carried = Carries-put c _ i w m refl refl refl refl;
      }

  update_each-IsRetuned :
      (f : ℤ → ℤ) (c : Context) (is : List ℕ)
      → ((i : ℕ) → In i is → In i (var_ids c))
      → IsRetuned c (update_each f c is)
  unfolding update_each change_activity
  update_each-IsRetuned f c [] h = IsRetuned-refl c
  update_each-IsRetuned f c (i ∷ is) h =
      let c1 : Context = record c { vars = e.vars.put c.vars i (change_activity f (var_at c i)) } in
      let one : IsRetuned c c1 = change_one f c i (h i (inl refl)) in
      IsRetuned-trans c c1 _ one
        (update_each-IsRetuned f c1 is (λ j m. subst (In j) (sym one.ids) (h j (inr m))))

  In-ids :
      (c : Context) (lits : List Entry)
      → All (λ p. In p.1 (var_ids c)) lits
      → (i : ℕ) → In i (map (λ (p : Entry). p.1) lits)
      → In i (var_ids c)
  In-ids c [] h i m = absurd m
  In-ids c (p ∷ ps) h i (inl z) = subst (λ k. In k (var_ids c)) z h.0
  In-ids c (p ∷ ps) h i (inr m) = In-ids c ps h.1 i m

  normalized-IsRetuned : (c : Context) (lits : List Entry) → IsRetuned c (normalized c lits)
  unfolding normalized
  normalized-IsRetuned c lits = elim (Bool-cases (need_normalization c lits)) [
    | inl t ↦ rw t (update_each-IsRetuned e.divide_1e6 c (var_ids c) (λ i m. m))
    | inr f ↦ rw f (IsRetuned-refl c)
  ]

  Retunes-after : (a b : Context) (r : Result Context) → IsRetuned a b → Retunes b r → Retunes a r
  Retunes-after a b (ok c) h k = (
    IsRetuned-trans a b c h k.0,
    λ z. k.1 (ap (λ f. to_size f.decay_interval) h.carried.config ∙ z),
  )
  Retunes-after a b (err x) h k =
      (k.0, ap (λ f. to_size f.decay_interval) (sym h.carried.config) ∙ k.1)

  decayed-Retunes : (c : Context) → Retunes c (decayed c)
  unfolding decayed
  decayed-Retunes c = elim (Bool-cases (to_size c.config.decay_interval == 0)) [
    | inl z ↦ rw z (refl, (==_iff (to_size c.config.decay_interval) 0).0 z)
    | inr n ↦
        let nonzero : to_size c.config.decay_interval ≢ 0 =
          λ z. true≢false (sym ((==_iff (to_size c.config.decay_interval) 0).1 z) ∙ n) in
        rw n (elim (Bool-cases (c.statistics.conflicts % to_size c.config.decay_interval == 0)) [
          | inl t ↦ rw t (update_each-IsRetuned _ c (var_ids c) (λ i m. m), nonzero)
          | inr f ↦ rw f (IsRetuned-refl c, nonzero)
        ])
  ]

  -- If the clause names variables of the context, the update of the activities divides by zero
  -- exactly where the decay interval is 0 as a size_t, and otherwise changes no assignment,
  -- level or reason, nor the clauses, the trail and the level of the context.
  pub update_vsids_activity-Retunes :
      (c : Context) (l : Clause)
      → All (λ p. In p.1 (var_ids c)) l.vars
      → Retunes c (update_vsids_activity c l)
  unfolding update_vsids_activity increased
  update_vsids_activity-Retunes c l h =
      let c1 = normalized c l.vars in
      let h1 = normalized-IsRetuned c l.vars in
      let c2 = increased c1 l.vars in
      let h2 : IsRetuned c1 c2 =
        update_each-IsRetuned _ c1 (map (λ (p : Entry). p.1) l.vars)
          (λ i m. subst (In i) (sym h1.ids) (In-ids c l.vars h i m)) in
      Retunes-after c c1 _ h1 (Retunes-after c1 c2 _ h2 (decayed-Retunes c2))

module _ ⦃e : Env⦄ (canon : ℕ → ℕ) where
  pub IsRetuned-IsValid : (c c' : Context) → IsRetuned c c' → IsValid canon c → IsValid canon c'
  IsRetuned-IsValid c c' h v =
      let ext : Extends c c' = record {
        ids = h.ids;
        kept = λ d m. subst (λ s. In d (e.clauses.ids s)) (sym h.clauses) m;
        lits = λ d m. ap (λ s. (e.clauses.at s d).clause.vars) h.clauses;
      } in
      IsValid-frame canon c c' ext (λ i m. h.agree i) h.trail h.level
        (entries-frame canon c c' ext (ap e.clauses.ids h.clauses) (λ i m. (h.agree i).literal) v) v
