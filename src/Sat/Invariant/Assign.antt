-- ===== src/Sat/Invariant/Assign.antt =====
-- A new assignment keeps the invariant: that of a propagation, and that of a decision.
use fabko.Base.{
  ℕ, ◌≤◌, true, false, if◌then◌else◌, ==_refl, ==_ne, ◌≡◌, ◌≢◌, sym, ap, ◌∙◌, subst, inl, inr, List,
  [], ◌∷◌, In, eq_cases, arith,
}
use fabko.Sat.Literal.{is_unassigned}
use fabko.Sat.Types.{Env, Context, Variable, var_at, var_ids, assignment_at, level_at}
use fabko.Sat.Invariant.{IsReason, IsTrail, IsValid}
use fabko.Sat.Invariant.Frame.{Agree-of_eq, Extends, IsTrail-frame, IsTrail-mono, entries-frame}

module _ ⦃e : Env⦄ where
  -- Writing the row of one variable.
  pub at-put_self :
      (c : Context) (i : ℕ) (w : Variable)
      → In i (var_ids c)
      → e.vars.at (e.vars.put c.vars i w) i ≡ w
  at-put_self c i w m =
      e.vars.at-put c.vars i i w m ∙ ap (λ b. if b then w else var_at c i) (==_refl i)

  pub at-put_ne :
      (c : Context) (i j : ℕ) (w : Variable)
      → In i (var_ids c)
      → i ≢ j
      → e.vars.at (e.vars.put c.vars i w) j ≡ var_at c j
  at-put_ne c i j w m h =
      e.vars.at-put c.vars i j w m ∙ ap (λ b. if b then w else var_at c j) (==_ne i j h)

  -- A context that differs from a valid one in the row of one unassigned variable, now assigned and
  -- put on the trail.
  pub record Assigns (c c' : Context) (i : ℕ) (w : Variable) : Type 0 where
    pub ids : var_ids c' ≡ var_ids c
    pub same_clauses : c'.clauses ≡ c.clauses
    pub trail : c'.trail ≡ i ∷ c.trail
    pub new : var_at c' i ≡ w
    pub old : (j : ℕ) → i ≢ j → var_at c' j ≡ var_at c j

module _ ⦃e : Env⦄ (canon : ℕ → ℕ) where
  module _ (c c' : Context) (i : ℕ) (w : Variable) (a : Assigns c c' i w) where
    pub Assigns-Extends : Extends c c'
    Assigns-Extends = record {
      ids = a.ids;
      kept = λ d m. subst (λ s. In d (e.clauses.ids s)) (sym a.same_clauses) m;
      lits = λ d m. ap (λ s. (e.clauses.at s d).clause.vars) a.same_clauses;
    }

    literal_kept :
        w.literal ≡ (var_at c i).literal → (j : ℕ) → (var_at c' j).literal ≡ (var_at c j).literal
    literal_kept h j = elim (eq_cases i j) [
      | inl q ↦
          subst (λ k. (var_at c' k).literal ≡ (var_at c k).literal) q
            (ap (λ v. v.literal) a.new ∙ h)
      | inr n ↦ ap (λ v. v.literal) (a.old j n)
    ]

    pub not_on_trail : IsValid canon c → is_unassigned (assignment_at c i) ≡ true → ¬ In i c.trail
    not_on_trail v u m = go c.level c.trail v.ordered m
      where
        go : (n : ℕ) (t : List ℕ) → IsTrail canon c n t → ¬ In i t
        go n [] h m = m
        go n (x ∷ rest) h (inl q) =
            let z : is_unassigned (assignment_at c i) ≡ false =
              subst (λ k. is_unassigned (assignment_at c k) ≡ false) q h.3 in
            cc
        go n (x ∷ rest) h (inr m) = go (level_at c x) rest h.5 m

    -- The trail below the new variable.
    trail_below : IsValid canon c → ¬ In i c.trail → IsTrail canon c' c.level c.trail
    trail_below v n =
        IsTrail-frame canon c c' Assigns-Extends c.level c.trail
          (λ j m.
            Agree-of_eq (var_at c j) (var_at c' j)
              (a.old j (λ q. n (subst (λ k. In k c.trail) (sym q) m))))
          v.ordered

    pub Assigns-IsValid :
        (lvl : ℕ)
        → IsValid canon c
        → In i (var_ids c)
        → is_unassigned (assignment_at c i) ≡ true
        → is_unassigned w.assignment ≡ false
        → w.literal ≡ (var_at c i).literal
        → w.context.decision_level ≡ lvl
        → c'.level ≡ lvl
        → c.level ≤ lvl
        → IsReason canon c' i c.trail w.context.clause_propagation
        → IsValid canon c'
    Assigns-IsValid lvl v m u aw lw el el' le r =
        let n = not_on_trail v u in
        let below = trail_below v n in
        record {
          entries =
              entries-frame canon c c' Assigns-Extends (ap e.clauses.ids a.same_clauses)
                (λ j _. literal_kept lw j) v;
          ordered = subst (IsTrail canon c' c'.level) (sym a.trail) (
            subst (In i) (sym a.ids) m,
            omega (arith, ap (λ x. x.context.decision_level) a.new),
            n,
            ap (λ x. is_unassigned x.assignment) a.new ∙ aw,
            subst (IsReason canon c' i c.trail) (sym (ap (λ x. x.context.clause_propagation) a.new))
                r,
            IsTrail-mono canon c' c.level (level_at c' i) c.trail
                (omega (arith, ap (λ x. x.context.decision_level) a.new)) below,
          );
          complete = λ j mj aj. elim (eq_cases i j) [
            | inl q ↦ subst (In j) (sym a.trail) (inl q)
            | inr d ↦ subst (In j) (sym a.trail) (
                inr (
                  v.complete j (subst (In j) a.ids mj)
                    (ap (λ x. is_unassigned x.assignment) (sym (a.old j d)) ∙ aj)))
          ];
          no_reason = λ j mj aj. elim (eq_cases i j) [
            | inl q ↦
                let z : is_unassigned (assignment_at c' j) ≡ false =
                  subst (λ k. is_unassigned (assignment_at c' k) ≡ false) q
                    (ap (λ x. is_unassigned x.assignment) a.new ∙ aw) in
                cc
            | inr d ↦
                ap (λ x. x.context.clause_propagation) (a.old j d)
                ∙ v.no_reason j (subst (In j) a.ids mj)
                    (ap (λ x. is_unassigned x.assignment) (sym (a.old j d)) ∙ aj)
          ];
        }
