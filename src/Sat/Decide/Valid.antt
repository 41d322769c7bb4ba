-- ===== src/Sat/Decide/Valid.antt =====
-- A decision keeps the invariant: it puts one unassigned variable on the trail, above level 0.
use fabko.Base.{
  ℕ, ◌+◌, Bool, true, false, if◌then◌else◌, ltb_ℤ, ◌≡◌, ◌≢◌, refl, sym, ap, subst, inl, inr, List,
  [], ◌∷◌, none, some, In, keep-In, none≢some, true≢false, eq_cases, ◌∙◌, arith,
}
use fabko.Sat.Literal.{is_unassigned}
use fabko.Sat.Types.{Env, Context, var_at, var_ids, assignment_at, level_at}
use fabko.Sat.Decide.{unassigned_vars, highest_vsids, decided, decide, decide_among, make_decision}
use fabko.Sat.Invariant.{IsReason, IsValid}
use fabko.Sat.Invariant.Frame.{trail_level}
use fabko.Sat.Invariant.Assign.{Assigns, Assigns-IsValid, not_on_trail, at-put_self, at-put_ne}
use fabko.Sat.Invariant.Carried.{Carries, Carries-put}

module _ ⦃e : Env⦄ where
  -- Where nothing is left to decide, no variable is free.
  pub none_free : (c : Context) → make_decision c ≡ none → unassigned_vars c ≡ []
  unfolding make_decision decide_among
  none_free c h = go (unassigned_vars c) h
    where
      go : (is : List ℕ) → decide_among c is ≡ none → is ≡ []
      go [] q = refl
      go (i ∷ is) q = cc

  pick-In :
      (b : Bool) (h best i : ℕ) (is : List ℕ)
      → In h ((if b then i else best) ∷ is)
      → In h (best ∷ i ∷ is)
  pick-In true h best i is m = inr m
  pick-In false h best i is (inl q) = inl q
  pick-In false h best i is (inr m) = inr (inr m)

  highest_vsids-In :
      (c : Context) (best : ℕ) (is : List ℕ) → In (highest_vsids c best is) (best ∷ is)
  unfolding highest_vsids
  highest_vsids-In c best [] = inl refl
  highest_vsids-In c best (i ∷ is) =
      let b = ltb_ℤ (var_at c best).context.vsids_activity (var_at c i).context.vsids_activity in
      pick-In b _ best i is (highest_vsids-In c (if b then i else best) is)

module _ ⦃e : Env⦄ (canon : ℕ → ℕ) where
  decide-Assigns :
      (c : Context) (i : ℕ)
      → In i (var_ids c)
      → Assigns c (decide c i) i (decided (var_at c i) (c.level + 1))
  unfolding decide
  decide-Assigns c i m = record {
    ids = e.vars.ids-put c.vars i _;
    same_clauses = refl;
    trail = refl;
    new = at-put_self c i _ m;
    old = λ j n. at-put_ne c i j _ m n;
  }

  decide-IsValid :
      (c : Context) (i : ℕ)
      → IsValid canon c
      → In i (var_ids c)
      → is_unassigned (assignment_at c i) ≡ true
      → IsValid canon (decide c i)
  unfolding decide decided
  decide-IsValid c i v m u =
      let a = decide-Assigns c i m in
      Assigns-IsValid canon c (decide c i) i _ a (c.level + 1) v m u refl refl refl refl
        (omega arith)
        (subst (IsReason canon (decide c i) i c.trail) (sym (v.no_reason i m u)) (
          omega (arith, ap (λ w. w.context.decision_level) a.new),
          λ y k. omega (
            arith,
            ap (λ w. w.context.decision_level) a.new,
            trail_level canon c c.level c.trail v.ordered y k,
            ap (λ w. w.context.decision_level) (a.old y (other y k a)),
          ),
        ))
    where
      other :
          (y : ℕ)
          → In y c.trail
          → Assigns c (decide c i) i (decided (var_at c i) (c.level + 1))
          → i ≢ y
      other y k a q =
          not_on_trail canon c (decide c i) i _ a v u (subst (λ j. In j c.trail) (sym q) k)

  -- What a successful decision gives.
  pub record IsDecision (c c' : Context) : Type 0 where
    pub valid : IsValid canon c'
    pub ids : var_ids c' ≡ var_ids c
    pub clauses : c'.clauses ≡ c.clauses
    pub level : c'.level ≡ c.level + 1
    -- The variable that is decided has the new level; the others are as they were.
    pub old : (i : ℕ) → is_unassigned (assignment_at c i) ≡ false → var_at c' i ≡ var_at c i
    pub new :
        (i : ℕ)
        → is_unassigned (assignment_at c i) ≡ true
        → is_unassigned (assignment_at c' i) ≡ false
        → level_at c' i ≡ c.level + 1
    -- One variable that was free is not.
    pub decides :
        (i : ℕ) × In i (var_ids c)
        × (is_unassigned (assignment_at c i) ≡ true)
        × (is_unassigned (assignment_at c' i) ≡ false)
    pub carried : Carries c c'

  decide-IsDecision :
      (c : Context) (i : ℕ)
      → IsValid canon c
      → In i (var_ids c)
      → is_unassigned (assignment_at c i) ≡ true
      → IsDecision c (decide c i)
  unfolding decide decided
  decide-IsDecision c i v m u =
      let a = decide-Assigns c i m in
      record {
        valid = decide-IsValid c i v m u;
        ids = a.ids;
        clauses = refl;
        level = refl;
        old = λ j z.
            a.old j (λ w. true≢false (sym u ∙ ap (λ k. is_unassigned (assignment_at c k)) w ∙ z));
        new = λ j z w. elim (eq_cases i j) [
          | inl y ↦
              subst (λ k. level_at (decide c i) k ≡ c.level + 1) y
                (ap (λ x. x.context.decision_level) a.new)
          | inr n ↦
              absurd
                (true≢false (sym z ∙ sym (ap (λ x. is_unassigned x.assignment) (a.old j n)) ∙ w))
        ];
        decides = (i, m, u, ap (λ x. is_unassigned x.assignment) a.new);
        carried = Carries-put c (decide c i) i _ m refl refl refl refl;
      }

  decide_among-IsDecision :
      (c c' : Context) (free : List ℕ)
      → IsValid canon c
      → ((i : ℕ) → In i free → In i (var_ids c) × (is_unassigned (assignment_at c i) ≡ true))
      → decide_among c free ≡ some c'
      → IsDecision c c'
  unfolding decide_among
  decide_among-IsDecision c c' [] v h q = absurd (none≢some q)
  decide_among-IsDecision c c' (i ∷ is) v h q =
      let best = highest_vsids c i is in
      let f = h best (highest_vsids-In c i is) in
      let q' : decide c best ≡ c' = cc in
      subst (IsDecision c) q' (decide-IsDecision c best v f.0 f.1)

  -- A decision that succeeds on a valid context gives a valid context with the same variables
  -- and clauses, one level higher, in which the rows of assigned variables are as they were and
  -- what is newly assigned has the new level.
  pub make_decision-IsDecision :
      (c c' : Context) → IsValid canon c → make_decision c ≡ some c' → IsDecision c c'
  unfolding make_decision unassigned_vars
  make_decision-IsDecision c c' v q =
      decide_among-IsDecision c c' (unassigned_vars c) v
        (λ i m. keep-In (λ j. is_unassigned (assignment_at c j)) (var_ids c) i m) q
