-- ===== src/Sat/Propagate/Assign.antt =====
-- The assignment of the one literal that is left of a clause keeps the invariant.
use fabko.Base.{
  true≢false, ℕ, true, false, ◌≡◌, ◌≢◌, refl, sym, ap, ◌∙◌, subst, inl, inr, ◌⊎◌, List, [], ◌∷◌,
  some, In, In-keep, keep-In, any-false, All, All-of_In, All-In, Bool-cases, arith, eq_cases,
}
use fabko.Sat.Literal.{value, is_on, is_unassigned}
use fabko.Sat.Types.{
  Env, Context, Entry, var_at, lits_at, var_ids, clause_ids, assignment_at, level_at,
}
use fabko.Sat.Clauses.{lit_true, lit_false, is_clause_satisfied, unassigned}
use fabko.Sat.Clauses.Laws.{lit_decided, lit_set, set_assigned, false_assigned}
use fabko.Sat.Propagate.{Pass, propagated, assign}
use fabko.Sat.Invariant.{IsFalse, Forces, IsEntry, IsValid}
use fabko.Sat.Invariant.Assign.{Assigns, Assigns-IsValid, at-put_self, at-put_ne}
use fabko.Sat.Invariant.Carried.{Carries, Carries-refl, Carries-trans, Carries-put}

module _ ⦃e : Env⦄ where
  -- The context has the variables, the clauses and the level of the first.
  pub record Keeps (c0 c : Context) : Type 0 where
    pub ids : var_ids c ≡ var_ids c0
    pub clauses : c.clauses ≡ c0.clauses
    pub level : c.level ≡ c0.level
    -- A variable that was assigned has the row that it had, and another one that is assigned now has
    -- the current level.
    pub old : (i : ℕ) → is_unassigned (assignment_at c0 i) ≡ false → var_at c i ≡ var_at c0 i
    pub new :
        (i : ℕ)
        → is_unassigned (assignment_at c0 i) ≡ true
        → is_unassigned (assignment_at c i) ≡ false
        → level_at c i ≡ c0.level
    pub carried : Carries c0 c

  pub Keeps-refl : (c : Context) → Keeps c c
  Keeps-refl c = record {
    ids = refl;
    clauses = refl;
    level = refl;
    old = λ i h. refl;
    new = λ i h k. absurd (true≢false (sym h ∙ k));
    carried = Carries-refl c;
  }

  pub Keeps-trans : (a b c : Context) → Keeps a b → Keeps b c → Keeps a c
  Keeps-trans a b c h k = record {
    ids = k.ids ∙ h.ids;
    clauses = k.clauses ∙ h.clauses;
    level = k.level ∙ h.level;
    old = λ i z. k.old i (ap (λ v. is_unassigned v.assignment) (h.old i z) ∙ z) ∙ h.old i z;
    new = λ i z w. elim (Bool-cases (is_unassigned (assignment_at b i))) [
      | inl u ↦ k.new i u w ∙ h.level
      | inr a ↦ ap (λ v. v.context.decision_level) (k.old i a) ∙ h.new i z a
    ];
    carried = Carries-trans a b c h.carried k.carried;
  }

  -- The clause is one of the context, and each of its literals is false.
  pub record IsConflict (c : Context) (d : ℕ) : Type 0 where
    pub known : In d (clause_ids c)
    pub falsified : All (IsFalse c) (lits_at c d)

module _ ⦃e : Env⦄ (canon : ℕ → ℕ) where
  pub record IsPass (c0 : Context) (p : Pass) : Type 0 where
    pub valid : IsValid canon p.ctx
    pub keeps : Keeps c0 p.ctx
    pub conflicting : (d : ℕ) → p.conflict ≡ some d → IsConflict p.ctx d

  -- What is known of a literal of a clause that is not satisfied.
  abbrev pub Rest : Context → List Entry → Entry → Type 0
  Rest c free p = In p free ⊎ IsFalse c p

  pub unsatisfied-Rest :
      (c : Context) (d : ℕ)
      → IsValid canon c
      → In d (clause_ids c)
      → is_clause_satisfied c (e.clauses.at c.clauses d).clause ≡ false
      → (p : Entry) → In p (lits_at c d)
      → Rest c (unassigned c (e.clauses.at c.clauses d).clause) p
  unfolding is_clause_satisfied unassigned
  unsatisfied-Rest c d v m h p i =
      let entry = All-In (IsEntry canon c) (lits_at c d) (v.entries d m) p i in
      elim (Bool-cases (is_unassigned (assignment_at c p.1))) [
        | inl u ↦ inl (In-keep _ (lits_at c d) p i u)
        | inr a ↦ inr (
            lit_decided p.0 (assignment_at c p.1) entry.nonzero a
              (any-false (λ q. lit_true q.0 (assignment_at c q.1)) (lits_at c d) h p i))
      ]

  assign-Assigns :
      (c : Context) (d : ℕ) (q : Entry)
      → In q.1 (var_ids c)
      → Assigns c (assign c d q) q.1 (propagated c d q.0 (var_at c q.1))
  unfolding assign
  assign-Assigns c d q m = record {
    ids = e.vars.ids-put c.vars q.1 _;
    same_clauses = refl;
    trail = refl;
    new = at-put_self c q.1 _ m;
    old = λ j n. at-put_ne c q.1 j _ m n;
  }

  pub assign-Keeps :
      (c : Context) (d : ℕ) (q : Entry)
      → In q.1 (var_ids c)
      → is_unassigned (assignment_at c q.1) ≡ true
      → Keeps c (assign c d q)
  unfolding assign propagated
  assign-Keeps c d q m u =
      let a = assign-Assigns c d q m in
      record {
        ids = a.ids;
        clauses = refl;
        level = refl;
        old = λ i z.
            a.old i (λ w. true≢false (sym u ∙ ap (λ k. is_unassigned (assignment_at c k)) w ∙ z));
        new = λ i z w. elim (eq_cases q.1 i) [
          | inl y ↦
              subst (λ k. level_at (assign c d q) k ≡ c.level) y
                (ap (λ v. v.context.decision_level) a.new)
          | inr n ↦
              absurd
                (true≢false (sym z ∙ sym (ap (λ v. is_unassigned v.assignment) (a.old i n)) ∙ w))
        ];
        carried = Carries-put c (assign c d q) q.1 _ m refl refl refl refl;
      }

  -- Assigning the one literal that is left keeps the invariant.
  pub assign-IsValid :
      (c : Context) (d : ℕ) (q : Entry)
      → IsValid canon c
      → In d (clause_ids c)
      → In q (lits_at c d)
      → is_unassigned (assignment_at c q.1) ≡ true
      → ((p : Entry) → In p (lits_at c d) → Rest c (q ∷ []) p)
      → IsValid canon (assign c d q)
  unfolding assign propagated
  assign-IsValid c d q v m i u rest =
      let entry = All-In (IsEntry canon c) (lits_at c d) (v.entries d m) q i in
      let a = assign-Assigns c d q entry.known in
      Assigns-IsValid canon c (assign c d q) q.1 _ a c.level v entry.known u
        (set_assigned (is_on q.0)) refl refl refl (omega arith)
        (
          m,
          entry.canonical ∙ ap canon (entry.named ∙ ap (λ w. value w.literal) (sym a.new)),
          All-of_In (Forces (assign c d q) q.1 c.trail) (lits_at c d)
              (λ p j. forced p j a entry (rest p j)),
        )
    where
      forced :
          (p : Entry)
          → In p (lits_at c d)
          → Assigns c (assign c d q) q.1 (propagated c d q.0 (var_at c q.1))
          → IsEntry canon c q
          → Rest c (q ∷ []) p
          → Forces (assign c d q) q.1 c.trail p
      forced p j a entry (inl (inl eq)) = inl (
        ap (λ (r : Entry). r.1) (sym eq),
        subst (λ (r : Entry). lit_true r.0 (assignment_at (assign c d q) q.1) ≡ true) eq
            (ap (λ w. lit_true q.0 w.assignment) a.new ∙ lit_set q.0 entry.nonzero),
      )
      forced p j a entry (inl (inr z)) = absurd z
      forced p j a entry (inr f) =
          let old = All-In (IsEntry canon c) (lits_at c d) (v.entries d m) p j in
          let b = false_assigned p.0 (assignment_at c p.1) f in
          let n : q.1 ≢ p.1 =
            λ eq. true≢false (sym u ∙ ap (λ k. is_unassigned (assignment_at c k)) eq ∙ b) in
          inr (
            subst (λ w. lit_false p.0 w.assignment ≡ true) (sym (a.old p.1 n)) f,
            v.complete p.1 old.known b,
          )

  -- Each literal of a falsified clause is false, where none is free.
  pub All-IsFalse :
      (c : Context) (d : ℕ)
      → ((p : Entry) → In p (lits_at c d) → Rest c [] p)
      → All (IsFalse c) (lits_at c d)
  All-IsFalse c d rest =
      All-of_In (IsFalse c) (lits_at c d) λ p i. elim (rest p i) [ inl z ↦ absurd z | inr f ↦ f ]

  pub free_known :
      (c : Context) (d : ℕ) (q : Entry) (qs : List Entry)
      → unassigned c (e.clauses.at c.clauses d).clause ≡ q ∷ qs
      → In q (lits_at c d) × (is_unassigned (assignment_at c q.1) ≡ true)
  unfolding unassigned
  free_known c d q qs h =
      keep-In (λ p. is_unassigned (assignment_at c p.1)) (lits_at c d) q
        (subst (In q) (sym h) (inl refl))
