-- ===== src/Sat/Invariant/Frame.antt =====
-- The invariant depends on the clauses and on the variables, not on their activities.
use fabko.Base.{
  ℕ, true, false, ◌≤◌, ◌≡◌, refl, sym, ap, ◌∙◌, subst, inl, inr, List, [], ◌∷◌, Option, none, some,
  In, All, All-imp, arith,
}
use fabko.Sat.Types.{
  Env, Context, Entry, Variable, var_at, lits_at, var_ids, clause_ids, level_at, reason_at,
}
use fabko.Sat.Literal.{value, is_unassigned}
use fabko.Sat.Clauses.{lit_true, lit_false}
use fabko.Sat.Invariant.{Agree, Forces, IsEntry, IsReason, IsTrail, IsValid}

pub Agree-refl : (v : Variable) → Agree v v
Agree-refl v = record { literal = refl; assignment = refl; level = refl; reason = refl }

pub Agree-of_eq : (v w : Variable) → w ≡ v → Agree v w
Agree-of_eq v w h = subst (Agree v) (sym h) (Agree-refl v)

pub Agree-trans : (u v w : Variable) → Agree u v → Agree v w → Agree u w
Agree-trans u v w h k = record {
  literal = k.literal ∙ h.literal;
  assignment = k.assignment ∙ h.assignment;
  level = k.level ∙ h.level;
  reason = k.reason ∙ h.reason;
}

module _ ⦃e : Env⦄ where
  -- The second context has the variables and the clauses of the first, and maybe more clauses.
  pub record Extends (c c' : Context) : Type 0 where
    pub ids : var_ids c' ≡ var_ids c
    pub kept : (d : ℕ) → In d (clause_ids c) → In d (clause_ids c')
    pub lits : (d : ℕ) → In d (clause_ids c) → lits_at c' d ≡ lits_at c d

module _ ⦃e : Env⦄ (canon : ℕ → ℕ) where
  pub IsTrail-mono :
      (c : Context) (n m : ℕ) (t : List ℕ) → n ≤ m → IsTrail canon c n t → IsTrail canon c m t
  IsTrail-mono c n m [] le h = tt
  IsTrail-mono c n m (x ∷ t) le h = (h.0, omega arith, h.2, h.3, h.4, h.5)

module _ ⦃e : Env⦄ (canon : ℕ → ℕ) (c c' : Context) (ext : Extends c c') where
  Forces-frame :
      (x : ℕ) (rest : List ℕ)
      → ((i : ℕ) → In i (x ∷ rest) → Agree (var_at c i) (var_at c' i))
      → (p : Entry) → Forces c x rest p
      → Forces c' x rest p
  Forces-frame x rest same p (inl (h, t)) =
      inl (h, subst (λ a. lit_true p.0 a ≡ true) (sym (same x (inl refl)).assignment) t)
  Forces-frame x rest same p (inr (h, i)) =
      inr (subst (λ a. lit_false p.0 a ≡ true) (sym (same p.1 (inr i)).assignment) h, i)

  IsReason-frame :
      (x : ℕ) (rest : List ℕ)
      → ((i : ℕ) → In i (x ∷ rest) → Agree (var_at c i) (var_at c' i))
      → (r : Option ℕ) → IsReason canon c x rest r
      → IsReason canon c' x rest r
  IsReason-frame x rest same none h = (
    omega (arith, (same x (inl refl)).level, h.0),
    λ y m. omega (arith, (same x (inl refl)).level, (same y (inr m)).level, h.1 y m),
  )
  IsReason-frame x rest same (some d) (hd, hc, hf) = (
    ext.kept d hd,
    hc ∙ ap (λ l. canon (value l)) (sym (same x (inl refl)).literal),
    subst (All (Forces c' x rest)) (sym (ext.lits d hd))
        (All-imp (lits_at c d) (Forces-frame x rest same) hf),
  )

  -- A trail is one of the second context too, if its variables agree.
  pub IsTrail-frame :
      (n : ℕ) (t : List ℕ)
      → ((i : ℕ) → In i t → Agree (var_at c i) (var_at c' i))
      → IsTrail canon c n t
      → IsTrail canon c' n t
  IsTrail-frame n [] same h = tt
  IsTrail-frame n (x ∷ rest) same (hx, hl, hn, ha, hr, ht) =
      let here = same x (inl refl) in
      (
        subst (In x) (sym ext.ids) hx,
        omega (arith, here.level),
        hn,
        subst (λ a. is_unassigned a ≡ false) (sym here.assignment) ha,
        subst (IsReason canon c' x rest) (sym here.reason)
            (IsReason-frame x rest same (reason_at c x) hr),
        subst (λ k. IsTrail canon c' k rest) (sym here.level)
            (IsTrail-frame (level_at c x) rest (λ i h. same i (inr h)) ht),
      )

  pub IsEntry-frame :
      ((i : ℕ) → In i (var_ids c) → (var_at c' i).literal ≡ (var_at c i).literal)
      → (p : Entry) → IsEntry canon c p
      → IsEntry canon c' p
  IsEntry-frame same p h = record {
    known = subst (In p.1) (sym ext.ids) h.known;
    canonical = h.canonical;
    named = h.named ∙ ap value (sym (same p.1 h.known));
    nonzero = h.nonzero;
  }

module _ ⦃e : Env⦄ (canon : ℕ → ℕ) where
  -- The trail holds variables of the context.
  pub known_of_trail :
      (c : Context) (n : ℕ) (t : List ℕ) → IsTrail canon c n t → (i : ℕ) → In i t → In i (var_ids c)
  known_of_trail c n [] h i m = absurd m
  known_of_trail c n (x ∷ rest) h i (inl q) = subst (λ k. In k (var_ids c)) q h.0
  known_of_trail c n (x ∷ rest) h i (inr m) = known_of_trail c (level_at c x) rest h.5 i m

  -- Nothing on the trail is above the level that it starts from.
  pub trail_level :
      (c : Context) (n : ℕ) (t : List ℕ) → IsTrail canon c n t → (i : ℕ) → In i t → level_at c i ≤ n
  trail_level c n [] h i m = absurd m
  trail_level c n (x ∷ rest) h i (inl q) = omega (arith, h.1, ap (level_at c) q)
  trail_level c n (x ∷ rest) h i (inr m) =
      omega (arith, h.1, trail_level c (level_at c x) rest h.5 i m)

  -- A step that leaves the trail alone keeps the invariant.
  pub IsValid-frame :
      (c c' : Context)
      → Extends c c'
      → ((i : ℕ) → In i (var_ids c) → Agree (var_at c i) (var_at c' i))
      → c'.trail ≡ c.trail
      → c'.level ≡ c.level
      → ((d : ℕ) → In d (clause_ids c') → All (IsEntry canon c') (lits_at c' d))
      → IsValid canon c
      → IsValid canon c'
  IsValid-frame c c' ext same et el ents v = record {
    entries = ents;
    ordered =
        subst (λ t. IsTrail canon c' c'.level t) (sym et)
          (subst (λ n. IsTrail canon c' n c.trail) (sym el)
            (IsTrail-frame canon c c' ext c.level c.trail
              (λ i m. same i (known_of_trail c c.level c.trail v.ordered i m)) v.ordered));
    complete = λ i m a. subst (In i) (sym et) (
        v.complete i (subst (In i) ext.ids m)
          (subst (λ x. is_unassigned x ≡ false) (same i (subst (In i) ext.ids m)).assignment a));
    no_reason = λ i m a.
        (same i (subst (In i) ext.ids m)).reason
        ∙ v.no_reason i (subst (In i) ext.ids m)
            (subst (λ x. is_unassigned x ≡ true) (same i (subst (In i) ext.ids m)).assignment a);
  }

  -- The clauses of a context whose clauses are those of a valid one.
  pub entries-frame :
      (c c' : Context)
      → Extends c c'
      → clause_ids c' ≡ clause_ids c
      → ((i : ℕ) → In i (var_ids c) → (var_at c' i).literal ≡ (var_at c i).literal)
      → IsValid canon c
      → (d : ℕ) → In d (clause_ids c')
      → All (IsEntry canon c') (lits_at c' d)
  entries-frame c c' ext ed same v d m =
      let m' = subst (In d) ed m in
      subst (All (IsEntry canon c')) (sym (ext.lits d m'))
        (All-imp (lits_at c d) (IsEntry-frame canon c c' ext same) (v.entries d m'))

  -- The counters and the configuration play no part.
  pub IsValid-same :
      (c c' : Context)
      → c'.vars ≡ c.vars
      → c'.clauses ≡ c.clauses
      → c'.trail ≡ c.trail
      → c'.level ≡ c.level
      → IsValid canon c
      → IsValid canon c'
  IsValid-same c c' ev ec et el v =
      let same : (i : ℕ) → In i (var_ids c) → Agree (var_at c i) (var_at c' i) =
        λ i m. Agree-of_eq (var_at c i) (var_at c' i) (ap (λ s. e.vars.at s i) ev) in
      let ext : Extends c c' = record {
        ids = ap e.vars.ids ev;
        kept = λ d m. subst (λ s. In d (e.clauses.ids s)) (sym ec) m;
        lits = λ d m. ap (λ s. (e.clauses.at s d).clause.vars) ec;
      } in
      IsValid-frame c c' ext same et el
        (entries-frame c c' ext (ap e.clauses.ids ec) (λ i m. (same i m).literal) v) v
