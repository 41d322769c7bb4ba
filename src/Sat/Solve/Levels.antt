-- ===== src/Sat/Solve/Levels.antt =====
-- What the levels of a context remember, and the steps that leave it as it was.
use fabko.Base.{
  ℕ, ◌≤◌, ◌<◌, true, false, ◌≡◌, ◌≢◌, ◌⊎◌, sym, ap, subst, inl, inr, List, map, In, All, All-In,
  Bool-cases, arith,
}
use fabko.Sat.Literal.{is_unassigned}
use fabko.Sat.Types.{
  Env, Context, Entry, var_at, lits_at, var_ids, clause_ids, assignment_at, level_at,
}
use fabko.Sat.Clauses.{lit_true}
use fabko.Sat.Clauses.Laws.{true_assigned}
use fabko.Sat.Invariant.{Agree}
use fabko.Sat.Invariant.Frame.{Agree-of_eq}
use fabko.Sat.Propagate.Assign.{Keeps}
use fabko.Sat.Vsids.Valid.{IsRetuned}

abbrev pub ids_of : List Entry → List ℕ
ids_of = map (λ (p : Entry). p.1)

module _ ⦃e : Env⦄ where
  -- Not assigned below the level.
  abbrev pub NotBelow : Context → ℕ → ℕ → Type 0
  NotBelow c l i = is_unassigned (assignment_at c i) ≡ false → l ≤ level_at c i

  -- Below the level a literal of the clause is true.
  abbrev pub IsClosed : Context → ℕ → List Entry → Type 0
  IsClosed c l ls =
      (p : Entry) × In p ls × (lit_true p.0 (assignment_at c p.1) ≡ true) × (level_at c p.1 < l)

  -- Below the level two variables of the clause are free.
  abbrev pub IsOpen : Context → ℕ → List Entry → Type 0
  IsOpen c l ls =
      (p : Entry) × (q : Entry) × In p ls
      × In q ls
      × (p.1 ≢ q.1)
      × NotBelow c l p.1
      × NotBelow c l q.1

  -- At each level that was begun, each clause was satisfied or had two variables free.
  abbrev pub IsHistory : Context → Type 0
  IsHistory c =
      (l d : ℕ)
      → 0 < l
      → l ≤ c.level
      → In d (clause_ids c)
      → IsClosed c l (lits_at c d) ⊎ IsOpen c l (lits_at c d)

  -- What is assigned below the level stays, and nothing else comes below it.
  pub record Steady (l : ℕ) (c c' : Context) : Type 0 where
    pub down :
        (i : ℕ)
        → is_unassigned (assignment_at c i) ≡ false
        → level_at c i < l
        → Agree (var_at c i) (var_at c' i)
    pub up : (i : ℕ) → In i (var_ids c) → NotBelow c l i → NotBelow c' l i

  pub Steady-transfer :
      (l : ℕ) (c c' : Context) (ls : List Entry)
      → Steady l c c'
      → All (λ p. In p.1 (var_ids c)) ls
      → IsClosed c l ls ⊎ IsOpen c l ls
      → IsClosed c' l ls ⊎ IsOpen c' l ls
  Steady-transfer l c c' ls s k (inl (p, m, t, lt)) =
      let a = s.down p.1 (true_assigned p.0 (assignment_at c p.1) t) lt in
      inl
        (p, m, subst (λ x. lit_true p.0 x ≡ true) (sym a.assignment) t, omega (arith, a.level, lt))
  Steady-transfer l c c' ls s k (inr (p, q, m, n, ne, hp, hq)) = inr (
    p,
    q,
    m,
    n,
    ne,
    s.up p.1 (All-In (λ (r : Entry). In r.1 (var_ids c)) ls k p m) hp,
    s.up q.1 (All-In (λ (r : Entry). In r.1 (var_ids c)) ls k q n) hq,
  )

  -- The clauses name variables of the context.
  abbrev pub IsKnown : Context → Type 0
  IsKnown c = (d : ℕ) → In d (clause_ids c) → All (λ p. In p.1 (var_ids c)) (lits_at c d)

  -- A step that keeps the clauses and does not raise the level.
  IsHistory-Steady :
      (c c' : Context)
      → c'.clauses ≡ c.clauses
      → c'.level ≤ c.level
      → IsKnown c
      → ((l : ℕ) → 0 < l → l ≤ c'.level → Steady l c c')
      → IsHistory c
      → IsHistory c'
  IsHistory-Steady c c' ec le k s h l d pos lt m =
      subst
        (λ t.
          IsClosed c' l (e.clauses.at t d).clause.vars ⊎ IsOpen c' l (e.clauses.at t d).clause.vars)
        (sym ec)
        (Steady-transfer l c c' (lits_at c d) (s l pos lt)
          (k d (subst (λ t. In d (e.clauses.ids t)) ec m))
          (h l d pos (omega (arith, lt, le)) (subst (λ t. In d (e.clauses.ids t)) ec m)))

  Keeps-Steady : (l : ℕ) (c c' : Context) → Keeps c c' → l ≤ c.level → Steady l c c'
  Keeps-Steady l c c' k le = record {
    down = λ i a lt. Agree-of_eq (var_at c i) (var_at c' i) (k.old i a);
    up = λ i kn n a. elim (Bool-cases (is_unassigned (assignment_at c i))) [
      | inl u ↦ omega (arith, le, k.new i u a)
      | inr b ↦ omega (arith, n b, ap (λ v. v.context.decision_level) (k.old i b))
    ];
  }

  pub Keeps-IsHistory : (c c' : Context) → Keeps c c' → IsKnown c → IsHistory c → IsHistory c'
  Keeps-IsHistory c c' k kn =
      IsHistory-Steady c c' k.clauses (omega (arith, k.level)) kn
        (λ l pos le. Keeps-Steady l c c' k (omega (arith, le, k.level)))

  pub IsRetuned-Steady : (l : ℕ) (c c' : Context) → IsRetuned c c' → Steady l c c'
  IsRetuned-Steady l c c' r = record {
    down = λ i a lt. r.agree i;
    up = λ i kn n a. omega (
      arith,
      (r.agree i).level,
      n (subst (λ x. is_unassigned x ≡ false) (r.agree i).assignment a),
    );
  }

  -- At level 0 nothing was begun.
  pub IsHistory-zero : (c : Context) → c.level ≡ 0 → IsHistory c
  IsHistory-zero c z l d pos le m = absurd (omega (arith, z, pos, le))
