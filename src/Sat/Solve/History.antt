-- ===== src/Sat/Solve/History.antt =====
-- What the levels of a context remember: when a level was begun, no clause had a single literal left.
-- Propagation, decisions and backtracking keep this, and so a clause that is learned is a new one.
use fabko.Base.{
  ℕ, ◌+◌, ◌≤◌, ◌<◌, true, ◌≡◌, ◌≢◌, ◌⊎◌, refl, sym, ◌∙◌, ap, subst, inl, inr, List, [], ◌∷◌, length,
  suc, Bool, leb, In-first, All-imp, In, In-map, keep, keep-In, any_elim, All, All-In, Distinct,
  Bool-cases, true≢false, arith,
}
use fabko.Sat.Literal.{is_unassigned}
use fabko.Sat.Types.{
  Env, Context, Entry, var_at, lits_at, var_ids, clause_ids, assignment_at, level_at,
}
use fabko.Sat.Clauses.{lit_true, is_clause_satisfied, unassigned}
use fabko.Sat.Clauses.Laws.{true_assigned}
use fabko.Sat.Invariant.{IsValid}
use fabko.Sat.Invariant.Frame.{trail_level, Agree-of_eq}
use fabko.Sat.Propagate.Settling.{IsSettled}
use fabko.Sat.Decide.Valid.{IsDecision}
use fabko.Sat.Backtrack.Valid.{IsBacktracked}
use fabko.Sat.Solve.Levels.{ids_of, IsClosed, IsOpen, IsHistory, Steady, Steady-transfer, IsKnown}

-- Two elements that pass a test.
two_kept :
    (f : Entry → Bool) (ls : List Entry)
    → Distinct (ids_of ls)
    → 2 ≤ length (keep f ls)
    → (p : Entry) × (q : Entry) × In p ls × In q ls × (p.1 ≢ q.1) × (f p ≡ true) × (f q ≡ true)
two_kept f [] h le = absurd (omega (arith, le))
two_kept f (x ∷ xs) h le = elim (Bool-cases (f x)) [
  | inr n ↦
      let r : 2 ≤ length (keep f xs) = rw n at le in
      let (p, q, i, j, ne, t, u) = two_kept f xs h.1 r in (p, q, inr i, inr j, ne, t, u)
  | inl y ↦
      let r : 2 ≤ suc (length (keep f xs)) = rw y at le in
      let (q, j) = In-first (keep f xs) (omega (arith, r)) in
      let (k, t) = keep-In f xs q j in
      (
        x,
        q,
        inl refl,
        inr k,
        λ z. h.0 (subst (λ a. In a (ids_of xs)) (sym z) (In-map (λ (w : Entry). w.1) xs q k)),
        y,
        t,
      )
]

module _ ⦃e : Env⦄ (canon : ℕ → ℕ) where
  pub IsValid-IsKnown : (c : Context) → IsValid canon c → IsKnown c
  IsValid-IsKnown c v d m = All-imp (lits_at c d) (λ p h. h.known) (v.entries d m)

  decision-Steady :
      (c c' : Context) → IsDecision canon c c' → (l : ℕ) → l ≤ c.level + 1 → Steady l c c'
  decision-Steady c c' k l le = record {
    down = λ i a lt. Agree-of_eq (var_at c i) (var_at c' i) (k.old i a);
    up = λ i kn n a. elim (Bool-cases (is_unassigned (assignment_at c i))) [
      | inl u ↦ omega (arith, le, k.new i u a)
      | inr b ↦ omega (arith, n b, ap (λ v. v.context.decision_level) (k.old i b))
    ];
  }

  -- What propagation leaves of a clause is what the next level begins with.
  begun :
      (c : Context)
      → IsValid canon c
      → (l d : ℕ) → In d (clause_ids c)
      → c.level < l
      → Distinct (ids_of (lits_at c d))
      → IsSettled c d
      → IsClosed c l (lits_at c d) ⊎ IsOpen c l (lits_at c d)
  unfolding is_clause_satisfied unassigned
  begun c v l d m lt distinct (inl t) =
      let (p, i, y) = any_elim (λ q. lit_true q.0 (assignment_at c q.1)) (lits_at c d) t in
      let known =
        All-In (λ (r : Entry). In r.1 (var_ids c)) (lits_at c d) (IsValid-IsKnown c v d m) p i in
      inl (
        p,
        i,
        y,
        omega (
          arith,
          lt,
          trail_level canon c c.level c.trail v.ordered p.1
              (v.complete p.1 known (true_assigned p.0 (assignment_at c p.1) y)),
        ),
      )
  begun c v l d m lt distinct (inr two) =
      let (p, q, i, j, ne, t, u) =
        two_kept (λ r. is_unassigned (assignment_at c r.1)) (lits_at c d) distinct two in
      inr
        (p, q, i, j, ne, λ a. absurd (true≢false (sym t ∙ a)), λ a. absurd (true≢false (sym u ∙ a)))

  pub IsDecision-IsHistory :
      (c c' : Context)
      → IsValid canon c
      → IsDecision canon c c'
      → ((d : ℕ) → In d (clause_ids c) → Distinct (ids_of (lits_at c d)))
      → All (IsSettled c) (clause_ids c)
      → IsHistory c
      → IsHistory c'
  IsDecision-IsHistory c c' v k distinct settled h l d pos le m =
      let i : In d (clause_ids c) = subst (λ t. In d (e.clauses.ids t)) k.clauses m in
      subst
        (λ t.
          IsClosed c' l (e.clauses.at t d).clause.vars ⊎ IsOpen c' l (e.clauses.at t d).clause.vars)
        (sym k.clauses)
        (Steady-transfer l c c' (lits_at c d)
          (decision-Steady c c' k l (omega (arith, le, k.level))) (IsValid-IsKnown c v d i)
          (elim (Bool-cases (leb l c.level)) [
            | inl y ↦ h l d pos (ground arith) i
            | inr n ↦
                begun c v l d i (ground arith) (distinct d i)
                  (All-In (IsSettled c) (clause_ids c) settled d i)
          ]))

  -- Up to the level that is gone back to nothing changes.
  pub backtracked-Steady :
      (c c' : Context) (lvl : ℕ) → IsBacktracked canon c c' lvl → (l : ℕ) → l ≤ lvl → Steady l c c'
  backtracked-Steady c c' lvl b l le = record {
    down = λ i a lt. Agree-of_eq (var_at c i) (var_at c' i) (b.kept i (omega (arith, le, lt)));
    up = λ i kn n a.
        let low : level_at c' i ≤ c'.level =
          trail_level canon c' c'.level c'.trail b.valid.ordered i
            (b.valid.complete i (subst (In i) (sym b.ids) kn) a) in
        let row = b.kept i (omega (arith, low, b.level, b.levels i)) in
        omega (arith, b.levels i, n (ap (λ v. is_unassigned v.assignment) (sym row) ∙ a));
  }
