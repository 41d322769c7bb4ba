-- ===== src/Sat/Backtrack/Valid.antt =====
-- Backtracking keeps the invariant, and takes the context to the level that it is given.
use fabko.Base.{
  ℕ, ◌≤◌, ◌<◌, leb, ◌≡◌, ◌≢◌, refl, sym, ◌∙◌, ap, subst, inl, inr, List, [], ◌∷◌, none, In,
  Bool-cases, eq_cases, true≢false, arith,
}
use fabko.Sat.Literal.{is_unassigned}
use fabko.Sat.Types.{Env, Context, var_at, var_ids, assignment_at, level_at, reason_at}
use fabko.Sat.Backtrack.{unassign, pop, backtrack_loop, backtrack}
use fabko.Sat.Invariant.{IsTrail, IsValid}
use fabko.Sat.Invariant.Frame.{
  Extends, IsTrail-frame, IsTrail-mono, entries-frame, Agree-of_eq, Agree-refl,
}
use fabko.Sat.Invariant.Assign.{at-put_self, at-put_ne}
use fabko.Sat.Invariant.Carried.{Carries, Carries-trans, Carries-put}

module _ ⦃e : Env⦄ (canon : ℕ → ℕ) where
  -- A valid context with another level, if its trail fits it.
  with_trail :
      (c : Context) (lvl : ℕ) (t : List ℕ)
      → IsValid canon c
      → c.trail ≡ t
      → IsTrail canon c lvl t
      → IsValid canon (record c { level = lvl; trail = t })
  with_trail c lvl t v q h =
      let c' : Context = record c { level = lvl; trail = t } in
      let ext : Extends c c' = record { ids = refl; kept = λ d m. m; lits = λ d m. refl } in
      record {
        entries = entries-frame canon c c' ext refl (λ j m. refl) v;
        ordered = IsTrail-frame canon c c' ext lvl t (λ j m. Agree-refl (var_at c j)) h;
        complete = λ j m a. subst (In j) q (v.complete j m a);
        no_reason = v.no_reason;
      }

  -- One round: the last variable of the trail is cleared.
  pop-IsValid :
      (c : Context) (i : ℕ) (rest : List ℕ)
      → IsValid canon c
      → c.trail ≡ i ∷ rest
      → IsValid canon (pop c i rest)
  unfolding pop unassign
  pop-IsValid c i rest v q =
      let t : IsTrail canon c c.level (i ∷ rest) = subst (IsTrail canon c c.level) q v.ordered in
      let c' = pop c i rest in
      let w = unassign (var_at c i) in
      let new : var_at c' i ≡ w = at-put_self c i w t.0 in
      let old : (j : ℕ) → i ≢ j → var_at c' j ≡ var_at c j = λ j n. at-put_ne c i j w t.0 n in
      let same_ids : var_ids c' ≡ var_ids c = e.vars.ids-put c.vars i w in
      let ext : Extends c c' = record { ids = same_ids; kept = λ d m. m; lits = λ d m. refl } in
      record {
        entries =
            entries-frame canon c c' ext refl
              (λ j m. elim (eq_cases i j) [
                | inl z ↦
                    subst (λ k. (var_at c' k).literal ≡ (var_at c k).literal) z
                      (ap (λ x. x.literal) new)
                | inr n ↦ ap (λ x. x.literal) (old j n)
              ])
              v;
        ordered = IsTrail-mono canon c' (level_at c i) c.level rest t.1 (
            IsTrail-frame canon c c' ext (level_at c i) rest
              (λ j m.
                Agree-of_eq (var_at c j) (var_at c' j)
                  (old j (λ z. t.2 (subst (λ k. In k rest) (sym z) m))))
              t.5);
        complete = λ j m a. elim (eq_cases i j) [
          | inl z ↦ absurd (
              true≢false (
                sym (ap (λ x. is_unassigned x.assignment) new)
                ∙ ap (λ k. is_unassigned (assignment_at c' k)) z
                ∙ a))
          | inr n ↦ tail_of i j rest n (
              subst (In j) q (
                v.complete j (subst (In j) same_ids m)
                  (ap (λ x. is_unassigned x.assignment) (sym (old j n)) ∙ a)))
        ];
        no_reason = λ j m a. elim (eq_cases i j) [
          | inl z ↦
              subst (λ k. reason_at c' k ≡ none) z (ap (λ x. x.context.clause_propagation) new)
          | inr n ↦
              ap (λ x. x.context.clause_propagation) (old j n)
              ∙ v.no_reason j (subst (In j) same_ids m)
                  (ap (λ x. is_unassigned x.assignment) (sym (old j n)) ∙ a)
        ];
      }
    where
      tail_of : (i j : ℕ) (rest : List ℕ) → i ≢ j → In j (i ∷ rest) → In j rest
      tail_of i j rest n (inl z) = absurd (n z)
      tail_of i j rest n (inr m) = m

  -- What the loop gives for the context `c` and the level `lvl`.
  pub record IsBacktracked (c c' : Context) (lvl : ℕ) : Type 0 where
    pub valid : IsValid canon c'
    pub ids : var_ids c' ≡ var_ids c
    pub clauses : c'.clauses ≡ c.clauses
    pub level : c'.level ≡ lvl
    pub levels : (i : ℕ) → level_at c' i ≡ level_at c i
    pub kept : (i : ℕ) → level_at c i ≤ lvl → var_at c' i ≡ var_at c i
    pub carried : Carries c c'

  IsBacktracked-pop :
      (c c' : Context) (i : ℕ) (rest : List ℕ) (lvl : ℕ)
      → In i (var_ids c)
      → lvl < level_at c i
      → IsBacktracked (pop c i rest) c' lvl
      → IsBacktracked c c' lvl
  unfolding pop unassign
  IsBacktracked-pop c c' i rest lvl m lt h =
      let w = unassign (var_at c i) in
      let old : (j : ℕ) → i ≢ j → var_at (pop c i rest) j ≡ var_at c j =
        λ j n. at-put_ne c i j w m n in
      let new : var_at (pop c i rest) i ≡ w = at-put_self c i w m in
      let lv : (j : ℕ) → level_at (pop c i rest) j ≡ level_at c j = λ j. elim (eq_cases i j) [
        | inl z ↦
            subst (λ k. level_at (pop c i rest) k ≡ level_at c k) z
              (ap (λ x. x.context.decision_level) new)
        | inr n ↦ ap (λ x. x.context.decision_level) (old j n)
      ] in
      record {
        valid = h.valid;
        ids = h.ids ∙ e.vars.ids-put c.vars i w;
        clauses = h.clauses;
        level = h.level;
        levels = λ j. h.levels j ∙ lv j;
        kept =
            λ j le. h.kept j (omega (arith, lv j)) ∙ old j (λ z. omega (arith, ap (level_at c) z));
        carried =
            Carries-trans c (pop c i rest) c'
              (Carries-put c (pop c i rest) i w m refl refl refl refl) h.carried;
      }

  backtrack_loop-IsBacktracked :
      (c : Context) (lvl : ℕ) (t : List ℕ)
      → IsValid canon c
      → c.trail ≡ t
      → IsBacktracked c (record (backtrack_loop c lvl t) { level = lvl }) lvl
  unfolding backtrack_loop
  backtrack_loop-IsBacktracked c lvl [] v q = record {
    valid = with_trail c lvl [] v q tt;
    ids = refl;
    clauses = refl;
    level = refl;
    levels = λ i. refl;
    kept = λ i h. refl;
    carried = record { config = refl; conflict_count = refl; literals = λ i. refl };
  }
  backtrack_loop-IsBacktracked c lvl (i ∷ rest) v q =
      let t : IsTrail canon c c.level (i ∷ rest) = subst (IsTrail canon c c.level) q v.ordered in
      let ih =
        backtrack_loop-IsBacktracked (pop c i rest) lvl rest (pop-IsValid c i rest v q)
          (unfold pop in refl) in
      elim (Bool-cases (leb (level_at c i) lvl)) [
        | inl s ↦
            rw (s, backtrack_loop)
              (record {
                valid = with_trail c lvl (i ∷ rest) v q (t.0, ground arith, t.2, t.3, t.4, t.5);
                ids = refl;
                clauses = refl;
                level = refl;
                levels = λ i. refl;
                kept = λ i h. refl;
                carried = record { config = refl; conflict_count = refl; literals = λ i. refl };
              })
        | inr s ↦ rw (s, backtrack_loop) (IsBacktracked-pop c _ i rest lvl t.0 (ground arith) ih)
      ]

  -- Backtracking a valid context to a level gives a valid context of that level with the same
  -- variables and clauses, and leaves the row of each variable of that level or below, and every
  -- recorded level, as it was.
  pub backtrack-IsBacktracked :
      (c : Context) (lvl : ℕ) → IsValid canon c → IsBacktracked c (backtrack c lvl) lvl
  unfolding backtrack
  backtrack-IsBacktracked c lvl v = backtrack_loop-IsBacktracked c lvl c.trail v refl
