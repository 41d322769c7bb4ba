-- ===== src/Sat/Propagate/Settling.antt =====
-- When a clause is settled, and what one clause does to a pass of unit propagation.
use fabko.Base.{
  ℕ, ◌+◌, ◌≤◌, ◌<◌, true, false, ◌≡◌, refl, sym, ap, ◌∙◌, subst, inl, inr, ◌⊎◌, List, [], ◌∷◌, none,
  some, In, keep, All, length, length-keep-le, keep_shrinks, Bool-cases, Option-cases, none≢some,
  eq_cases, arith,
}
use fabko.Sat.Literal.{is_unassigned, is_on}
use fabko.Sat.Types.{Env, Context, Clause, Entry, var_at, var_ids, clause_ids, assignment_at}
use fabko.Sat.Clauses.{is_clause_satisfied, unassigned}
use fabko.Sat.Clauses.Laws.{set_assigned}
use fabko.Sat.Decide.{unassigned_vars}
use fabko.Sat.Propagate.{
  Pass, propagated, assign, propagate_unassigned, propagate_clause, propagate_unless, propagate,
  propagate_each, propagate_all, count_propagations,
}
use fabko.Sat.Invariant.Assign.{at-put_self, at-put_ne}

module _ ⦃e : Env⦄ where
  abbrev clause_at : Context → ℕ → Clause
  clause_at c d = (e.clauses.at c.clauses d).clause

  -- A clause that unit propagation has no use for: it is satisfied, or two literals are free.
  abbrev pub IsSettled : Context → ℕ → Type 0
  IsSettled c d =
      (is_clause_satisfied c (clause_at c d) ≡ true) ⊎ (2 ≤ length (unassigned c (clause_at c d)))

  -- The number of variables without an assignment.
  abbrev pub free_count : Context → ℕ
  free_count c = length (unassigned_vars c)

  pub free_le : (c : Context) → free_count c ≤ length (var_ids c)
  unfolding unassigned_vars
  free_le c = length-keep-le (λ i. is_unassigned (assignment_at c i)) (var_ids c)

  pub count_free : (c : Context) (n : ℕ) → free_count (count_propagations c n) ≡ free_count c
  unfolding count_propagations unassigned_vars
  count_free c n = refl

  -- An assignment leaves one variable less.
  pub assign_free :
      (c : Context) (d : ℕ) (q : Entry)
      → In q.1 (var_ids c)
      → is_unassigned (assignment_at c q.1) ≡ true
      → free_count (assign c d q) < free_count c
  unfolding assign propagated unassigned_vars
  assign_free c d q m u =
      let w = propagated c d q.0 (var_at c q.1) in
      let c' = assign c d q in
      let new : is_unassigned (assignment_at c' q.1) ≡ false =
        ap (λ v. is_unassigned v.assignment) (at-put_self c q.1 w m) ∙ set_assigned (is_on q.0) in
      let old : (i : ℕ)
          → is_unassigned (assignment_at c' i) ≡ true
          → is_unassigned (assignment_at c i) ≡ true =
        λ i h. elim (eq_cases q.1 i) [
          | inl z ↦ subst (λ k. is_unassigned (assignment_at c k) ≡ true) z u
          | inr n ↦ ap (λ v. is_unassigned v.assignment) (sym (at-put_ne c q.1 i w m n)) ∙ h
        ] in
      subst (λ is. length (keep (λ i. is_unassigned (assignment_at c' i)) is) < free_count c)
        (sym (e.vars.ids-put c.vars q.1 w))
        (keep_shrinks (λ i. is_unassigned (assignment_at c i))
          (λ i. is_unassigned (assignment_at c' i)) (var_ids c) q.1 old m u new)

  -- What one clause does to a pass that has no conflict: nothing, as it is settled; an assignment; or
  -- a conflict.
  pub data Move (p : Pass) (d : ℕ) (p' : Pass) : Type 0 where
    idle : p' ≡ p → IsSettled p.ctx d → Move p d p'
    forced :
        (q : Entry)
        → p' ≡ record p { ctx = assign p.ctx d q; count = p.count + 1 }
        → unassigned p.ctx (clause_at p.ctx d) ≡ q ∷ []
        → Move p d p'
    stuck : p' ≡ record p { conflict = some d } → Move p d p'

  unassigned-Move :
      (p : Pass) (d : ℕ) (free : List Entry)
      → unassigned p.ctx (clause_at p.ctx d) ≡ free
      → Move p d (propagate_unassigned p d free)
  unfolding propagate_unassigned
  unassigned-Move p d [] h = stuck refl
  unassigned-Move p d (q ∷ []) h = forced q refl h
  unassigned-Move p d (q ∷ r ∷ qs) h = idle refl (inr (omega (arith, ap length h)))

  pub propagate-Move : (p : Pass) (d : ℕ) → p.conflict ≡ none → Move p d (propagate p d)
  unfolding propagate propagate_clause
  propagate-Move p d n =
      subst (Move p d) (sym (ap (propagate_unless p d) n))
        (elim (Bool-cases (is_clause_satisfied p.ctx (clause_at p.ctx d))) [
          | inl s ↦ rw s (idle refl (inl s))
          | inr s ↦ rw s (unassigned-Move p d _ refl)
        ])

  pub propagate_stops : (p : Pass) (d k : ℕ) → p.conflict ≡ some k → propagate p d ≡ p
  unfolding propagate propagate_unless
  propagate_stops p d k h = ap (propagate_unless p d) h

  each_stops : (p : Pass) (ds : List ℕ) (k : ℕ) → p.conflict ≡ some k → propagate_each p ds ≡ p
  unfolding propagate_each
  each_stops p [] k h = refl
  each_stops p (d ∷ ds) k h = rw (propagate_stops p d k h) (each_stops p ds k h)

  propagate_count : (p : Pass) (d : ℕ) → p.count ≤ (propagate p d).count
  propagate_count p d = elim (Option-cases p.conflict) [
    | inr (k, h) ↦ rw (propagate_stops p d k h) (omega arith)
    | inl n ↦ elim (propagate-Move p d n) [
      | idle z s ↦ rw z (omega arith)
      | forced q z s ↦ rw z (omega arith)
      | stuck z ↦ rw z (omega arith)
    ]
  ]

  each_count : (p : Pass) (ds : List ℕ) → p.count ≤ (propagate_each p ds).count
  unfolding propagate_each
  each_count p [] = omega arith
  each_count p (d ∷ ds) = omega (arith, propagate_count p d, each_count (propagate p d) ds)

  -- A pass that counts nothing and meets no conflict has left the context alone, and every clause is
  -- settled.
  each_settles :
      (p : Pass) (ds : List ℕ)
      → p.conflict ≡ none
      → (propagate_each p ds).conflict ≡ none
      → (propagate_each p ds).count ≤ p.count
      → ((propagate_each p ds) ≡ p) × All (IsSettled p.ctx) ds
  unfolding propagate_each
  each_settles p [] n n' le = (refl, tt)
  each_settles p (d ∷ ds) n n' le = elim (propagate-Move p d n) [
    | idle z s ↦
        let r =
          each_settles p ds n (subst (λ t. (propagate_each t ds).conflict ≡ none) z n')
            (subst (λ t. (propagate_each t ds).count ≤ p.count) z le) in
        (ap (λ t. propagate_each t ds) z ∙ r.0, (s, r.1))
    | forced q z s ↦
        absurd (omega (arith, each_count (propagate p d) ds, ap (λ (t : Pass). t.count) z))
    | stuck z ↦ absurd (
        none≢some (
          sym n'
          ∙ ap (λ t. (propagate_each t ds).conflict) z
          ∙ ap (λ (t : Pass). t.conflict) (each_stops (record p { conflict = some d }) ds d refl)))
  ]

  pub All-settles :
      (c : Context)
      → (propagate_all c).conflict ≡ none
      → (propagate_all c).count ≡ 0
      → ((propagate_all c).ctx ≡ c) × All (IsSettled c) (clause_ids c)
  unfolding propagate_all
  All-settles c n z =
      let r =
        each_settles (record { ctx = c; conflict = none; count = 0 }) (clause_ids c) refl n
          (omega arith) in
      (ap (λ (t : Pass). t.ctx) r.0, r.1)
