-- ===== src/Sat/Invariant/Ground.antt =====
-- At level 0 the assignment is what every model has, so a falsified clause there has none.
use fabko.Base.{
  ℕ, ◌≤◌, Bool, true, false, if◌then◌else◌, ◌≡◌, sym, ◌∙◌, subst, inl, inr, List, [], ◌∷◌, none,
  some, In, any_elim, any_none, All, All-In, Option-cases, true≢false, arith,
}
use fabko.Sat.Literal.{on, off}
use fabko.Sat.Types.{Env, Context, Entry, lits_at, clause_ids, assignment_at, level_at, reason_at}
use fabko.Sat.Clauses.{lit_false}
use fabko.Sat.Clauses.Laws.{true_forces, false_refutes, false_assigned}
use fabko.Sat.Invariant.{holds, Models, IsFalse, Forces, IsEntry, IsReason, IsTrail, IsValid}

module _ ⦃e : Env⦄ (canon : ℕ → ℕ) (c : Context) (ν : ℕ → Bool) (models : Models ν c) where
  abbrev Matches : ℕ → Type 0
  Matches i = assignment_at c i ≡ (if ν i then on else off)

  refuted : (p : Entry) → Matches p.1 → IsFalse c p → holds ν p ≡ false
  refuted p m f = false_refutes p.0 (ν p.1) (subst (λ a. lit_false p.0 a ≡ true) m f)

  forced-Matches :
      (x : ℕ) (rest : List ℕ)
      → ((i : ℕ) → In i rest → Matches i)
      → (p : Entry) → holds ν p ≡ true
      → Forces c x rest p
      → Matches x
  forced-Matches x rest ih p h (inl (z, t)) =
      true_forces p.0 (assignment_at c x) (ν x) t (subst (λ k. holds ν (p.0, k) ≡ true) z h)
  forced-Matches x rest ih p h (inr (f, m)) = absurd (true≢false (sym h ∙ refuted p (ih p.1 m) f))

  trail-Matches : (n : ℕ) (t : List ℕ) → n ≤ 0 → IsTrail canon c n t → (i : ℕ) → In i t → Matches i
  trail-Matches n [] z h i m = absurd m
  trail-Matches n (x ∷ rest) z h i m =
      let ih = trail-Matches (level_at c x) rest (omega arith) h.5 in
      let here : Matches x = elim (Option-cases (reason_at c x)) [
        | inl q ↦ absurd (by_decision (subst (IsReason canon c x rest) q h.4))
        | inr (d, q) ↦ by_clause d (subst (IsReason canon c x rest) q h.4) ih
      ] in
      elim m [ inl q ↦ subst Matches q here | inr m' ↦ ih i m' ]
    where
      by_decision : IsReason canon c x rest none → ⊥
      by_decision r = omega (arith, r.0)

      by_clause :
          (d : ℕ) → IsReason canon c x rest (some d) → ((j : ℕ) → In j rest → Matches j) → Matches x
      by_clause d r ih =
          let q = any_elim (holds ν) (lits_at c d) (models d r.0) in
          forced-Matches x rest ih q.0 q.2 (All-In (Forces c x rest) (lits_at c d) r.2 q.0 q.1)

  -- A falsified clause of a valid context at level 0 contradicts the model.
  pub no_conflict_at_zero :
      (d : ℕ)
      → IsValid canon c
      → c.level ≡ 0
      → In d (clause_ids c)
      → All (IsFalse c) (lits_at c d)
      → ⊥
  no_conflict_at_zero d v z known f =
      let none_holds : (p : Entry) → In p (lits_at c d) → holds ν p ≡ false = λ p i.
        let fp = All-In (IsFalse c) (lits_at c d) f p i in
        let entry = All-In (IsEntry canon c) (lits_at c d) (v.entries d known) p i in
        refuted p
          (trail-Matches c.level c.trail (omega arith) v.ordered p.1
            (v.complete p.1 entry.known (false_assigned p.0 (assignment_at c p.1) fp)))
          fp in
      true≢false (sym (models d known) ∙ any_none (holds ν) (lits_at c d) none_holds)
