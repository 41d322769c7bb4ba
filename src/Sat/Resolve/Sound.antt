-- ===== src/Sat/Resolve/Sound.antt =====
-- Conflict resolution derives what the clauses imply: each step is a resolution of the learned clause
-- with the clause that forced a variable of the trail.
use fabko.Base.{
  ℕ, Bool, true, false, not, ◌&&◌, ==_iff, ◌≡◌, refl, sym, ◌∙◌, ap, subst, inl, inr, List, [], ◌∷◌,
  none, some, length, ltb, In, any, any_elim, any_intro, In-keep, keep-In, All, All-In, Bool-cases,
  Option-cases, true≢false, arith,
}
use fabko.Sat.Literal.{value}
use fabko.Sat.Types.{
  Env, Context, Entry, var_at, lits_at, clause_ids, assignment_at, reason_at, level_at,
}
use fabko.Sat.Clauses.{lit_false}
use fabko.Sat.Clauses.Laws.{clash}
use fabko.Sat.Resolve.{
  Resolution, is_var, add_literals, erase_var, antecedent, resolve_with, is_candidate, resolve_at,
  resolve_loop, resolve_conflict, start_resolution, sort, unique,
}
use fabko.Sat.Resolve.Literals.{Adds, add_literals-Adds, IsFalseEntry, IsDerived, holds_of_covers}
use fabko.Sat.Resolve.Sorted.{In-sort_to, In-sort_from, In-unique, unique-covers}
use fabko.Sat.Invariant.{holds, Models, IsFalse, Forces, IsEntry, IsReason, IsTrail, IsValid}
use fabko.Sat.Propagate.Assign.{IsConflict}

module _ ⦃e : Env⦄ (canon : ℕ → ℕ) (c : Context) where
  -- One resolution with the clause `d` that forced `x`.
  module _ (x d : ℕ) (rest : List ℕ) (v : IsValid canon c) (known : In d (clause_ids c))
      (canonical : x ≡ canon (value (var_at c x).literal))
      (forces : All (Forces c x rest) (lits_at c d)) (not_in : ¬ In x rest) where
    forced_entry : (p : Entry) → In p (lits_at c d) → IsEntry canon c p
    forced_entry p i = All-In (IsEntry canon c) (lits_at c d) (v.entries d known) p i

    -- A literal of the variable of `x` is one of `x`.
    id_of_var : (p : Entry) → IsEntry canon c p → is_var (var_at c x).literal p ≡ true → p.1 ≡ x
    id_of_var p h t =
        h.canonical
        ∙ ap canon ((==_iff (value p.0) (value (var_at c x).literal)).0 t)
        ∙ sym canonical

    var_of_id : (p : Entry) → IsEntry canon c p → p.1 ≡ x → is_var (var_at c x).literal p ≡ true
    var_of_id p h z =
        (==_iff (value p.0) (value (var_at c x).literal)).1
          (h.named ∙ ap (λ k. value (var_at c k).literal) z)

    -- The other literals of the clause are falsified.
    others_false :
        (p : Entry)
        → In p (lits_at c d)
        → is_var (var_at c x).literal p ≡ false
        → IsFalseEntry canon c p
    others_false p i n = elim (All-In (Forces c x rest) (lits_at c d) forces p i) [
      | inl r ↦ absurd (true≢false (sym (var_of_id p (forced_entry p i) r.0) ∙ n))
      | inr r ↦ record { entry = forced_entry p i; is_false = r.0 }
    ]

    resolve_holds :
        (ν : ℕ → Bool) (ls ls' : List Entry)
        → IsDerived canon c ls
        → Adds (var_at c x).literal (erase_var (var_at c x).literal ls) ls' (lits_at c d)
        → ((p : Entry) → In p ls' → IsFalseEntry canon c p)
        → Models ν c
        → any (holds ν) ls' ≡ true
    resolve_holds ν ls ls' h a f' models =
        let m = any_elim (holds ν) ls (h.implied ν models) in
        let q = any_elim (holds ν) (lits_at c d) (models d known) in
        elim (Bool-cases (is_var (var_at c x).literal m.0)) [
          | inr n ↦ any_intro (holds ν) ls' m.0 (a.kept m.0 (In-keep _ ls m.0 m.1 (ap not n))) m.2
          | inl t ↦ elim (All-In (Forces c x rest) (lits_at c d) forces q.0 q.1) [
            | inl r ↦
                let z = id_of_var m.0 (h.falsified m.0 m.1).entry t in
                absurd (
                  clash m.0.0 q.0.0 (assignment_at c x) (ν x)
                    (subst (λ k. lit_false m.0.0 (assignment_at c k) ≡ true) z
                      (h.falsified m.0 m.1).is_false)
                    r.1 (holds_at ν m.0 z m.2) (holds_at ν q.0 r.0 q.2))
            | inr r ↦
                let n = not_var q.0 q.1 r.1 in
                holds_of_covers canon c ν (q.0 ∷ []) ls' (λ p i. only p i (others_false q.0 q.1 n))
                  f' (λ p i. cover_one p i (a.covers q.0 q.1 n)) (one_holds ν q.0 q.2)
          ]
        ]
      where
        holds_at : (μ : ℕ → Bool) (p : Entry) → p.1 ≡ x → holds μ p ≡ true → holds μ (p.0, x) ≡ true
        holds_at μ p z t = subst (λ k. holds μ (p.0, k) ≡ true) z t

        not_var :
            (p : Entry) → In p (lits_at c d) → In p.1 rest → is_var (var_at c x).literal p ≡ false
        not_var p i m = elim (Bool-cases (is_var (var_at c x).literal p)) [
          | inl t ↦ absurd (not_in (subst (λ k. In k rest) (id_of_var p (forced_entry p i) t) m))
          | inr n ↦ n
        ]

        only :
            {r : Entry} (p : Entry)
            → In p (r ∷ [])
            → IsFalseEntry canon c r
            → IsFalseEntry canon c p
        only p (inl z) h = subst (IsFalseEntry canon c) z h
        only p (inr z) h = absurd z

        cover_one :
            {r : Entry} (p : Entry)
            → In p (r ∷ [])
            → any (is_var r.0) ls' ≡ true
            → any (is_var p.0) ls' ≡ true
        cover_one p (inl z) h = subst (λ (w : Entry). any (is_var w.0) ls' ≡ true) z h
        cover_one p (inr z) h = absurd z

        one_holds : (μ : ℕ → Bool) (p : Entry) → holds μ p ≡ true → any (holds μ) (p ∷ []) ≡ true
        one_holds μ p t = any_intro (holds μ) (p ∷ []) p (inl refl) t

    -- The resolvent is derived.
    resolvent-IsDerived :
        (ls ls' : List Entry)
        → IsDerived canon c ls
        → Adds (var_at c x).literal (erase_var (var_at c x).literal ls) ls' (lits_at c d)
        → IsDerived canon c ls'
    resolvent-IsDerived ls ls' h a =
        let f' : (p : Entry) → In p ls' → IsFalseEntry canon c p = λ p i. elim (a.source p i) [
          | inl m ↦ h.falsified p (keep-In _ ls p m).0
          | inr r ↦ others_false p r.0 r.1
        ] in
        record { falsified = f'; implied = λ ν models. resolve_holds ν ls ls' h a f' models }

  resolve_with-IsDerived :
      (s : Resolution) (x d n : ℕ) (rest : List ℕ)
      → IsValid canon c
      → IsTrail canon c n (x ∷ rest)
      → reason_at c x ≡ some d
      → IsDerived canon c s.learned
      → IsDerived canon c (resolve_with c s x).learned
  unfolding resolve_with
  resolve_with-IsDerived s x d n rest v t q h =
      let l = (var_at c x).literal in
      let r : IsReason canon c x rest (some d) = subst (IsReason canon c x rest) q t.4 in
      let start : Resolution = record s { learned = erase_var l s.learned } in
      let a : Adds l (erase_var l s.learned)
          (add_literals c l start (antecedent c (reason_at c x))).learned (lits_at c d) =
        subst
          (λ ps.
            Adds l (erase_var l s.learned)
              (add_literals c l start (antecedent c (reason_at c x))).learned ps)
          (ap (antecedent c) q) (add_literals-Adds c l start (antecedent c (reason_at c x))) in
      resolvent-IsDerived x d rest v r.0 r.1 r.2 t.2 s.learned _ h a

  resolve_at-IsDerived :
      (s : Resolution) (x n : ℕ) (rest : List ℕ)
      → IsValid canon c
      → IsTrail canon c n (x ∷ rest)
      → IsDerived canon c s.learned
      → IsDerived canon c (resolve_at c s x).learned
  unfolding resolve_at
  resolve_at-IsDerived s x n rest v t h =
      elim (Bool-cases (ltb 1 (length s.current_level_vars) && is_candidate c s x)) [
        | inr f ↦ rw (f, resolve_at) h
        | inl y ↦ elim (Option-cases (reason_at c x)) [
          | inl z ↦ absurd (true≢false (sym y ∙ no_candidate z))
          | inr (d, q) ↦ rw (y, resolve_at) (resolve_with-IsDerived s x d n rest v t q h)
        ]
      ]
    where
      no_candidate :
          reason_at c x ≡ none → (ltb 1 (length s.current_level_vars) && is_candidate c s x) ≡ false
      no_candidate z = unfold is_candidate in rw z (ground arith)

  pub resolve_loop-IsDerived :
      (s : Resolution) (n : ℕ) (t : List ℕ)
      → IsValid canon c
      → IsTrail canon c n t
      → IsDerived canon c s.learned
      → IsDerived canon c (resolve_loop c s t).learned
  unfolding resolve_loop
  resolve_loop-IsDerived s n [] v t h = h
  resolve_loop-IsDerived s n (x ∷ []) v t h = h
  resolve_loop-IsDerived s n (x ∷ y ∷ rest) v t h =
      resolve_loop-IsDerived (resolve_at c s x) (level_at c x) (y ∷ rest) v t.5
        (resolve_at-IsDerived s x n (y ∷ rest) v t h)

  pub conflict-IsDerived :
      (d : ℕ) → IsValid canon c → IsConflict c d → IsDerived canon c (lits_at c d)
  conflict-IsDerived d v k = record {
    falsified = λ p i. record {
      entry = All-In (IsEntry canon c) (lits_at c d) (v.entries d k.known) p i;
      is_false = All-In (IsFalse c) (lits_at c d) k.falsified p i;
    };
    implied = λ ν models. models d k.known;
  }

  sorted-IsDerived : (ls : List Entry) → IsDerived canon c ls → IsDerived canon c (unique (sort ls))
  sorted-IsDerived ls h =
      let f' : (p : Entry) → In p (unique (sort ls)) → IsFalseEntry canon c p =
        λ p i. h.falsified p (In-sort_from ls p (In-unique (sort ls) p i)) in
      record {
        falsified = f';
        implied = λ ν models.
            holds_of_covers canon c ν ls (unique (sort ls)) h.falsified f'
              (λ p i. unique-covers (sort ls) p (In-sort_to ls p i)) (h.implied ν models);
      }

  -- From a clause of a valid context whose literals are all false, conflict resolution learns a
  -- clause whose literals are all false too, and that every valuation satisfying the clauses of
  -- the context satisfies.
  pub resolve_conflict-IsDerived :
      (d : ℕ)
      → IsValid canon c
      → IsConflict c d
      → IsDerived canon c (resolve_conflict c d).learned_clause.vars
  unfolding resolve_conflict
  resolve_conflict-IsDerived d v k = sorted-IsDerived _ (
      resolve_loop-IsDerived (start_resolution c (lits_at c d)) c.level c.trail v v.ordered
        (conflict-IsDerived d v k))
