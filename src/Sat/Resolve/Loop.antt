-- ===== src/Sat/Resolve/Loop.antt =====
-- The loops of conflict resolution leave one variable of the current level.
use fabko.Base.{
  ◌&&◌, ℕ, ◌≤◌, Bool, true, false, not, ◌==◌, ==_iff, ==_refl, ◌≡◌, ◌≢◌, ◌⊎◌, refl, sym, ◌∙◌, ap,
  subst, inl, inr, List, [], ◌∷◌, none, some, length, keep, ltb, any_intro, In, In-keep, keep-In,
  Bool-cases, Option-cases, Distinct-keep, length_of_In, another, true≢false, arith, All-In,
}
use fabko.Sat.Literal.{value, same_var}
use fabko.Sat.Types.{Env, Context, Entry, var_at, lits_at, level_at, reason_at}
use fabko.Sat.Resolve.{
  Resolution, at_current_level, add_literals, erase_var, antecedent, resolve_with, is_candidate,
  is_propagated, resolve_at, resolve_loop,
}
use fabko.Sat.Resolve.Uip.{
  var_of_id, IsResolving, IsGathered, add_literals-IsGathered, start-IsGathered,
}
use fabko.Sat.Invariant.{IsEntry, Forces, IsReason, IsTrail, IsValid}
use fabko.Sat.Invariant.Frame.{trail_level}

module _ ⦃e : Env⦄ (canon : ℕ → ℕ) (c : Context) where
  -- The variables of the literal that is resolved on are taken out.
  module _ (x : ℕ) (rest : List ℕ) (canonical : x ≡ canon (value (var_at c x).literal))
      (bound : (i : ℕ) → In i rest → level_at c i ≤ c.level) (r : Resolution)
      (h : IsGathered canon c x rest canonical bound r) where
    abbrev left : ℕ → Bool
    left i = not (same_var (var_at c i).literal (var_at c x).literal)

    left_of_away : (p : Entry) → In p r.learned → left p.1 ≡ true
    left_of_away p i =
        ap (λ v. not (v == value (var_at c x).literal)) (sym (h.entries p i).named)
        ∙ ap not (h.away p i)

    left_ne : (i : ℕ) → left i ≡ true → i ≢ x
    left_ne i y z = true≢false (sym y ∙ ap left z ∙ ap not (==_refl (value (var_at c x).literal)))

    finish-IsResolving :
        IsResolving canon c rest (record r { current_level_vars = keep left r.current_level_vars })
    finish-IsResolving = record {
      entries = h.entries;
      listed = λ p i z. In-keep left r.current_level_vars p.1 (h.listed p i z) (left_of_away p i);
      named = λ i j. let k = keep-In left r.current_level_vars i j in h.named i k.0 (left_ne i k.1);
      current = λ i j. h.current i (keep-In left r.current_level_vars i j).0;
      distinct = Distinct-keep left r.current_level_vars h.distinct;
      low = h.low;
      marked = h.marked;
      nonempty =
          let (j, k, n) = h.other in
          let (p, i, z) = h.named j k n in
          length_of_In (keep left r.current_level_vars) j (
            In-keep left r.current_level_vars j k
              (subst (λ a. left a ≡ true) z (left_of_away p i)));
      placed = inr λ i j.
          let k = keep-In left r.current_level_vars i j in
          elim (h.placed i k.0) [ inl z ↦ absurd (left_ne i k.1 z) | inr m ↦ m ];
    }

  -- One resolution.
  resolve_with-IsResolving :
      (s : Resolution) (x d n : ℕ) (rest : List ℕ)
      → IsValid canon c
      → IsTrail canon c n (x ∷ rest)
      → n ≤ c.level
      → reason_at c x ≡ some d
      → 2 ≤ length s.current_level_vars
      → ((i : ℕ) → In i s.current_level_vars → In i (x ∷ rest))
      → level_at c x ≡ c.level
      → IsResolving canon c (x ∷ rest) s
      → IsResolving canon c rest (resolve_with c s x)
  unfolding resolve_with
  resolve_with-IsResolving s x d n rest v t le q two on at h =
      let r : IsReason canon c x rest (some d) = subst (IsReason canon c x rest) q t.4 in
      let bound : (i : ℕ) → In i rest → level_at c i ≤ c.level =
        λ i m. omega (arith, t.1, le, trail_level canon c (level_at c x) rest t.5 i m) in
      let entry : (p : Entry) → In p (lits_at c d) → IsEntry canon c p =
        λ p i. All-In (IsEntry canon c) (lits_at c d) (v.entries d r.0) p i in
      finish-IsResolving x rest r.1 bound _ (
        subst
          (λ ps. IsGathered canon c x rest r.1 bound (
            add_literals c (var_at c x).literal
              (record s { learned = erase_var (var_at c x).literal s.learned }) ps))
          (sym (ap (antecedent c) q))
          (add_literals-IsGathered canon c x rest r.1 bound _ (lits_at c d)
            (start-IsGathered canon c x rest r.1 bound s h two on at) entry
            (λ p i away. elim (All-In (Forces c x rest) (lits_at c d) r.2 p i) [
              | inl w ↦
                  absurd
                    (true≢false (sym (var_of_id canon c x rest r.1 bound p (entry p i) w.0) ∙ away))
              | inr w ↦ w.1
            ])))

  -- The same, with another rest of the trail.
  with_rest :
      (t t' : List ℕ) (s : Resolution)
      → IsResolving canon c t s
      → (length s.current_level_vars ≤ 1) ⊎ ((i : ℕ) → In i s.current_level_vars → In i t')
      → IsResolving canon c t' s
  with_rest t t' s h p = record {
    entries = h.entries;
    listed = h.listed;
    named = h.named;
    current = h.current;
    distinct = h.distinct;
    low = h.low;
    nonempty = h.nonempty;
    marked = h.marked;
    placed = p;
  }

  -- What is passed over is not among the variables that are left, since they are two at least: a
  -- decision, or a variable of a lower level, would be the last of them.
  passed_over :
      (s : Resolution) (x n : ℕ) (rest : List ℕ)
      → IsTrail canon c n (x ∷ rest)
      → n ≤ c.level
      → 2 ≤ length s.current_level_vars
      → IsResolving canon c (x ∷ rest) s
      → ((i : ℕ) → In i s.current_level_vars → In i (x ∷ rest))
      → is_candidate c s x ≡ false
      → (i : ℕ) → In i s.current_level_vars
      → In i rest
  unfolding is_candidate
  passed_over s x n rest t le two h on f i m = elim (on i m) [
    | inr k ↦ k
    | inl z ↦
        let at : level_at c x ≡ c.level = ap (level_at c) z ∙ h.current i m in
        let listed_x : In x s.current_level_vars =
          subst (λ k. In k s.current_level_vars) (sym z) m in
        elim (Option-cases (reason_at c x)) [
          | inl q ↦
              let r : IsReason canon c x rest none = subst (IsReason canon c x rest) q t.4 in
              let (j, k, ne) = another s.current_level_vars x h.distinct two in
              elim (on j k) [
                | inl w ↦ absurd (ne (sym w))
                | inr w ↦ absurd (omega (arith, r.1 j w, h.current j k, at))
              ]
          | inr (d, q) ↦ absurd (true≢false (sym (candidate d q at listed_x) ∙ f))
        ]
  ]
    where
      candidate :
          (d : ℕ)
          → reason_at c x ≡ some d
          → level_at c x ≡ c.level
          → In x s.current_level_vars
          → is_candidate c s x ≡ true
      candidate d q at k = rw q (
          rw ((==_iff (level_at c x) c.level).1 at) (
            any_intro (λ i. same_var (var_at c i).literal (var_at c x).literal) s.current_level_vars
              x k (==_refl (value (var_at c x).literal))))

  resolve_at-IsResolving :
      (s : Resolution) (x n : ℕ) (rest : List ℕ)
      → IsValid canon c
      → IsTrail canon c n (x ∷ rest)
      → n ≤ c.level
      → IsResolving canon c (x ∷ rest) s
      → IsResolving canon c rest (resolve_at c s x)
  unfolding resolve_at
  resolve_at-IsResolving s x n rest v t le h =
      elim (Bool-cases (ltb 1 (length s.current_level_vars))) [
        | inr few ↦ rw (few, resolve_at) (with_rest (x ∷ rest) rest s h (inl (ground arith)))
        | inl many ↦ elim h.placed [
          | inl one ↦ absurd (ground arith)
          | inr on ↦ elim (Bool-cases (is_candidate c s x)) [
            | inr f ↦
                rw (many, resolve_at)
                  (rw f (
                    with_rest (x ∷ rest) rest s h
                      (inr (passed_over s x n rest t le (ground arith) h on f))))
            | inl y ↦ elim (Option-cases (reason_at c x)) [
              | inl q ↦ absurd (true≢false (sym y ∙ no_candidate q))
              | inr (d, q) ↦
                  rw (many, resolve_at)
                    (rw y (
                      resolve_with-IsResolving s x d n rest v t le q (ground arith) on
                        (candidate_level y) h))
            ]
          ]
        ]
      ]
    where
      both : (a b d : Bool) → (a && b && d) ≡ true → b ≡ true
      both a b d h = ground arith

      candidate_level : is_candidate c s x ≡ true → level_at c x ≡ c.level
      candidate_level y =
          unfold is_candidate in
          (==_iff (level_at c x) c.level).0
            (both (is_propagated (reason_at c x)) (at_current_level c x) _ y)

      no_candidate : reason_at c x ≡ none → is_candidate c s x ≡ false
      no_candidate q = unfold is_candidate in rw q refl

  -- At the end one variable is left.
  pub resolve_loop-IsResolving :
      (s : Resolution) (n : ℕ) (t : List ℕ)
      → IsValid canon c
      → IsTrail canon c n t
      → n ≤ c.level
      → IsResolving canon c t s
      → IsResolving canon c [] (resolve_loop c s t)
  unfolding resolve_loop
  resolve_loop-IsResolving s n [] v t le h = h
  resolve_loop-IsResolving s n (x ∷ []) v t le h = with_rest (x ∷ []) [] s h (inl (one h.placed))
    where
      one :
          (length s.current_level_vars ≤ 1) ⊎ ((i : ℕ) → In i s.current_level_vars → In i (x ∷ []))
          → length s.current_level_vars ≤ 1
      one (inl le) = le
      one (inr on) = elim (Bool-cases (ltb 1 (length s.current_level_vars))) [
        | inr few ↦ ground arith
        | inl many ↦
            let (j, k, ne) = another s.current_level_vars x h.distinct (ground arith) in
            elim (on j k) [ inl w ↦ absurd (ne (sym w)) | inr w ↦ absurd w ]
      ]
  resolve_loop-IsResolving s n (x ∷ y ∷ rest) v t le h =
      resolve_loop-IsResolving (resolve_at c s x) (level_at c x) (y ∷ rest) v t.5
        (omega (arith, t.1, le)) (resolve_at-IsResolving s x n (y ∷ rest) v t le h)
