-- ===== src/Sat/Solve/Novel.antt =====
-- A clause that is learned is none of the context, and the round that learns it keeps the history.
use fabko.Base.{
  ℕ, ◌≤◌, ◌<◌, ltb, ◌≡◌, ◌≢◌, ◌⊎◌, refl, sym, ◌∙◌, ap, subst, inl, inr, List, [], ◌∷◌, In, All-In,
  Distinct, Bool-cases, arith,
}
use fabko.Sat.Types.{
  Env, Context, Entry, ConflictResolutionResult, lits_at, clause_ids, assignment_at, level_at,
}
use fabko.Sat.Clauses.Laws.{true_false, false_assigned}
use fabko.Sat.Invariant.{IsFalse, IsEntry, IsValid}
use fabko.Sat.Invariant.Frame.{trail_level}
use fabko.Sat.Propagate.Assign.{IsConflict}
use fabko.Sat.Resolve.{resolve_conflict}
use fabko.Sat.Resolve.Literals.{IsFalseEntry, IsDerived}
use fabko.Sat.Resolve.Sound.{resolve_conflict-IsDerived}
use fabko.Sat.Resolve.Uip.{IsLow}
use fabko.Sat.Resolve.Asserting.{IsAsserting, IsLevel, resolve_conflict-IsAsserting}
use fabko.Sat.Solve.Levels.{ids_of, NotBelow, IsClosed, IsOpen, IsHistory}

module _ ⦃e : Env⦄ (canon : ℕ → ℕ) where
  -- A valid context with its history, whose clauses name each variable once.
  pub record IsReady (c : Context) : Type 0 where
    pub valid : IsValid canon c
    pub history : IsHistory c
    pub distinct : (d : ℕ) → In d (clause_ids c) → Distinct (ids_of (lits_at c d))

  -- What conflict resolution gives above level 0, or at level 0 for a clause with a literal.
  pub record IsResolved (c : Context) (r : ConflictResolutionResult) : Type 0 where
    pub derived : IsDerived canon c r.learned_clause.vars
    pub asserting : IsAsserting canon c r.learned_clause.vars
    pub low : IsLow canon c r.backtrack_level
    pub marked : IsLevel canon c r.learned_clause.vars r.backtrack_level

  module _ (c : Context) (h : IsReady c) where
    -- A falsified literal is at most at the current level.
    false_level : (p : Entry) → IsFalseEntry canon c p → level_at c p.1 ≤ c.level
    false_level p f =
        trail_level canon c c.level c.trail h.valid.ordered p.1
          (h.valid.complete p.1 f.entry.known (false_assigned p.0 (assignment_at c p.1) f.is_false))

    pub conflict_entry :
        (d : ℕ) → IsConflict c d → (p : Entry) → In p (lits_at c d) → IsFalseEntry canon c p
    conflict_entry d k p m = record {
      entry = All-In (IsEntry canon c) (lits_at c d) (h.valid.entries d k.known) p m;
      is_false = All-In (IsFalse c) (lits_at c d) k.falsified p m;
    }

    -- A falsified clause has a literal of the current level, unless it is empty at level 0.
    pub conflict_at_level :
        (d : ℕ)
        → IsConflict c d
        → ((p : Entry) × In p (lits_at c d) × (level_at c p.1 ≡ c.level))
          ⊎ ((c.level ≡ 0) × (lits_at c d ≡ []))
    conflict_at_level d k = elim (Bool-cases (ltb 0 c.level)) [
      | inl y ↦ inl (above (h.history c.level d (ground arith) (omega arith) k.known))
      | inr n ↦ at_zero (ground arith) (lits_at c d) refl
    ]
      where
        above :
            IsClosed c c.level (lits_at c d) ⊎ IsOpen c c.level (lits_at c d)
            → (p : Entry) × In p (lits_at c d) × (level_at c p.1 ≡ c.level)
        above (inl (p, m, t, lt)) =
            absurd (true_false p.0 (assignment_at c p.1) t (conflict_entry d k p m).is_false)
        above (inr (p, q, m, n, ne, hp, hq)) =
            let f = conflict_entry d k p m in
            (
              p,
              m,
              omega (
                arith,
                false_level p f,
                hp (false_assigned p.0 (assignment_at c p.1) f.is_false),
              ),
            )

        at_zero :
            c.level ≡ 0
            → (ls : List Entry) → lits_at c d ≡ ls
            → ((p : Entry) × In p (lits_at c d) × (level_at c p.1 ≡ c.level))
              ⊎ ((c.level ≡ 0) × (lits_at c d ≡ []))
        at_zero z [] q = inr (z, q)
        at_zero z (p ∷ ps) q =
            let m : In p (lits_at c d) = subst (In p) (sym q) (inl refl) in
            inl (p, m, omega (arith, z, false_level p (conflict_entry d k p m)))

    pub conflict-IsResolved :
        (d : ℕ) (p : Entry)
        → IsConflict c d
        → In p (lits_at c d)
        → level_at c p.1 ≡ c.level
        → IsResolved c (resolve_conflict c d)
    conflict-IsResolved d p k m at =
        let r = resolve_conflict-IsAsserting canon c d p h.valid k (h.distinct d k.known) m at in
        record {
          derived = resolve_conflict-IsDerived canon c d h.valid k;
          asserting = r.0;
          low = r.1;
          marked = r.2;
        }

    -- Above level 0 what is learned is no clause of the context.
    pub learned_is_new :
        (r : ConflictResolutionResult) (d : ℕ)
        → IsResolved c r
        → 0 < c.level
        → In d (clause_ids c)
        → lits_at c d ≢ r.learned_clause.vars
    learned_is_new r d s pos m q = clash (
        subst (λ ls. IsClosed c c.level ls ⊎ IsOpen c c.level ls) q
          (h.history c.level d pos (omega arith) m))
      where
        at_uip :
            (p : Entry)
            → In p r.learned_clause.vars
            → NotBelow c c.level p.1
            → p.1 ≡ s.asserting.uip.1
        at_uip p i n =
            let f = s.derived.falsified p i in
            elim (s.asserting.others p i) [
              | inl z ↦ z
              | inr lt ↦
                  absurd
                    (omega (arith, lt, n (false_assigned p.0 (assignment_at c p.1) f.is_false)))
            ]

        clash :
            IsClosed c c.level r.learned_clause.vars ⊎ IsOpen c c.level r.learned_clause.vars → ⊥
        clash (inl (p, i, t, lt)) =
            true_false p.0 (assignment_at c p.1) t (s.derived.falsified p i).is_false
        clash (inr (p, u, i, j, ne, hp, hu)) = ne (at_uip p i hp ∙ sym (at_uip u j hu))

    -- When the level to go back to was begun, two variables of it were free.
    pub learned-IsOpen :
        (r : ConflictResolutionResult)
        → IsResolved c r
        → (l : ℕ) → 0 < l
        → l ≤ r.backtrack_level
        → IsOpen c l r.learned_clause.vars
    learned-IsOpen r s l pos le = elim s.low [
      | inr z ↦ absurd (omega (arith, pos, le, z))
      | inl lt ↦ elim s.marked [
        | inl z ↦ absurd (omega (arith, pos, le, z))
        | inr (q, i, z) ↦ (
          s.asserting.uip,
          q,
          s.asserting.known,
          i,
          λ w. omega (arith, lt, z, s.asserting.at_level, ap (level_at c) w),
          λ a. omega (arith, le, lt, s.asserting.at_level),
          λ a. omega (arith, le, z),
        )
      ]
    ]
