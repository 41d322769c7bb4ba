-- ===== src/Sat/Resolve/Asserting.antt =====
-- The clause that conflict resolution learns has one variable of the current level.
use fabko.Base.{
  ℕ, ◌≤◌, ◌<◌, ==_iff, ◌≡◌, ◌⊎◌, refl, sym, ◌∙◌, ap, subst, inl, inr, List, [], length, keep, map,
  In-map, map-In, any_elim, eq_cases, In, In-keep, keep-In, Distinct, Distinct-keep, length_of_In,
  In-one, In-first, arith, All-In,
}
use fabko.Sat.Literal.{value}
use fabko.Sat.Types.{Env, Context, Entry, lits_at, assignment_at, level_at}
use fabko.Sat.Clauses.Laws.{false_assigned}
use fabko.Sat.Resolve.{
  Resolution, is_var, at_current_level, resolve_conflict, start_resolution, sort, unique,
}
use fabko.Sat.Resolve.Sorted.{In-sort_to, In-sort_from, In-unique, unique-covers}
use fabko.Sat.Resolve.Literals.{IsFalseEntry}
use fabko.Sat.Resolve.Sound.{resolve_loop-IsDerived, conflict-IsDerived}
use fabko.Sat.Resolve.Uip.{IsLow, IsResolving}
use fabko.Sat.Invariant.{IsEntry, IsFalse, IsValid}
use fabko.Sat.Invariant.Frame.{trail_level}
use fabko.Sat.Propagate.Assign.{IsConflict}
use fabko.Sat.Resolve.Loop.{resolve_loop-IsResolving}

module _ ⦃e : Env⦄ (canon : ℕ → ℕ) (c : Context) where
  -- A clause with one variable of the current level: each of its literals is one of this variable or
  -- below the level.
  pub record IsAsserting (ls : List Entry) : Type 0 where
    pub uip : Entry
    pub known : In uip ls
    pub at_level : level_at c uip.1 ≡ c.level
    pub others : (q : Entry) → In q ls → (q.1 ≡ uip.1) ⊎ (level_at c q.1 < c.level)

  -- The level is 0 or that of a literal of the clause.
  abbrev pub IsLevel : List Entry → ℕ → Type 0
  IsLevel ls b = (b ≡ 0) ⊎ ((q : Entry) × In q ls × (level_at c q.1 ≡ b))

  -- The literal whose level is gone back to, or one of its variable, stays.
  marked_learned :
      (s : Resolution)
      → IsResolving canon c [] s
      → IsLevel (unique (sort s.learned)) s.backtrack_level
  marked_learned s h = elim h.marked [
    | inl z ↦ inl z
    | inr (p, a, z) ↦
        let (u, b, same) =
          any_elim (is_var p.0) (unique (sort s.learned))
            (unique-covers (sort s.learned) p (In-sort_to s.learned p a)) in
        let back : In u s.learned = In-sort_from s.learned u (In-unique (sort s.learned) u b) in
        let id : u.1 ≡ p.1 =
          (h.entries u back).canonical
          ∙ ap canon ((==_iff (value u.0) (value p.0)).0 same)
          ∙ sym (h.entries p a).canonical in
        inr (u, b, ap (level_at c) id ∙ z)
  ]

  start-IsResolving :
      (d : ℕ) (p : Entry)
      → IsValid canon c
      → IsConflict c d
      → Distinct (map (λ (q : Entry). q.1) (lits_at c d))
      → In p (lits_at c d)
      → level_at c p.1 ≡ c.level
      → IsResolving canon c c.trail (start_resolution c (lits_at c d))
  start-IsResolving d p v k distinct m at =
      let ids = map (λ (q : Entry). q.1) (lits_at c d) in
      let entry : (q : Entry) → In q (lits_at c d) → IsEntry canon c q =
        λ q i. All-In (IsEntry canon c) (lits_at c d) (v.entries d k.known) q i in
      let listed : (q : Entry)
          → In q (lits_at c d)
          → level_at c q.1 ≡ c.level
          → In q.1 (keep (at_current_level c) ids) =
        λ q i z.
          In-keep (at_current_level c) ids q.1 (In-map (λ (r : Entry). r.1) (lits_at c d) q i)
            ((==_iff (level_at c q.1) c.level).1 z) in
      record {
        entries = entry;
        listed = listed;
        named = λ i j.
            map-In (λ (r : Entry). r.1) (lits_at c d) i (keep-In (at_current_level c) ids i j).0;
        current = λ i j. (==_iff (level_at c i) c.level).0 (keep-In (at_current_level c) ids i j).1;
        distinct = Distinct-keep (at_current_level c) ids distinct;
        low = inr refl;
        marked = inl refl;
        nonempty = length_of_In (keep (at_current_level c) ids) p.1 (listed p m at);
        placed = inr λ i j.
            let (q, a, z) =
              map-In (λ (r : Entry). r.1) (lits_at c d) i
                (keep-In (at_current_level c) ids i j).0 in
            subst (λ n. In n c.trail) z
              (v.complete q.1 (entry q a).known (
                false_assigned q.0 (assignment_at c q.1)
                  (All-In (IsFalse c) (lits_at c d) k.falsified q a)));
      }

  -- A falsified literal is not above the current level.
  level_of_false : (q : Entry) → IsValid canon c → IsFalseEntry canon c q → level_at c q.1 ≤ c.level
  level_of_false q v f =
      trail_level canon c c.level c.trail v.ordered q.1
        (v.complete q.1 f.entry.known (false_assigned q.0 (assignment_at c q.1) f.is_false))

  -- What is left when the trail is walked down is one variable.
  one_left : (s : Resolution) → IsResolving canon c [] s → length s.current_level_vars ≤ 1
  one_left s h = elim h.placed [
    | inl le ↦ le
    | inr on ↦ let (i, m) = In-first s.current_level_vars h.nonempty in absurd (on i m)
  ]

  learned-IsAsserting :
      (s : Resolution)
      → IsValid canon c
      → IsResolving canon c [] s
      → ((q : Entry) → In q s.learned → IsFalseEntry canon c q)
      → IsAsserting (unique (sort s.learned))
  learned-IsAsserting s v h f =
      let (i, m) = In-first s.current_level_vars h.nonempty in
      let (p, a, z) = h.named i m in
      let (u, b, same) =
        any_elim (is_var p.0) (unique (sort s.learned))
          (unique-covers (sort s.learned) p (In-sort_to s.learned p a)) in
      let back : (q : Entry) → In q (unique (sort s.learned)) → In q s.learned =
        λ q j. In-sort_from s.learned q (In-unique (sort s.learned) q j) in
      let id : u.1 ≡ i =
        (h.entries u (back u b)).canonical
        ∙ ap canon ((==_iff (value u.0) (value p.0)).0 same)
        ∙ sym (h.entries p a).canonical
        ∙ z in
      record {
        uip = u;
        known = b;
        at_level = ap (level_at c) id ∙ h.current i m;
        others = λ q j. elim (eq_cases (level_at c q.1) c.level) [
          | inl w ↦ inl (
              In-one s.current_level_vars q.1 i (one_left s h) (h.listed q (back q j) w) m ∙ sym id)
          | inr n ↦ inr (omega (arith, n, level_of_false q v (f q (back q j))))
        ];
      }

  -- From a clause of a valid context whose literals are all false, name each variable once and
  -- have one of the current level, conflict resolution learns a clause with a literal of the
  -- current level such that every other literal is of the same variable or below the level, and
  -- its backtrack level is below the current one or 0, and that of a literal of the clause or 0.
  pub resolve_conflict-IsAsserting :
      (d : ℕ) (p : Entry)
      → IsValid canon c
      → IsConflict c d
      → Distinct (map (λ (q : Entry). q.1) (lits_at c d))
      → In p (lits_at c d)
      → level_at c p.1 ≡ c.level
      → IsAsserting (resolve_conflict c d).learned_clause.vars
        × IsLow canon c (resolve_conflict c d).backtrack_level
        × IsLevel (resolve_conflict c d).learned_clause.vars (resolve_conflict c d).backtrack_level
  unfolding resolve_conflict
  resolve_conflict-IsAsserting d p v k distinct m at =
      let h =
        resolve_loop-IsResolving canon c (start_resolution c (lits_at c d)) c.level c.trail v
          v.ordered (omega arith) (start-IsResolving d p v k distinct m at) in
      let f =
        resolve_loop-IsDerived canon c (start_resolution c (lits_at c d)) c.level c.trail v
          v.ordered (conflict-IsDerived canon c d v k) in
      (learned-IsAsserting _ v h f.falsified, h.low, marked_learned _ h)
