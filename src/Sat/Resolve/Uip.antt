-- ===== src/Sat/Resolve/Uip.antt =====
-- Conflict resolution ends at a unique implication point: at most one variable of the current level
-- is left. What the two loops keep of the variables that are still to be resolved.
use fabko.Base.{
  ℕ, ◌≤◌, ◌<◌, Bool, true, false, not, ◌||◌, ==_iff, ◌≡◌, ◌≢◌, ◌⊎◌, refl, sym, ◌∙◌, ap, subst, inl,
  inr, List, [], ◌∷◌, ◌++◌, length, if◌then◌else◌, any, any-false, ltb, In, In-keep, keep-In,
  In-append_left, In-append_right, In-append_cases, Bool-cases, eq_cases, Distinct,
  Distinct-append_one, another, true≢false, arith,
}
use fabko.Sat.Literal.{Literal, value}
use fabko.Sat.Types.{Env, Context, Entry, var_at, level_at}
use fabko.Sat.Resolve.{Resolution, is_var, at_current_level, add_literal, add_literals, erase_var}
use fabko.Sat.Invariant.{IsEntry}

module _ ⦃e : Env⦄ (canon : ℕ → ℕ) (c : Context) where
  -- The level to go back to is 0 or that of a literal of the learned clause.
  abbrev pub IsMarked : Resolution → Type 0
  IsMarked s =
      (s.backtrack_level ≡ 0)
      ⊎ ((p : Entry) × In p s.learned × (level_at c p.1 ≡ s.backtrack_level))

  -- It is below the current one, unless it is 0.
  abbrev pub IsLow : ℕ → Type 0
  IsLow b = (b < c.level) ⊎ (b ≡ 0)

  -- What is left to resolve: the listed variables are those of the current level in the learned
  -- clause, without repetition, and on the trail, unless one is left.
  pub record IsResolving (t : List ℕ) (s : Resolution) : Type 0 where
    pub entries : (p : Entry) → In p s.learned → IsEntry canon c p
    pub listed :
        (p : Entry) → In p s.learned → level_at c p.1 ≡ c.level → In p.1 s.current_level_vars
    pub named : (i : ℕ) → In i s.current_level_vars → (p : Entry) × In p s.learned × (p.1 ≡ i)
    pub current : (i : ℕ) → In i s.current_level_vars → level_at c i ≡ c.level
    pub distinct : Distinct s.current_level_vars
    pub low : IsLow s.backtrack_level
    pub nonempty : 1 ≤ length s.current_level_vars
    pub marked : IsMarked s
    pub placed : (length s.current_level_vars ≤ 1) ⊎ ((i : ℕ) → In i s.current_level_vars → In i t)

  -- The variables of two literals are the same.
  value_of_id :
      (p q : Entry) → IsEntry canon c p → IsEntry canon c q → p.1 ≡ q.1 → value p.0 ≡ value q.0
  value_of_id p q hp hq z = hp.named ∙ ap (λ k. value (var_at c k).literal) z ∙ sym hq.named

  -- One resolution with the clause that forced `x`, `rest` being what is before `x` on the trail.
  module _ (x : ℕ) (rest : List ℕ) (canonical : x ≡ canon (value (var_at c x).literal))
      (bound : (i : ℕ) → In i rest → level_at c i ≤ c.level) where
    abbrev lit : Literal
    lit = (var_at c x).literal

    pub id_of_var : (p : Entry) → IsEntry canon c p → is_var lit p ≡ true → p.1 ≡ x
    id_of_var p h t = h.canonical ∙ ap canon ((==_iff (value p.0) (value lit)).0 t) ∙ sym canonical

    pub var_of_id : (p : Entry) → IsEntry canon c p → p.1 ≡ x → is_var lit p ≡ true
    var_of_id p h z =
        (==_iff (value p.0) (value lit)).1 (h.named ∙ ap (λ k. value (var_at c k).literal) z)

    -- While the clause is added.
    pub record IsGathered (s : Resolution) : Type 0 where
      pub entries : (p : Entry) → In p s.learned → IsEntry canon c p
      pub away : (p : Entry) → In p s.learned → is_var lit p ≡ false
      pub listed :
          (p : Entry) → In p s.learned → level_at c p.1 ≡ c.level → In p.1 s.current_level_vars
      pub named :
          (i : ℕ) → In i s.current_level_vars → i ≢ x → (p : Entry) × In p s.learned × (p.1 ≡ i)
      pub current : (i : ℕ) → In i s.current_level_vars → level_at c i ≡ c.level
      pub distinct : Distinct s.current_level_vars
      pub low : IsLow s.backtrack_level
      pub placed : (i : ℕ) → In i s.current_level_vars → (i ≡ x) ⊎ In i rest
      pub marked : IsMarked s
      pub other : (j : ℕ) × In j s.current_level_vars × (j ≢ x)

    -- A literal whose variable is not in the learned clause.
    module _ (s : Resolution) (p : Entry) (h : IsGathered s) (hp : IsEntry canon c p)
        (away : is_var lit p ≡ false) (fresh : any (is_var p.0) s.learned ≡ false)
        (m : In p.1 rest) where
      abbrev longer : List Entry
      longer = s.learned ++ p ∷ []

      longer_elim :
          (P : Entry → Type 0)
          → ((q : Entry) → In q s.learned → P q)
          → P p
          → (q : Entry) → In q longer
          → P q
      longer_elim P f g q i = elim (In-append_cases q s.learned (p ∷ []) i) [
        | inl j ↦ f q j
        | inr j ↦ elim j [ inl z ↦ subst P z g | inr z ↦ absurd z ]
      ]

      not_listed : ¬ In p.1 s.current_level_vars
      not_listed i = elim (eq_cases p.1 x) [
        | inl z ↦ true≢false (sym (var_of_id p hp z) ∙ away)
        | inr n ↦
            let (q, j, z) = h.named p.1 i n in
            true≢false (
              sym ((==_iff (value q.0) (value p.0)).1 (value_of_id q p (h.entries q j) hp z))
              ∙ any-false (is_var p.0) s.learned fresh q j)
      ]

      longer_marked :
          (s.backtrack_level ≡ 0)
          ⊎ ((q : Entry) × In q longer × (level_at c q.1 ≡ s.backtrack_level))
      longer_marked = elim h.marked [
        | inl z ↦ inl z
        | inr (q, i, z) ↦ inr (q, In-append_left q s.learned (p ∷ []) i, z)
      ]

      raised_marked :
          (y : Bool)
          → ((if y then level_at c p.1 else s.backtrack_level) ≡ 0)
            ⊎ ((q : Entry) × In q longer
                × (level_at c q.1 ≡ (if y then level_at c p.1 else s.backtrack_level)))
      raised_marked true = inr (p, In-append_right p s.learned (p ∷ []) (inl refl), refl)
      raised_marked false = longer_marked

      add_current :
          level_at c p.1 ≡ c.level
          → IsGathered
              (record s { learned = longer; current_level_vars = s.current_level_vars ++ p.1 ∷ [] })
      add_current z = record {
        entries = longer_elim (IsEntry canon c) h.entries hp;
        away = longer_elim (λ q. is_var lit q ≡ false) h.away away;
        listed =
            longer_elim (λ q. level_at c q.1 ≡ c.level → In q.1 (s.current_level_vars ++ p.1 ∷ []))
              (λ q j w. In-append_left q.1 s.current_level_vars _ (h.listed q j w))
              (λ w. In-append_right p.1 s.current_level_vars _ (inl refl));
        named = λ i j n. elim (In-append_cases i s.current_level_vars (p.1 ∷ []) j) [
          | inl k ↦ let (q, a, b) = h.named i k n in (q, In-append_left q s.learned (p ∷ []) a, b)
          | inr k ↦ elim k [
            | inl w ↦ (p, In-append_right p s.learned (p ∷ []) (inl refl), w)
            | inr w ↦ absurd w
          ]
        ];
        current = λ i j. elim (In-append_cases i s.current_level_vars (p.1 ∷ []) j) [
          | inl k ↦ h.current i k
          | inr k ↦ elim k [ inl w ↦ subst (λ a. level_at c a ≡ c.level) w z | inr w ↦ absurd w ]
        ];
        distinct = Distinct-append_one s.current_level_vars p.1 h.distinct not_listed;
        low = h.low;
        placed = λ i j. elim (In-append_cases i s.current_level_vars (p.1 ∷ []) j) [
          | inl k ↦ h.placed i k
          | inr k ↦ elim k [ inl w ↦ inr (subst (λ a. In a rest) w m) | inr w ↦ absurd w ]
        ];
        marked = longer_marked;
        other =
            let (j, k, n) = h.other in (j, In-append_left j s.current_level_vars (p.1 ∷ []) k, n);
      }

      add_lower :
          (b : ℕ)
          → level_at c p.1 ≢ c.level
          → IsLow b
          → (b ≡ 0) ⊎ ((q : Entry) × In q longer × (level_at c q.1 ≡ b))
          → IsGathered (record s { learned = longer; backtrack_level = b })
      add_lower b n lt mk = record {
        entries = longer_elim (IsEntry canon c) h.entries hp;
        away = longer_elim (λ q. is_var lit q ≡ false) h.away away;
        listed =
            longer_elim (λ q. level_at c q.1 ≡ c.level → In q.1 s.current_level_vars) h.listed
              (λ w. absurd (n w));
        named =
            λ i j w. let (q, a, z) = h.named i j w in (q, In-append_left q s.learned (p ∷ []) a, z);
        current = h.current;
        distinct = h.distinct;
        low = lt;
        placed = h.placed;
        marked = mk;
        other = h.other;
      }

    neither : (a b : Bool) → (a || b) ≡ false → (a ≡ false) × (b ≡ false)
    neither a b h = (ground arith, ground arith)

    add_literal-IsGathered :
        (s : Resolution) (p : Entry)
        → IsGathered s
        → IsEntry canon c p
        → (is_var lit p ≡ false → In p.1 rest)
        → IsGathered (add_literal c lit s p)
    unfolding add_literal
    add_literal-IsGathered s p h hp m =
        elim (Bool-cases (is_var lit p || any (is_var p.0) s.learned)) [
          | inl y ↦ rw y h
          | inr y ↦
              let (away, fresh) = neither (is_var lit p) (any (is_var p.0) s.learned) y in
              rw y (elim (Bool-cases (at_current_level c p.1)) [
                | inl z ↦ rw z (
                    add_current s p h hp away fresh (m away)
                      ((==_iff (level_at c p.1) c.level).0 z))
                | inr z ↦
                    let n : level_at c p.1 ≢ c.level =
                      λ w. true≢false (sym ((==_iff (level_at c p.1) c.level).1 w) ∙ z) in
                    rw z (
                      add_lower s p h hp away fresh (m away) _ n
                        (lower (ltb s.backtrack_level (level_at c p.1)) n h.low
                          (bound p.1 (m away)))
                        (raised_marked s p h hp away fresh (m away)
                          (ltb s.backtrack_level (level_at c p.1))))
              ])
        ]
      where
        lower :
            {a b : ℕ} (y : Bool) → b ≢ c.level → IsLow a → b ≤ c.level → IsLow (if y then b else a)
        lower true n lt le = inl (omega (arith, n, le))
        lower false n lt le = lt

    pub add_literals-IsGathered :
        (s : Resolution) (ps : List Entry)
        → IsGathered s
        → ((p : Entry) → In p ps → IsEntry canon c p)
        → ((p : Entry) → In p ps → is_var lit p ≡ false → In p.1 rest)
        → IsGathered (add_literals c lit s ps)
    unfolding add_literals
    add_literals-IsGathered s [] h hp m = h
    add_literals-IsGathered s (p ∷ ps) h hp m =
        add_literals-IsGathered (add_literal c lit s p) ps
          (add_literal-IsGathered s p h (hp p (inl refl)) (m p (inl refl))) (λ q i. hp q (inr i))
          (λ q i. m q (inr i))

    -- Before the clause is added.
    pub start-IsGathered :
        (s : Resolution)
        → IsResolving (x ∷ rest) s
        → 2 ≤ length s.current_level_vars
        → ((i : ℕ) → In i s.current_level_vars → In i (x ∷ rest))
        → level_at c x ≡ c.level
        → IsGathered (record s { learned = erase_var lit s.learned })
    start-IsGathered s h two on at = record {
      entries = λ p i. h.entries p (keep-In _ s.learned p i).0;
      away = λ p i. erased p (keep-In _ s.learned p i).1;
      listed = λ p i z. h.listed p (keep-In _ s.learned p i).0 z;
      named = λ i j n.
          let (q, a, z) = h.named i j in
          (q, In-keep _ s.learned q a (stays q (h.entries q a) (λ w. n (sym z ∙ w))), z);
      current = h.current;
      distinct = h.distinct;
      low = h.low;
      placed = λ i j. elim (on i j) [ inl z ↦ inl (sym z) | inr k ↦ inr k ];
      marked = elim h.low [
        | inr z ↦ inl z
        | inl lt ↦ elim h.marked [
          | inl z ↦ inl z
          | inr (q, i, z) ↦ inr (
            q,
            In-keep _ s.learned q i
                (stays q (h.entries q i) (λ w. omega (arith, lt, z, at, ap (level_at c) w))),
            z,
          )
        ]
      ];
      other = another s.current_level_vars x h.distinct two;
    }
      where
        erased : (p : Entry) → not (is_var lit p) ≡ true → is_var lit p ≡ false
        erased p y = elim (Bool-cases (is_var lit p)) [
          | inl t ↦ absurd (true≢false (sym y ∙ ap not t))
          | inr n ↦ n
        ]

        stays : (p : Entry) → IsEntry canon c p → p.1 ≢ x → not (is_var lit p) ≡ true
        stays p hp n = elim (Bool-cases (is_var lit p)) [
          | inl y ↦ absurd (n (id_of_var p hp y))
          | inr y ↦ ap not y
        ]
