-- ===== src/Sat/Resolve/Literals.antt =====
-- How conflict resolution gathers literals, and when two clauses of falsified literals hold alike.
use fabko.Base.{
  ℕ, Bool, true, false, not, ◌&&◌, ◌||◌, if◌then◌else◌, ==_iff, ==_refl, ◌≡◌, sym, ◌∙◌, ap, subst,
  inl, inr, ◌⊎◌, List, [], ◌∷◌, ◌++◌, In, any, any_elim, any_intro, In-append_left, In-append_right,
  In-append_cases, Bool-cases, arith,
}
use fabko.Sat.Literal.{Literal, value}
use fabko.Sat.Types.{Env, Context, Entry, assignment_at}
use fabko.Sat.Clauses.{lit_false}
use fabko.Sat.Clauses.Laws.{both_false}
use fabko.Sat.Resolve.{Resolution, is_var, add_literal, add_literals, at_current_level}
use fabko.Sat.Invariant.{holds, Models, IsFalse, IsEntry}

-- What `add_literals` does to the learned clause.
pub record Adds (l : Literal) (ls ls' ps : List Entry) : Type 0 where
  pub kept : (q : Entry) → In q ls → In q ls'
  pub source : (q : Entry) → In q ls' → In q ls ⊎ (In q ps × (is_var l q ≡ false))
  pub covers : (p : Entry) → In p ps → is_var l p ≡ false → any (is_var p.0) ls' ≡ true

-- One more literal, unless its variable is there or is that of `l`.
abbrev add_to : Literal → List Entry → Entry → List Entry
add_to l ls p = if is_var l p || any (is_var p.0) ls then ls else ls ++ p ∷ []

add_to-Adds : (l : Literal) (ls : List Entry) (p : Entry) → Adds l ls (add_to l ls p) (p ∷ [])
add_to-Adds l ls p = elim (Bool-cases (is_var l p || any (is_var p.0) ls)) [
  | inl t ↦ rw t (record {
    kept = λ q m. m;
    source = λ q m. inl m;
    covers = λ q m n. elim m [
      | inl z ↦
          subst (λ (r : Entry). any (is_var r.0) ls ≡ true) z
            (covered (is_var l p) _ t (subst (λ (r : Entry). is_var l r ≡ false) (sym z) n))
      | inr z ↦ absurd z
    ];
  })
  | inr f ↦ rw f (record {
    kept = λ q m. In-append_left q ls (p ∷ []) m;
    source = λ q m. elim (In-append_cases q ls (p ∷ []) m) [
      | inl m ↦ inl m
      | inr i ↦ elim i [
        | inl z ↦
            inr (inl z, subst (λ (r : Entry). is_var l r ≡ false) z (neither (is_var l p) _ f))
        | inr z ↦ absurd z
      ]
    ];
    covers = λ q m n.
        any_intro (is_var q.0) (ls ++ p ∷ []) q (In-append_right q ls (p ∷ []) m)
          (==_refl (value q.0));
  })
]
  where
    covered : (a b : Bool) → (a || b) ≡ true → a ≡ false → b ≡ true
    covered a b h k = ground arith

    neither : (a b : Bool) → (a || b) ≡ false → a ≡ false
    neither a b h = ground arith

pub any_mono :
    (p : Entry → Bool) (ls ls' : List Entry)
    → ((q : Entry) → In q ls → In q ls')
    → any p ls ≡ true
    → any p ls' ≡ true
any_mono p ls ls' h t = let w = any_elim p ls t in any_intro p ls' w.0 (h w.0 w.1) w.2

module _ ⦃e : Env⦄ where
  learned_of_add :
      (c : Context) (l : Literal) (s : Resolution) (p : Entry)
      → (add_literal c l s p).learned ≡ add_to l s.learned p
  unfolding add_literal
  learned_of_add c l s p = elim (Bool-cases (is_var l p || any (is_var p.0) s.learned)) [
    | inl t ↦ rw t
    | inr f ↦ rw f (elim (Bool-cases (at_current_level c p.1)) [ inl t ↦ rw t | inr g ↦ rw g ])
  ]

  pub add_literals-Adds :
      (c : Context) (l : Literal) (s : Resolution) (ps : List Entry)
      → Adds l s.learned (add_literals c l s ps).learned ps
  unfolding add_literals
  add_literals-Adds c l s [] = record {
    kept = λ q m. m;
    source = λ q m. inl m;
    covers = λ p m n. absurd m;
  }
  add_literals-Adds c l s (p ∷ ps) =
      let s1 = add_literal c l s p in
      let one : Adds l s.learned s1.learned (p ∷ []) =
        subst (λ ls. Adds l s.learned ls (p ∷ [])) (sym (learned_of_add c l s p))
          (add_to-Adds l s.learned p) in
      let more = add_literals-Adds c l s1 ps in
      record {
        kept = λ q m. more.kept q (one.kept q m);
        source = λ q m. elim (more.source q m) [
          | inl m ↦ elim (one.source q m) [
            | inl i ↦ inl i
            | inr r ↦ elim r.0 [ inl z ↦ inr (inl z, r.1) | inr z ↦ absurd z ]
          ]
          | inr r ↦ inr (inr r.0, r.1)
        ];
        covers = λ q m n. elim m [
          | inl z ↦ any_mono (is_var q.0) s1.learned _ more.kept (one.covers q (inl z) n)
          | inr i ↦ more.covers q i n
        ];
      }

module _ ⦃e : Env⦄ (canon : ℕ → ℕ) (c : Context) where
  -- A literal of a falsified clause.
  pub record IsFalseEntry (p : Entry) : Type 0 where
    pub entry : IsEntry canon c p
    pub is_false : IsFalse c p

  -- The learned clause is falsified, and every model of the clauses satisfies it.
  pub record IsDerived (ls : List Entry) : Type 0 where
    pub falsified : (p : Entry) → In p ls → IsFalseEntry p
    pub implied : (ν : ℕ → Bool) → Models ν c → any (holds ν) ls ≡ true

  -- Two falsified literals of one variable hold together.
  same_holds :
      (ν : ℕ → Bool) (p q : Entry)
      → IsFalseEntry p
      → IsFalseEntry q
      → is_var p.0 q ≡ true
      → holds ν p ≡ true
      → holds ν q ≡ true
  same_holds ν p q hp hq same t =
      let ev : value q.0 ≡ value p.0 = (==_iff (value q.0) (value p.0)).0 same in
      let ei : q.1 ≡ p.1 = hq.entry.canonical ∙ ap canon ev ∙ sym hp.entry.canonical in
      let signs =
        both_false p.0 q.0 (assignment_at c p.1) hp.is_false
          (subst (λ k. lit_false q.0 (assignment_at c k) ≡ true) ei hq.is_false) in
      transfer (ν p.1) (ν q.1) (ap ν (sym ei)) signs.0 signs.1 t
    where
      transfer :
          {a b a' b' : Bool} (x y : Bool)
          → x ≡ y
          → a ≡ a'
          → b ≡ b'
          → ((a && x) || (b && not x)) ≡ true
          → ((a' && y) || (b' && not y)) ≡ true
      transfer x y h k m t = rw (← h, ← k, ← m) t

  -- Falsified literals, one for each variable of a satisfied clause, make a satisfied clause.
  pub holds_of_covers :
      (ν : ℕ → Bool) (ls ls' : List Entry)
      → ((p : Entry) → In p ls → IsFalseEntry p)
      → ((p : Entry) → In p ls' → IsFalseEntry p)
      → ((p : Entry) → In p ls → any (is_var p.0) ls' ≡ true)
      → any (holds ν) ls ≡ true
      → any (holds ν) ls' ≡ true
  holds_of_covers ν ls ls' f f' cov t =
      let w = any_elim (holds ν) ls t in
      let q = any_elim (is_var w.0.0) ls' (cov w.0 w.1) in
      any_intro (holds ν) ls' q.0 q.1 (same_holds ν w.0 q.0 (f w.0 w.1) (f' q.0 q.1) q.2 w.2)
