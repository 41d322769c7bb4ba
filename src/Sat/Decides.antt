-- ===== src/Sat/Decides.antt =====
-- The solver is totally correct: on enough rounds it decides its model.
use fabko.Base.{
  ℕ, ◌+◌, ◌*◌, ◌≤◌, ◌<◌, suc, to_size, ◌≡◌, ◌≢◌, refl, sym, ◌∙◌, ap, subst, inl, inr, List, [], ◌∷◌,
  map, In, In-map, map-In, All, All-In, Bool, false, is_nil, length, word_count, Distinct, arith,
}
use fabko.Sat.Literal.{Literal, value}
use fabko.Sat.Types.{Env, Context, Entry, Model, var_at, lits_at, var_ids}
use fabko.Sat.Watcher.{ok}
use fabko.Sat.Build.{make_context}
use fabko.Sat.Build.Valid.{IsNonzero, literals_of, IsBuilt, make_context-IsBuilt}
use fabko.Sat.Invariant.{IsEntry}
use fabko.Sat.Propagate.Settling.{free_count, free_le}
use fabko.Sat.Solve.{Step, running, solved, unsatisfiable, thrown, solve_sat}
use fabko.Sat.Solve.Levels.{ids_of, IsHistory-zero}
use fabko.Sat.Solve.Rank.{unlearned, unlearned-le, pending, rank}
use fabko.Sat.Solve.Thresholds.{Lasts, Lasts-mono}
use fabko.Sat.Solve.Restarted.{IsRanked, pending-le}
use fabko.Sat.Solve.Descent.{IsAnswer, solve_sat_answers}
use fabko.Sat.Correct.{Covers, Satisfies, solve_sat-solved, solve_sat-unsatisfiable}

-- No two literals of the clause are of the same variable.
abbrev pub IsUnrepeated : List Literal → Type 0
IsUnrepeated cl = Distinct (map value cl)

-- The clauses that can be learned over so many variables, and the rounds that the main loop can take.
unfoldable pub conflict_bound : ℕ → ℕ
conflict_bound v = word_count (v + v) v

unfoldable pub round_bound : ℕ → ℕ
unfolding conflict_bound
round_bound v = (conflict_bound v * 2 + 1) * suc v + v

-- Where equal ids have equal names, a clause without a repeated name has no repeated id.
Distinct-ids_of :
    (ps : List Entry)
    → ((p q : Entry) → In p ps → In q ps → p.1 ≡ q.1 → value p.0 ≡ value q.0)
    → IsUnrepeated (literals_of ps)
    → Distinct (ids_of ps)
Distinct-ids_of [] h d = tt
Distinct-ids_of (p ∷ ps) h d = (
  λ m.
      let (q, i, z) = map-In (λ (r : Entry). r.1) ps p.1 m in
      d.0 (
        subst (λ n. In n (map value (literals_of ps))) (h q p (inr i) (inl refl) z)
          (In-map value (literals_of ps) q.0 (In-map (λ (r : Entry). r.0) ps q i))),
  Distinct-ids_of ps (λ q r i j. h q r (inr i) (inr j)) d.1,
)

head_le : (v j k f : ℕ) → j ≤ k → f ≤ v → j * suc v + f ≤ k * suc v + v
head_le v j k f h le = grind arith

not_nil :
    (is : List ℕ) (ls : List Literal)
    → is_nil ls ≡ false
    → length is ≡ length ls
    → is_nil is ≡ false
not_nil [] [] n q = n
not_nil [] (l ∷ ls) n q = absurd (omega (arith, q))
not_nil (i ∷ is) ls n q = refl

module _ ⦃e : Env⦄ where
  rank-le : (c : Context) → rank c ≤ round_bound (length (var_ids c))
  unfolding rank round_bound conflict_bound
  rank-le c =
      let n = length (var_ids c) in
      let head : unlearned c * 2 + pending c ≤ word_count (n + n) n * 2 + 1 =
        omega (arith, unlearned-le c, pending-le c) in
      head_le n (unlearned c * 2 + pending c) (word_count (n + n) n * 2 + 1) (free_count c) head
        (free_le c)

  -- The context that the constructor makes is one from which the main loop ends.
  pub built-IsRanked :
      (m : Model) (c : Context) (b : IsBuilt m c)
      → All IsUnrepeated m.clauses
      → is_nil m.literals ≡ false
      → Lasts (conflict_bound (length m.literals)) m.conf
      → IsRanked b.canon c
  unfolding conflict_bound
  built-IsRanked m c b u n h = record {
    ready = record {
      valid = b.valid;
      history = IsHistory-zero c b.level;
      distinct = λ d i.
          let entry = All-In (IsEntry b.canon c) (lits_at c d) (b.valid.entries d i) in
          Distinct-ids_of (lits_at c d)
            (λ p q j k z.
              (entry p j).named ∙ ap (λ x. value (var_at c x).literal) z ∙ sym (entry q k).named)
            (All-In IsUnrepeated m.clauses u (literals_of (lits_at c d)) (b.from d i));
    };
    has_vars = not_nil (var_ids c) m.literals n b.variables;
    lasting =
        Lasts-mono (unlearned c + c.conflict_count) (conflict_bound (length m.literals)) m.conf
          c.config
          (omega
            (arith, unlearned-le c, b.conflict_count, ap (λ k. word_count (k + k) k) b.variables))
          b.config h;
  }

  -- How the main loop ends for a model.
  abbrev pub Decides : Model → Step → Type 0
  Decides m (running c) = ⊥
  Decides m (solved c ls) = Covers ls m.clauses
  Decides m (unsatisfiable c) = (μ : ℕ → Bool) → ¬ Satisfies μ m.clauses
  Decides m (thrown x) = ⊥

  -- For a model that has a variable, whose clauses have no literal 0 and name each variable
  -- once, whose decay interval is not 0 as a size_t, and whose restart threshold stays positive
  -- for as many conflicts as there are clauses over its variables, the main loop on any fuel
  -- above the bound for the number of variables returns a list with a literal of each clause,
  -- sign included, or unsatisfiable where no valuation satisfies the clauses.
  pub solve_sat-Decides :
      (m : Model) (c : Context) (fuel : ℕ)
      → All IsNonzero m.clauses
      → All IsUnrepeated m.clauses
      → is_nil m.literals ≡ false
      → make_context m ≡ ok c
      → to_size m.conf.decay_interval ≢ 0
      → Lasts (conflict_bound (length m.literals)) m.conf
      → round_bound (length m.literals) < fuel
      → Decides m (solve_sat fuel c)
  solve_sat-Decides m c fuel n u s q d h lt =
      let b = make_context-IsBuilt m c n q in
      let r : rank c < fuel = omega (arith, lt, rank-le c, ap round_bound b.variables) in
      go (solve_sat fuel c) refl (
        solve_sat_answers b.canon fuel c (built-IsRanked m c b u s h)
          (λ z. d (ap (λ f. to_size f.decay_interval) (sym b.config) ∙ z)) r)
    where
      go : (s : Step) → solve_sat fuel c ≡ s → IsAnswer s → Decides m s
      go (running c') z a = a
      go (solved c' ls) z a = solve_sat-solved m c c' fuel ls n q z
      go (unsatisfiable c') z a = λ μ. solve_sat-unsatisfiable m c c' fuel μ n q z
      go (thrown x) z a = a
