-- ===== src/Sat/Solve/Falls.antt =====
-- The rank of a context that has fewer clauses to learn or fewer free variables.
use fabko.Base.{
  ℕ, suc, ◌+◌, ◌*◌, ◌≤◌, ◌<◌, ◌≡◌, sym, ◌∙◌, ap, subst, inl, inr, true, false, length, keep,
  keep_shrinks, keep_mono, Bool-cases, true≢false, arith,
}
use fabko.Sat.Literal.{is_unassigned}
use fabko.Sat.Types.{Env, Context, var_at, var_ids, assignment_at}
use fabko.Sat.Propagate.Settling.{free_count, free_le}
use fabko.Sat.Decide.{unassigned_vars}
use fabko.Sat.Decide.Valid.{IsDecision}
use fabko.Sat.Solve.Rank.{unlearned, pending, rank}

-- A number in base `v + 1` with a smaller head.
digits_lt : (v j k f g : ℕ) → j < k → f ≤ v → j * suc v + f < k * suc v + g
digits_lt v j k f g h le = grind arith

module _ ⦃e : Env⦄ where
  -- What was assigned stays so.
  abbrev Holds : Context → Context → Type 0
  Holds c c' = (i : ℕ) → is_unassigned (assignment_at c i) ≡ false → var_at c' i ≡ var_at c i

  still_free :
      (c c' : Context) (i : ℕ)
      → Holds c c'
      → is_unassigned (assignment_at c' i) ≡ true
      → is_unassigned (assignment_at c i) ≡ true
  still_free c c' i h t = elim (Bool-cases (is_unassigned (assignment_at c i))) [
    | inl y ↦ y
    | inr n ↦ absurd (true≢false (sym t ∙ ap (λ v. is_unassigned v.assignment) (h i n) ∙ n))
  ]

  pub free_mono :
      (c c' : Context) → var_ids c' ≡ var_ids c → Holds c c' → free_count c' ≤ free_count c
  unfolding unassigned_vars
  free_mono c c' q h =
      subst (λ is. length (keep (λ i. is_unassigned (assignment_at c' i)) is) ≤ free_count c)
        (sym q)
        (keep_mono (λ i. is_unassigned (assignment_at c i))
          (λ i. is_unassigned (assignment_at c' i)) (var_ids c) (λ i. still_free c c' i h))

  pub decision_falls :
      (canon : ℕ → ℕ) (c c' : Context) → IsDecision canon c c' → free_count c' < free_count c
  unfolding unassigned_vars
  decision_falls canon c c' k =
      let (i, m, t, f) = k.decides in
      subst (λ is. length (keep (λ j. is_unassigned (assignment_at c' j)) is) < free_count c)
        (sym k.ids)
        (keep_shrinks (λ j. is_unassigned (assignment_at c j))
          (λ j. is_unassigned (assignment_at c' j)) (var_ids c) i (λ j. still_free c c' j k.old) m t
          f)

  pub rank_lt_head :
      (c c' : Context)
      → var_ids c' ≡ var_ids c
      → unlearned c' * 2 + pending c' < unlearned c * 2 + pending c
      → rank c' < rank c
  unfolding rank
  rank_lt_head c c' q h =
      let le : free_count c' ≤ length (var_ids c) =
        omega (arith, free_le c', ap (length {A = ℕ}) q) in
      subst (λ is. (unlearned c' * 2 + pending c') * suc (length is) + free_count c' < rank c)
        (sym q)
        (digits_lt (length (var_ids c)) (unlearned c' * 2 + pending c')
          (unlearned c * 2 + pending c) (free_count c') (free_count c) h le)

  pub rank_lt_free :
      (c c' : Context)
      → var_ids c' ≡ var_ids c
      → unlearned c' ≡ unlearned c
      → pending c' ≡ pending c
      → free_count c' < free_count c
      → rank c' < rank c
  unfolding rank
  rank_lt_free c c' q u p h =
      let same : (unlearned c' * 2 + pending c') * suc (length (var_ids c'))
          ≡ (unlearned c * 2 + pending c) * suc (length (var_ids c)) =
        λ k. (u k * 2 + p k) * suc (length (q k)) in
      omega (arith, same, h)
