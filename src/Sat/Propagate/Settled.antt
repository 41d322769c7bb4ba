-- ===== src/Sat/Propagate/Settled.antt =====
-- Unit propagation leaves a context alone whose clauses are all settled.
use fabko.Base.{
  ℕ, ◌≤◌, ◌≡◌, refl, ◌∙◌, ap, inl, inr, List, [], ◌∷◌, none, length, All, Bool-cases, arith,
}
use fabko.Sat.Types.{Env, Context, Entry, clause_ids}
use fabko.Sat.Clauses.{is_clause_satisfied, unassigned}
use fabko.Sat.Propagate.{
  Pass, propagate_unassigned, propagate_clause, propagate_unless, propagate, propagate_each,
  propagate_all, unit_loop, unit_propagation,
}
use fabko.Sat.Propagate.Settling.{IsSettled}

module _ ⦃e : Env⦄ where
  two_free :
      (p : Pass) (d : ℕ) (free : List Entry) → 2 ≤ length free → propagate_unassigned p d free ≡ p
  unfolding propagate_unassigned
  two_free p d [] h = absurd (omega (arith, h))
  two_free p d (q ∷ []) h = absurd (omega (arith, h))
  two_free p d (q ∷ r ∷ qs) h = refl

  settled_one :
      (c : Context) (d : ℕ)
      → IsSettled c d
      → propagate (record { ctx = c; conflict = none; count = 0 }) d
        ≡ record { ctx = c; conflict = none; count = 0 }
  unfolding propagate propagate_unless propagate_clause
  settled_one c d (inl s) = rw s refl
  settled_one c d (inr le) =
      elim (Bool-cases (is_clause_satisfied c (e.clauses.at c.clauses d).clause)) [
        | inl s ↦ rw s refl
        | inr s ↦ rw s (two_free _ d (unassigned c (e.clauses.at c.clauses d).clause) le)
      ]

  settled_each :
      (c : Context) (ds : List ℕ)
      → All (IsSettled c) ds
      → propagate_each (record { ctx = c; conflict = none; count = 0 }) ds
        ≡ record { ctx = c; conflict = none; count = 0 }
  unfolding propagate_each
  settled_each c [] h = refl
  settled_each c (d ∷ ds) h =
      ap (λ p. propagate_each p ds) (settled_one c d h.0) ∙ settled_each c ds h.1

  pub settled_stays :
      (c : Context) → All (IsSettled c) (clause_ids c) → unit_propagation c ≡ (c, none)
  unfolding unit_propagation unit_loop
  settled_stays c h =
      let all : propagate_all c ≡ record { ctx = c; conflict = none; count = 0 } =
        unfold propagate_all in settled_each c (clause_ids c) h in
      let calm : (propagate_all c).conflict ≡ none = ap (λ (p : Pass). p.conflict) all in
      let idle : (propagate_all c).count ≡ 0 = ap (λ (p : Pass). p.count) all in
      let same : (propagate_all c).ctx ≡ c = ap (λ (p : Pass). p.ctx) all in
      rw (calm, unit_loop) (rw idle (rw same refl))
