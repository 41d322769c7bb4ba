-- ===== src/SatBuilder/Laws.antt =====
-- What the SAT model of an integer constant says.
use fabko.Base.{ℕ, ℤ, Bool, true, false, ◌||◌, if◌then◌else◌, ◌≡◌, arith}
use fabko.Sat.Correct.{lit_holds, Satisfies}
use fabko.SatBuilder.{above, bits16, negate, make_builder, generate_model, bits_of}

-- The constructor chooses 16 bits for every constant above 255 and 8 bits for every other, never
-- 32 or 64.
pub bits_of_lem : (value : ℤ) → bits_of value ≡ (if above 8 value then 16 else 8)
unfolding bits_of
bits_of_lem value = ground arith

bits16_fails :
    (μ : ℕ → Bool) (b : Bool)
    → (lit_holds μ (if b then bits16 else negate bits16) || false) ≡ true
    → ⊥
bits16_fails μ true h = cc
bits16_fails μ false h = cc

-- No valuation satisfies the clauses that are generated for an integer constant, whatever the
-- constant.
pub generate_model_unsatisfiable :
    (value : ℤ) (μ : ℕ → Bool) → ¬ Satisfies μ (generate_model (make_builder value)).cnf_clauses
unfolding generate_model make_builder
generate_model_unsatisfiable value μ h = bits16_fails μ (above 8 value) h.0
