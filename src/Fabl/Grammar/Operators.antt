-- ===== src/Fabl/Grammar/Operators.antt =====
-- The operators that the grammar reads.
use fabko.Base.{
  ℕ, false, [], ◌++◌, Option, none, some, ◌≡◌, ◌≢◌, refl, sym, subst, Bool-cases, ◌∙◌, ap, inl, inr,
  ◌⊎◌,
}
use fabko.Text.Join.{Text}
use fabko.Text.Codes.{codes}
use fabko.Text.Split.{starts_with}
use fabko.Fabl.Copa.{Copa, matched, and_then, or_run}
use fabko.Fabl.Copa.Laws.{either-run}
use fabko.Fabl.Cst.{
  CompareOperator, invalid, greater, greater_equal, less, less_equal, equal, different,
  compare_operator_of, operator_exec_of, OperatorExec, add, subtract, multiply, divide, leaf,
  operand, Piece, ExpressionLeaf, PreconditionLeaf,
}
use fabko.Fabl.Grammar.{
  condition_grammar, compare_token, operator_token, level_1_grammar, level_2_grammar,
}

-- How a comparison is written.
abbrev pub symbol : CompareOperator → Text
symbol invalid = []
symbol greater = codes ">"
symbol greater_equal = codes ">="
symbol less = codes "<"
symbol less_equal = codes "<="
symbol equal = codes "=="
symbol different = codes "!="

-- What the grammar gives for a text without blanks before it.
abbrev token_run : Text → Text → Option (Piece CompareOperator PreconditionLeaf × Text)
token_run t s = and_then (matched t s) (λ u s'. some (operand 1 (compare_operator_of u), s'))

abbrev condition_run : Text → Option (Piece CompareOperator PreconditionLeaf × Text)
condition_run s = or_run (token_run (codes ">=") s) (
    or_run (token_run (codes ">") s) (
      or_run (token_run (codes "<=") s) (
        or_run (token_run (codes "<") s)
          (or_run (token_run (codes "==") s) (token_run (codes "!=") s)))))

condition_run-symbol :
    (o : CompareOperator) (rest : Text)
    → o ≢ invalid
    → starts_with rest (codes "=") ≡ false
    → condition_run (symbol o ++ rest) ≡ some (operand 1 o, rest)
unfolding compare_operator_of
condition_run-symbol invalid rest n h = absurd (n refl)
condition_run-symbol greater rest n h = rw h refl
condition_run-symbol greater_equal rest n h = refl
condition_run-symbol less rest n h = rw h refl
condition_run-symbol less_equal rest n h = refl
condition_run-symbol equal rest n h = refl
condition_run-symbol different rest n h = refl

module _ ⦃c : Copa⦄ where
  run-compare_token : (t s : Text) → c.run (compare_token t) s ≡ token_run t (c.skip s)
  run-compare_token t s =
      c.run-emit (λ u. operand 1 (compare_operator_of u)) (c.match_string t) s
      ∙ ap (λ r. and_then r (λ u s'. some (operand 1 (compare_operator_of u), s')))
          (c.run-match_string t s)

  run-condition_grammar : (s : Text) → c.run condition_grammar s ≡ condition_run (c.skip s)
  unfolding condition_grammar
  run-condition_grammar s = either-run _ _ s _ _ (run-compare_token (codes ">=") s) (
      either-run _ _ s _ _ (run-compare_token (codes ">") s) (
        either-run _ _ s _ _ (run-compare_token (codes "<=") s) (
          either-run _ _ s _ _ (run-compare_token (codes "<") s) (
            either-run _ _ s _ _ (run-compare_token (codes "==") s)
              (run-compare_token (codes "!=") s)))))

  -- Each comparison operator, written after what a matcher passes over and not followed by an
  -- equals sign, is read as itself, none of them as the shorter one that it starts with.
  pub condition_grammar_reads :
      (o : CompareOperator) (s rest : Text)
      → o ≢ invalid
      → starts_with rest (codes "=") ≡ false
      → c.skip s ≡ symbol o ++ rest
      → c.run condition_grammar s ≡ some (operand 1 o, rest)
  condition_grammar_reads o s rest n h q =
      run-condition_grammar s ∙ (ap condition_run q ∙ condition_run-symbol o rest n h)

-- The operators with the level that they bind at: never a modulo.
abbrev pub IsLevelled : Piece OperatorExec ExpressionLeaf → Type 0
IsLevelled (leaf l) = ⊥
IsLevelled (operand n o) =
    ((n ≡ 1) × ((o ≡ add) ⊎ (o ≡ subtract))) ⊎ ((n ≡ 2) × ((o ≡ multiply) ⊎ (o ≡ divide)))

abbrev IsLevelledRun : Option (Piece OperatorExec ExpressionLeaf × Text) → Type 0
IsLevelledRun none = Unit
IsLevelledRun (some (p, s)) = IsLevelled p

abbrev operator_run : ℕ → Text → Text → Option (Piece OperatorExec ExpressionLeaf × Text)
operator_run n t s = and_then (matched t s) (λ u s'. some (operand n (operator_exec_of u), s'))

operator_run-IsLevelledRun :
    (n : ℕ) (t s : Text)
    → IsLevelled (operand n (operator_exec_of t))
    → IsLevelledRun (operator_run n t s)
operator_run-IsLevelledRun n t s h = elim (Bool-cases (starts_with s t)) [
  | inl y ↦ rw y h
  | inr y ↦ rw y tt
]

or_run-IsLevelledRun :
    (x y : Option (Piece OperatorExec ExpressionLeaf × Text))
    → IsLevelledRun x
    → IsLevelledRun y
    → IsLevelledRun (or_run x y)
or_run-IsLevelledRun none y h k = k
or_run-IsLevelledRun (some r) y h k = h

module _ ⦃c : Copa⦄ where
  run-operator_token :
      (n : ℕ) (t s : Text) → c.run (operator_token n t) s ≡ operator_run n t (c.skip s)
  run-operator_token n t s =
      c.run-emit (λ u. operand n (operator_exec_of u)) (c.match_string t) s
      ∙ ap (λ r. and_then r (λ u s'. some (operand n (operator_exec_of u), s')))
          (c.run-match_string t s)

  operator_token-IsLevelledRun :
      (n : ℕ) (t s : Text)
      → IsLevelled (operand n (operator_exec_of t))
      → IsLevelledRun (c.run (operator_token n t) s)
  operator_token-IsLevelledRun n t s h =
      subst IsLevelledRun (sym (run-operator_token n t s))
        (operator_run-IsLevelledRun n t (c.skip s) h)

  either-IsLevelledRun :
      (r q : c.Rule (Piece OperatorExec ExpressionLeaf)) (s : Text)
      → IsLevelledRun (c.run r s)
      → IsLevelledRun (c.run q s)
      → IsLevelledRun (c.run (c.either r q) s)
  either-IsLevelledRun r q s h k =
      subst IsLevelledRun (sym (c.run-either r q s)) (or_run-IsLevelledRun _ _ h k)

  -- An operator of an expression is read as an addition or a subtraction at level 1 or as a
  -- multiplication or a division at level 2, never as a modulo.
  pub level_grammars-IsLevelled :
      (s rest : Text) (p : Piece OperatorExec ExpressionLeaf)
      → c.run (c.either level_1_grammar level_2_grammar) s ≡ some (p, rest)
      → IsLevelled p
  unfolding level_1_grammar level_2_grammar operator_exec_of
  level_grammars-IsLevelled s rest p h = subst IsLevelledRun h (
      either-IsLevelledRun level_1_grammar level_2_grammar s
        (either-IsLevelledRun _ _ s
          (operator_token-IsLevelledRun 1 (codes "+") s (inl (refl, inl refl)))
          (operator_token-IsLevelledRun 1 (codes "-") s (inl (refl, inr refl))))
        (either-IsLevelledRun _ _ s
          (operator_token-IsLevelledRun 2 (codes "*") s (inr (refl, inl refl)))
          (operator_token-IsLevelledRun 2 (codes "/") s (inr (refl, inr refl)))))
