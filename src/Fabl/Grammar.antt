-- ===== src/Fabl/Grammar.antt =====
-- The grammar of FABL, fabko/compiler/frontend/parser/fabl_grammar.hh: each `rules()` with the syntax
-- tree that its `convertor()` fills.
pub mod Operators
pub mod Actor
use fabko.Base.{ℕ, ℤ, Bool, true, false, List, [], ◌∷◌, Option, some}
use fabko.Text.Join.{Text}
use fabko.Text.Codes.{codes}
use fabko.Fabl.Copa.{Copa}
use fabko.Fabl.Cst.{
  ActorAccessor, OperatorExec, operator_exec_of, CompareOperator, compare_operator_of, Piece, leaf,
  operand, PreconditionLeaf, accessor_leaf, number_leaf, PreconditionAstNode, ExpressionNode,
  end_node, leaf_node, operand_node, ExpressionLeaf, number_value, bool_value, accessor_value,
  identifier_value, parenthesised_value, Assignment, Outcomes, PrerequisitesConjunction, Capability,
  HasStatement, DataType, capability, capability_identifier, has_statement, custom_data_type,
  Content, no_content, with_content,
}

abbrev pub accessor_of : Text × Option Text → ActorAccessor
accessor_of (a, m) = record { actor = a; access = m }

abbrev pub strict_accessor_of : Text × (ℕ × Text) → ActorAccessor
strict_accessor_of (a, (p, m)) = record { actor = a; access = some m }

abbrev pub after_point : ℕ × Text → Text
after_point (p, m) = m

abbrev pub node_of : List (Piece OperatorExec ExpressionLeaf) → ExpressionNode
node_of [] = end_node
node_of (leaf l ∷ ps) = leaf_node l (node_of ps)
node_of (operand n o ∷ ps) = operand_node n o (node_of ps)

abbrev pub precondition_of :
    ActorAccessor × (Piece CompareOperator PreconditionLeaf × (ℤ × ℕ)) → PreconditionAstNode
precondition_of (a, (o, (n, end))) = leaf (accessor_leaf a) ∷ o ∷ leaf (number_leaf n) ∷ []

abbrev pub assignment_of : ActorAccessor × (ℕ × (ExpressionNode × ℕ)) → Assignment
assignment_of (a, (sign, (v, end))) = record { lhs = a; rhs = v }

abbrev pub conjunction_of : Text × List PreconditionAstNode → PrerequisitesConjunction
conjunction_of (keyword, cs) = record { conditions = cs }

abbrev pub outcomes_of : Text × List Assignment → Outcomes
outcomes_of (keyword, xs) = record { assignments = xs }

abbrev pub capability_of : Text × (Text × ((PrerequisitesConjunction × Outcomes) × ℕ)) → Capability
capability_of (keyword, (name, ((pre, post), end))) = record { name = name; pre = pre; post = post }

abbrev pub has_of : Text × (ℤ × (Text × ℕ)) → HasStatement
has_of (keyword, (n, (x, end))) = record { id = x; quantity = n }

abbrev pub content_of : List DataType → Content
content_of [] = no_content
content_of (d ∷ ds) = with_content d (content_of ds)

abbrev pub actor_of : Text × (Text × (List DataType × ℕ)) → DataType
actor_of (keyword, (name, (ds, end))) = custom_data_type name (content_of ds)

-- `fabl::ast_object`, of the declarations in their order; the member for debugging is left out.
pub data Declaration : Type 0 where
  actor_declaration : DataType → Declaration
  capability_declaration : Capability → Declaration

pub record FablProgram : Type 0 where
  pub actors : List DataType
  pub capabilities : List Capability

abbrev pub add_declaration : Declaration → FablProgram → FablProgram
add_declaration (actor_declaration a) p = record p { actors = a ∷ p.actors }
add_declaration (capability_declaration k) p = record p { capabilities = k ∷ p.capabilities }

abbrev pub program_of : List Declaration → FablProgram
program_of [] = record { actors = []; capabilities = [] }
program_of (d ∷ ds) = add_declaration d (program_of ds)

module _ ⦃c : Copa⦄ where
  abbrev pub semicol : c.Rule ℕ
  semicol = c.match_char 59

  abbrev pub match_point : c.Rule ℕ
  match_point = c.match_char 46

  abbrev pub match_actor : c.Rule Text
  match_actor = c.match_string (codes "actor")

  abbrev pub match_can : c.Rule Text
  match_can = c.match_string (codes "can")

  abbrev pub match_has : c.Rule Text
  match_has = c.match_string (codes "has")

  abbrev pub match_capability : c.Rule Text
  match_capability = c.match_string (codes "capability")

  abbrev pub match_pre : c.Rule Text
  match_pre = c.match_string (codes "pre")

  abbrev pub match_post : c.Rule Text
  match_post = c.match_string (codes "post")

  unfoldable pub bool_literal_grammar : c.Rule Bool
  bool_literal_grammar =
      c.either (c.emit (λ t. true) (c.match_string (codes "true")))
        (c.emit (λ t. false) (c.match_string (codes "false")))

  unfoldable pub member_accessor_grammar : c.Rule ActorAccessor
  member_accessor_grammar = c.emit accessor_of (
      c.both c.match_identifier
        (c.may (c.emit after_point (c.both match_point c.match_identifier))))

  unfoldable pub strict_member_accessor_grammar : c.Rule ActorAccessor
  strict_member_accessor_grammar =
      c.emit strict_accessor_of (c.both c.match_identifier (c.both match_point c.match_identifier))

  -- A token as an operator, at the level of its grammar.
  abbrev pub operator_token : ℕ → Text → c.Rule (Piece OperatorExec ExpressionLeaf)
  operator_token level t = c.emit (λ s. operand level (operator_exec_of s)) (c.match_string t)

  unfoldable pub level_2_grammar : c.Rule (Piece OperatorExec ExpressionLeaf)
  level_2_grammar = c.either (operator_token 2 (codes "*")) (operator_token 2 (codes "/"))

  unfoldable pub level_1_grammar : c.Rule (Piece OperatorExec ExpressionLeaf)
  level_1_grammar = c.either (operator_token 1 (codes "+")) (operator_token 1 (codes "-"))

  -- The leaves, where an expression is read by the rule that is given.
  unfoldable pub base_grammar : c.Rule ExpressionNode → c.Rule (Piece OperatorExec ExpressionLeaf)
  base_grammar expression = c.emit leaf (
      c.either (c.emit number_value c.match_number) (
        c.either (c.emit bool_value bool_literal_grammar) (
          c.either (c.emit accessor_value strict_member_accessor_grammar) (
            c.either (c.emit identifier_value c.match_identifier)
              (c.parenthesised (c.emit parenthesised_value expression))))))

  unfoldable pub expression_grammar : c.Rule ExpressionNode
  expression_grammar = c.recursive λ expression.
      c.emit node_of
        (c.list (c.either (base_grammar expression) (c.either level_1_grammar level_2_grammar)))

  abbrev pub compare_token : Text → c.Rule (Piece CompareOperator PreconditionLeaf)
  compare_token t = c.emit (λ s. operand 1 (compare_operator_of s)) (c.match_string t)

  unfoldable pub condition_grammar : c.Rule (Piece CompareOperator PreconditionLeaf)
  condition_grammar = c.either (compare_token (codes ">=")) (
      c.either (compare_token (codes ">")) (
        c.either (compare_token (codes "<=")) (
          c.either (compare_token (codes "<"))
            (c.either (compare_token (codes "==")) (compare_token (codes "!="))))))

  unfoldable pub precondition_statement : c.Rule PreconditionAstNode
  precondition_statement =
      c.emit precondition_of
        (c.both member_accessor_grammar (c.both condition_grammar (c.both c.match_number semicol)))

  unfoldable pub capability_pre_statement : c.Rule PrerequisitesConjunction
  capability_pre_statement =
      c.emit conjunction_of (c.both match_pre (c.bracketed (c.list precondition_statement)))

  unfoldable pub assignment_statement : c.Rule Assignment
  assignment_statement = c.emit assignment_of (
      c.both member_accessor_grammar (c.both (c.match_char 61) (c.both expression_grammar semicol)))

  unfoldable pub capability_post_statement : c.Rule Outcomes
  capability_post_statement =
      c.emit outcomes_of (c.both match_post (c.bracketed (c.list assignment_statement)))

  unfoldable pub capability_definition : c.Rule Capability
  capability_definition = c.emit capability_of (
      c.both match_capability (
        c.both c.match_identifier (
          c.both (c.bracketed (c.both capability_pre_statement capability_post_statement))
            semicol)))

  abbrev pub match_capability_identifier : c.Rule DataType
  match_capability_identifier =
      c.emit (λ (p : Text × ℕ). capability_identifier p.0) (c.both c.match_identifier semicol)

  unfoldable pub actor_can_statement : c.Rule DataType
  actor_can_statement =
      c.emit (λ (p : Text × DataType). p.1)
        (c.both match_can
          (c.either (c.emit capability capability_definition) match_capability_identifier))

  unfoldable pub actor_has_statement : c.Rule HasStatement
  actor_has_statement =
      c.emit has_of (c.both match_has (c.both c.match_number (c.both c.match_identifier semicol)))

  unfoldable pub actor_content : c.Rule DataType
  actor_content = c.either (c.emit has_statement actor_has_statement) actor_can_statement

  unfoldable pub actor_definition : c.Rule DataType
  actor_definition = c.emit actor_of (
      c.both match_actor
        (c.both c.match_identifier (c.both (c.bracketed (c.list actor_content)) semicol)))

  unfoldable pub fabl : c.Rule FablProgram
  fabl = c.emit program_of (
      c.list (
        c.either (c.emit actor_declaration actor_definition)
          (c.emit capability_declaration capability_definition)))
