-- ===== src/Fabl/Cst.antt =====
-- The concrete syntax tree, fabko/compiler/frontend/parser/concrete_ast.hh. A node of
-- `fil::copa::ast_node` is the sequence of leaves and operators that its tree is built from: the tree
-- itself is built by the library, which is not in the repository.
use fabko.Base.{ℕ, ℤ, Bool, List, Option, if◌then◌else◌}
use fabko.Text.Join.{Text}
use fabko.Text.Codes.{codes}
use fabko.Text.Stream.{same_text}

pub data OperatorExec : Type 0 where
  none_exec add subtract multiply divide modulo : OperatorExec

pub data CompareOperator : Type 0 where
  invalid greater greater_equal less less_equal equal different : CompareOperator

pub data Visibility : Type 0 where
  private_ public_ : Visibility

pub data CompileStatus : Type 0 where
  defined declared : CompileStatus

pub data CompileUnitType : Type 0 where
  file raw : CompileUnitType

pub data Mutability : Type 0 where
  constant mutable mutable_in_scope : Mutability

pub record ActorAccessor : Type 0 where
  pub actor : Text
  pub access : Option Text

-- The operator of a token.
unfoldable pub compare_operator_of : Text → CompareOperator
compare_operator_of token =
    if same_text token (codes "==")
    then equal
    else if same_text token (codes "!=")
    then different
    else if same_text token (codes ">")
    then greater
    else if same_text token (codes ">=")
    then greater_equal
    else if same_text token (codes "<")
    then less
    else if same_text token (codes "<=")
    then less_equal
    else invalid

unfoldable pub operator_exec_of : Text → OperatorExec
operator_exec_of token =
    if same_text token (codes "+")
    then add
    else if same_text token (codes "-")
    then subtract
    else if same_text token (codes "*")
    then multiply
    else if same_text token (codes "/")
    then divide
    else if same_text token (codes "%")
    then modulo
    else none_exec

-- What a tree is built from: leaves, and operators with the level of their grammar.
pub data Piece {ℓ κ} (Operator : Type ℓ) (Leaf : Type κ) : Type (ℓ ⊔ κ) where
  leaf : Leaf → Piece Operator Leaf
  operand : ℕ → Operator → Piece Operator Leaf

pub data PreconditionLeaf : Type 0 where
  accessor_leaf : ActorAccessor → PreconditionLeaf
  number_leaf : ℤ → PreconditionLeaf

abbrev pub PreconditionAstNode : Type 0
PreconditionAstNode = List (Piece CompareOperator PreconditionLeaf)

mutual
  pub data ExpressionNode : Type 0 where
    end_node : ExpressionNode
    leaf_node : ExpressionLeaf → ExpressionNode → ExpressionNode
    operand_node : ℕ → OperatorExec → ExpressionNode → ExpressionNode

  pub data ExpressionLeaf : Type 0 where
    number_value : ℤ → ExpressionLeaf
    bool_value : Bool → ExpressionLeaf
    accessor_value : ActorAccessor → ExpressionLeaf
    identifier_value : Text → ExpressionLeaf
    parenthesised_value : ExpressionNode → ExpressionLeaf

pub record Assignment : Type 0 where
  pub lhs : ActorAccessor
  pub rhs : ExpressionNode

pub record Outcomes : Type 0 where
  pub assignments : List Assignment

pub record PrerequisitesConjunction : Type 0 where
  pub conditions : List PreconditionAstNode

pub record Capability : Type 0 where
  pub name : Text
  pub pre : PrerequisitesConjunction
  pub post : Outcomes

pub record HasStatement : Type 0 where
  pub id : Text
  pub quantity : ℤ

-- `data_type` with `custom_data_type`, whose content is of data types.
mutual
  pub data DataType : Type 0 where
    null_type : DataType
    custom_data_type : Text → Content → DataType
    has_statement : HasStatement → DataType
    capability : Capability → DataType
    capability_identifier : Text → DataType
    literal_integer : ℤ → DataType
    literal_string : Text → DataType
    literal_bool : Bool → DataType
    named_bool : Text → Bool → DataType
    named_integer : Text → ℤ → DataType
    named_string : Text → Text → DataType

  pub data Content : Type 0 where
    no_content : Content
    with_content : DataType → Content → Content
