-- ===== src/Fabl/Ir.antt =====
-- The intermediate representation, fabko/compiler/frontend/ir/fabl_ir.hh.
pub mod Json
pub mod Laws
use fabko.Base.{ℕ, List}
use fabko.Text.Join.{Text}

pub data OperatorExec : Type 0 where
  invalid add subtract multiply divide modulo : OperatorExec

pub data ConstraintOperation : Type 0 where
  invalid_operation equal different greater_than less_than : ConstraintOperation
  greater_than_or_equal less_than_or_equal : ConstraintOperation

pub record SourceLoc : Type 0 where
  pub line : ℕ
  pub source_name : Text

pub record ActorId : Type 0 where
  pub name_ : Text

pub record Resource : Type 0 where
  pub name : Text
  pub loc : SourceLoc

-- The source has no member in it.
pub data Expression : Type 0 where
  expression : Expression

pub record StateVar : Type 0 where
  pub actor : ActorId
  pub rsc : Resource

pub record Constraint : Type 0 where
  pub lhs : Expression
  pub operation : ConstraintOperation
  pub rhs : Expression
  pub loc : SourceLoc

pub record Effect : Type 0 where
  pub lhs : StateVar
  pub op : OperatorExec
  pub rhs : StateVar
  pub loc : SourceLoc

pub record Capability : Type 0 where
  pub name : Text
  pub actor : ActorId
  pub target : ActorId
  pub preconditions : List Constraint
  pub effects : List Effect
  pub loc : SourceLoc

pub data OptiType : Type 0 where
  minimize maximize : OptiType

pub record Optimization : Type 0 where
  pub opti_type : OptiType
  pub rsc : Resource

pub record Request : Type 0 where
  pub actor : ActorId
  pub rsc : List Resource
  pub opti : Optimization
  pub loc : SourceLoc

pub record Program : Type 0 where
  pub actors : List ActorId
  pub resources : List Resource
  pub capabilities : List Capability
  pub req : Request
