-- ===== src/Fabl/Ir/Json.antt =====
-- The JSON forms of fabko/compiler/frontend/ir/fabl_ir.cpp. The JSON library and its macros are not part
-- of the repository: they are a parameter, with what they are documented to do.
use fabko.Base.{ℕ, List, [], ◌∷◌, Option, none, some, ◌≡◌, if◌then◌else◌, ◌==◌}
use fabko.Text.Join.{Text}
use fabko.Text.Codes.{codes}
use fabko.Text.Stream.{same_text}
use fabko.Acl.Json.{◌>>=◌}
use fabko.Fabl.Ir.{
  OperatorExec, invalid, add, subtract, multiply, divide, modulo, ConstraintOperation,
  invalid_operation, equal, different, greater_than, less_than, greater_than_or_equal,
  less_than_or_equal, ActorId,
}

-- A table of NLOHMANN_JSON_SERIALIZE_ENUM: its first entry, and the others.
pub record Table (E : Type 0) : Type 0 where
  pub first : E × Text
  pub others : List (E × Text)

abbrev pub entries : {E : Type 0} → Table E → List (E × Text)
entries t = t.first ∷ t.others

-- The name beside the first entry of a value, and the value beside the first entry of a name.
abbrev pub name_in : {E : Type 0} → (E → ℕ) → E → List (E × Text) → Option Text
name_in number x [] = none
name_in number x ((y, t) ∷ es) = if number x == number y then some t else name_in number x es

abbrev pub value_in : {E : Type 0} → Text → List (E × Text) → Option E
value_in s [] = none
value_in s ((y, t) ∷ es) = if same_text s t then some y else value_in s es

abbrev pub or_else {ℓ} : {A : Type ℓ} → A → Option A → A
or_else a none = a
or_else a (some b) = b

-- The name of the member.
pub data Member : Type 0 where
  name__member : Member

-- The library. A value or a name that is not in the table of an enumeration gives its first entry.
-- A member is written by `put` and read by `at`, which throws where it is missing.
pub record IrJson : Type 1 where
  pub Json : Type 0
  pub empty : Json
  pub put : Json → Member → Json → Json
  pub at : Json → Member → Option Json
  pub of_text : Text → Json
  pub as_text : Json → Option Text
  pub enum_to_json : {E : Type 0} → (E → ℕ) → Table E → E → Json
  pub enum_from_json : {E : Type 0} → (E → ℕ) → Table E → Json → E
  pub at-put_self : (s v : Json) (k : Member) → at (put s k v) k ≡ some v
  pub as_text-of_text : (t : Text) → as_text (of_text t) ≡ some t
  pub enum_to_json_lem :
      {E : Type 0} (number : E → ℕ) (t : Table E) (x : E)
      → enum_to_json number t x ≡ of_text (or_else t.first.1 (name_in number x (entries t)))
  pub enum_from_json_lem :
      {E : Type 0} (number : E → ℕ) (t : Table E) (s : Text)
      → enum_from_json number t (of_text s) ≡ or_else t.first.0 (value_in s (entries t))

abbrev pub operator_number : OperatorExec → ℕ
operator_number invalid = 0
operator_number add = 1
operator_number subtract = 2
operator_number multiply = 3
operator_number divide = 4
operator_number modulo = 5

abbrev pub operation_number : ConstraintOperation → ℕ
operation_number invalid_operation = 0
operation_number equal = 1
operation_number different = 2
operation_number greater_than = 3
operation_number less_than = 4
operation_number greater_than_or_equal = 5
operation_number less_than_or_equal = 6

-- The names as the source spells them.
abbrev pub operator_table : Table OperatorExec
operator_table = record {
  first = (add, codes "add");
  others =
      (subtract, codes "substract")
      ∷ (divide, codes "divide")
      ∷ (modulo, codes "modulo")
      ∷ (multiply, codes "multitply")
      ∷ [];
}

abbrev pub operation_table : Table ConstraintOperation
operation_table = record {
  first = (equal, codes "equal");
  others =
      (greater_than, codes "greater than")
      ∷ (greater_than_or_equal, codes "greater or equal than")
      ∷ (less_than, codes "less than")
      ∷ (less_than_or_equal, codes "less or equal than")
      ∷ [];
}

module _ ⦃j : IrJson⦄ where
  unfoldable pub operator_to_json : OperatorExec → j.Json
  operator_to_json x = j.enum_to_json operator_number operator_table x

  unfoldable pub operator_from_json : j.Json → OperatorExec
  operator_from_json s = j.enum_from_json operator_number operator_table s

  unfoldable pub operation_to_json : ConstraintOperation → j.Json
  operation_to_json x = j.enum_to_json operation_number operation_table x

  unfoldable pub operation_from_json : j.Json → ConstraintOperation
  operation_from_json s = j.enum_from_json operation_number operation_table s

  -- NLOHMANN_DEFINE_TYPE_NON_INTRUSIVE for `actor_id`. The other types that have a JSON form hold
  -- one that has none in the source: `source_loc`, and the `expression` of a constraint.
  unfoldable pub actor_to_json : ActorId → j.Json
  actor_to_json a = j.put j.empty name__member (j.of_text a.name_)

  unfoldable pub actor_from_json : j.Json → Option ActorId
  actor_from_json s = do v ← j.at s name__member; t ← j.as_text v; some (record { name_ = t })
