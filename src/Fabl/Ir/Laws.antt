-- ===== src/Fabl/Ir/Laws.antt =====
-- What the JSON forms of the intermediate representation keep.
use fabko.Base.{ℕ, ◌≡◌, refl, ap, ◌∙◌, some}
use fabko.Fabl.Ir.{
  OperatorExec, invalid, add, subtract, multiply, divide, modulo, ConstraintOperation,
  invalid_operation, equal, different, greater_than, less_than, greater_than_or_equal,
  less_than_or_equal, ActorId,
}
use fabko.Fabl.Ir.Json.{
  Table, entries, name_in, value_in, or_else, IrJson, operator_number, operation_number,
  operator_table, operation_table, operator_to_json, operator_from_json, operation_to_json,
  operation_from_json, actor_to_json, actor_from_json,
}

-- What is read of a written operator.
abbrev pub read_operator : OperatorExec → OperatorExec
read_operator invalid = add
read_operator add = add
read_operator subtract = subtract
read_operator multiply = multiply
read_operator divide = divide
read_operator modulo = modulo

abbrev pub read_operation : ConstraintOperation → ConstraintOperation
read_operation invalid_operation = equal
read_operation equal = equal
read_operation different = equal
read_operation greater_than = greater_than
read_operation less_than = less_than
read_operation greater_than_or_equal = greater_than_or_equal
read_operation less_than_or_equal = less_than_or_equal

module _ ⦃j : IrJson⦄ where
  enum_from_json-to_json :
      {E : Type 0} (number : E → ℕ) (t : Table E) (x : E)
      → j.enum_from_json number t (j.enum_to_json number t x)
        ≡ or_else t.first.0
            (value_in (or_else t.first.1 (name_in number x (entries t))) (entries t))
  enum_from_json-to_json number t x =
      ap (j.enum_from_json number t) (j.enum_to_json_lem number t x)
      ∙ j.enum_from_json_lem number t (or_else t.first.1 (name_in number x (entries t)))

  -- An operator
  pub operator_from_json-to_json :
      (x : OperatorExec) → operator_from_json (operator_to_json x) ≡ read_operator x
  unfolding operator_from_json operator_to_json
  operator_from_json-to_json x = enum_from_json-to_json operator_number operator_table x ∙ read x
    where
      read :
          (x : OperatorExec)
          → or_else operator_table.first.0 (
              value_in
                (or_else operator_table.first.1
                  (name_in operator_number x (entries operator_table)))
                (entries operator_table))
            ≡ read_operator x
      read invalid = refl
      read add = refl
      read subtract = refl
      read multiply = refl
      read divide = refl
      read modulo = refl

  -- A comparison that is written as JSON is read back as itself, except the invalid one and the
  -- inequality, which are both read back as equality.
  pub operation_from_json-to_json :
      (x : ConstraintOperation) → operation_from_json (operation_to_json x) ≡ read_operation x
  unfolding operation_from_json operation_to_json
  operation_from_json-to_json x = enum_from_json-to_json operation_number operation_table x ∙ read x
    where
      read :
          (x : ConstraintOperation)
          → or_else operation_table.first.0 (
              value_in
                (or_else operation_table.first.1
                  (name_in operation_number x (entries operation_table)))
                (entries operation_table))
            ≡ read_operation x
      read invalid_operation = refl
      read equal = refl
      read different = refl
      read greater_than = refl
      read less_than = refl
      read greater_than_or_equal = refl
      read less_than_or_equal = refl

  actor_from_json-to_json : (a : ActorId) → actor_from_json (actor_to_json a) ≡ some a
  unfolding actor_from_json actor_to_json
  actor_from_json-to_json a = rw (j.at-put_self, j.as_text-of_text) refl
