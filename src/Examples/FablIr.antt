-- ===== src/Examples/FablIr.antt =====
-- The theorems on the intermediate representation of FABL, applied to JSON values that are chains of
-- members.
use fabko.Base.{Option, none, some, ◌≡◌, refl}
use fabko.Text.Join.{Text}
use fabko.Fabl.Ir.{different}
use fabko.Fabl.Ir.Json.{
  Table, entries, name_in, value_in, or_else, Member, IrJson, operation_to_json,
  operation_from_json,
}
use fabko.Fabl.Ir.Laws.{read_operation, operation_from_json-to_json}

data Value : Type 0 where
  nothing : Value
  text_value : Text → Value
  member_value : Member → Value → Value → Value

abbrev value_at : Value → Member → Option Value
value_at nothing k = none
value_at (text_value t) k = none
value_at (member_value k' v s) k = some v

abbrev text_of : Value → Option Text
text_of nothing = none
text_of (text_value t) = some t
text_of (member_value k v s) = none

abbrev enum_of : {E : Type 0} → Table E → Option Text → E
enum_of t none = t.first.0
enum_of t (some s) = or_else t.first.0 (value_in s (entries t))

instance value_json : IrJson
value_json = record {
  Json = Value;
  empty = nothing;
  put = λ s k v. member_value k v s;
  at = value_at;
  of_text = text_value;
  as_text = text_of;
  enum_to_json = λ number t x. text_value (or_else t.first.1 (name_in number x (entries t)));
  enum_from_json = λ number t s. enum_of t (text_of s);
  at-put_self = λ s v k. refl;
  as_text-of_text = λ t. refl;
  enum_to_json_lem = λ number t x. refl;
  enum_from_json_lem = λ number t s. refl;
}

operation_from_json-to_json_example :
    operation_from_json ⦃j = value_json⦄ (operation_to_json ⦃j = value_json⦄ different)
    ≡ read_operation different
operation_from_json-to_json_example = operation_from_json-to_json ⦃j = value_json⦄ different
