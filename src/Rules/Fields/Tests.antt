-- ===== src/Rules/Fields/Tests.antt =====
-- The fields of rules, from a table with one of them.
use upload.Prelude.{
  ℕ_eq, String, String_eq, true, Option, some, none, List, [], ◌∷◌, ◌≡◌, refl, arith,
}
use upload.Storage.Orm.{list_orm, list_orm-IsSql}
use upload.Config.Json.{Value, text, array, object, empty, field, lookup}
use upload.Rules.Fields.{
  RuleField, FieldTable, FieldData, done, field_already_exists, field_not_found,
  field_not_supported, rule_validation_failed, validate_rule, add_rule_field, remove_rule_field,
  sync_device_fields,
}
use upload.Rules.Fields.Set.{
  Call, add_field, remove_field, sync_fields, run_all, all_on_set, names_of, IsTable,
}
use upload.Rules.Fields.Laws.{run_all_refines}

abbrev any_device : RuleField
any_device = record {
  id = 1;
  name = "$.device.any";
  type = "boolean";
  label = "Any device";
  description = none;
}

abbrev table : FieldTable
table = record { rows = any_device ∷ []; next_id = 2 }

table-IsTable : IsTable table
table-IsTable = record {
  names_distinct = (tt, tt);
  ids_distinct = (tt, tt);
  ids_below = (omega arith, tt);
}

abbrev battery : FieldData
battery = record { name = "$.battery"; type = "number"; label = some ""; description = none }

abbrev calls : List Call
calls =
    add_field battery "Battery" none
    ∷ add_field battery "Battery" none
    ∷ sync_fields "reported" (battery ∷ record battery { name = "$.disk" } ∷ [])
    ∷ remove_field "$.battery"
    ∷ remove_field "$.battery"
    ∷ []

run_all_refines_example :
    IsTable (run_all list_orm calls table).0
    × (names_of (run_all list_orm calls table).0 ≡ (all_on_set calls (names_of table)).0)
    × ((run_all list_orm calls table).1 ≡ (all_on_set calls (names_of table)).1)
run_all_refines_example = run_all_refines list_orm calls table list_orm-IsSql table-IsTable

answers_run :
    (run_all list_orm calls table).1
    ≡ done ∷ field_already_exists ∷ done ∷ done ∷ field_not_found ∷ []
unfolding run_all add_rule_field remove_rule_field sync_device_fields
answers_run = refl

-- A rule on a device's field.
abbrev rule : String → Value
rule name = object (
    field "conditions"
      (array (
        field "0"
          (object (
            field "and" (array (field "0" (object (field "field" (text name) empty)) empty)) empty))
          empty))
      empty)

abbrev parse : String → Option Value
parse s = none

supported_run : validate_rule list_orm parse (λ v. true) (rule "$.device.any") table.rows ≡ done
unfolding validate_rule lookup
supported_run = refl

unsupported_run :
    validate_rule list_orm parse (λ v. true) (rule "$.disk") table.rows ≡ field_not_supported
unfolding validate_rule lookup
unsupported_run = refl

unparsed_run :
    validate_rule list_orm parse (λ v. true) (text "{") table.rows ≡ rule_validation_failed
unfolding validate_rule
unparsed_run = refl
