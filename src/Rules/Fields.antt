-- ===== src/Rules/Fields.antt =====
-- libs/common/src/rules/services/rule-validation.service.ts: the fields that rules may name, and
-- `syncDeviceFields` of apps/upload/src/policy.service.ts, which adds those that a device reports.
-- The engine's check of a rule and the reading of a rule that is a text are parameters.
pub mod Set
pub mod Laws
mod Tests
use upload.Prelude.{
  ℕ, ℕ_eq, suc, String, String_eq, Bool, true, false, not, ◌&&◌, Option, none, some, List, [], ◌∷◌,
  ◌==◌, if◌then◌else◌, filter, map, any, head?, includes, truthy,
}
use upload.Prelude.Sets.{add}
use upload.Config.Json.{
  Value, null, bool, number, text, array, object, Fields, empty, field, lookup,
}
use upload.Storage.Orm.{Orm}

pub record RuleField : Type 0 where
  pub id : ℕ
  pub name : String
  pub type : String
  pub label : String
  pub description : Option String

-- The table with the next key.
pub record FieldTable : Type 0 where
  pub rows : List RuleField
  pub next_id : ℕ

-- What a device or a caller reports of a field.
pub record FieldData : Type 0 where
  pub name : String
  pub type : String
  pub label : Option String
  pub description : Option String

pub data Answer : Type 0 where
  done rule_validation_failed field_not_supported field_already_exists field_not_found : Answer

abbrev pub named : String → RuleField → Bool
named name f = f.name == name

-- `obj.field`, where it is a text that is not empty.
abbrev pub field_of : Fields → Option String
field_of fields = elim (lookup "field" fields) [
  | some (text s) ↦ if s == "" then none else some s
  | _ ↦ none
]

abbrev pub add_some : Option String → List String → List String
add_some none names = names
add_some (some name) names = add name names

-- `extractFieldNames`: the names in a set that grows.
unfoldable mutual
  pub extract_field_names : Value → List String → List String
  extract_field_names null names = names
  extract_field_names (bool b) names = names
  extract_field_names (number n) names = names
  extract_field_names (text s) names = names
  extract_field_names (array xs) names = extract_from xs names
  extract_field_names (object fields) names = extract_from fields (add_some (field_of fields) names)

  pub extract_from : Fields → List String → List String
  extract_from empty names = names
  extract_from (field key v fields) names = extract_from fields (extract_field_names v names)

-- `field.label || field.name`
abbrev pub label_of : FieldData → String
label_of f = elim f.label [ none ↦ f.name | some l ↦ if l == "" then f.name else l ]

-- `field.description`, or what says which device reports the field.
abbrev pub description_of : String → FieldData → Option String
description_of reported f = if truthy f.description then f.description else some reported

module _ (orm : Orm) where
  unfoldable pub validate_fields_exist : List String → List RuleField → Answer
  validate_fields_exist [] rows = done
  validate_fields_exist (name ∷ names) rows =
      let existing =
        map (λ (f : RuleField). f.name)
          (orm.find (λ (f : RuleField). includes (name ∷ names) f.name) rows) in
      elim (filter (λ n. not (includes existing n)) (name ∷ names)) [
        | [] ↦ done
        | missing ∷ more ↦ field_not_supported
      ]

  -- What `JSON.parse` makes of a rule that is a text.
  abbrev pub parse_rule : (String → Option Value) → Value → Option Value
  parse_rule parse (text s) = parse s
  parse_rule parse rule = some rule

  -- `is_valid` is whether the engine finds nothing wrong.
  unfoldable pub validate_rule :
      (String → Option Value) → (Value → Bool) → Value → List RuleField → Answer
  unfolding validate_fields_exist extract_field_names
  validate_rule parse is_valid rule rows = elim (parse_rule parse rule) [
    | none ↦ rule_validation_failed
    | some parsed ↦
        if not (is_valid parsed)
        then rule_validation_failed
        else validate_fields_exist (extract_field_names parsed []) rows
  ]

  -- `save` of a new field.
  abbrev pub new_field : FieldData → String → Option String → FieldTable → FieldTable
  new_field f label description table = record {
    rows =
        orm.insert
          (record {
            id = table.next_id;
            name = f.name;
            type = f.type;
            label = label;
            description = description;
          })
          table.rows;
    next_id = suc table.next_id;
  }

  unfoldable pub add_rule_field :
      FieldData → String → Option String → FieldTable → FieldTable × Answer
  add_rule_field f label description table = elim (head? (orm.find (named f.name) table.rows)) [
    | some existing ↦ (table, field_already_exists)
    | none ↦ (new_field f label description table, done)
  ]

  unfoldable pub remove_rule_field : String → FieldTable → FieldTable × Answer
  remove_rule_field name table = elim (head? (orm.find (named name) table.rows)) [
    | none ↦ (table, field_not_found)
    | some found ↦
        (record table { rows = orm.delete (λ (f : RuleField). f.id == found.id) table.rows }, done)
  ]

  -- Each new field is added; one that is refused is passed over.
  unfoldable pub add_each : String → List FieldData → FieldTable → FieldTable
  unfolding add_rule_field
  add_each reported [] table = table
  add_each reported (f ∷ fields) table =
      add_each reported fields (add_rule_field f (label_of f) (description_of reported f) table).0

  unfoldable pub sync_device_fields : String → List FieldData → FieldTable → FieldTable
  unfolding add_each
  sync_device_fields reported fields table =
      let names = map (λ (f : RuleField). f.name) table.rows in
      add_each reported (filter (λ (f : FieldData). not (includes names f.name)) fields) table
