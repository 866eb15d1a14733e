-- ===== src/Rules/Fields/Set.antt =====
-- The fields that rules may name, as a set of names: what the table of
-- libs/common/src/rules/services/rule-validation.service.ts is to do.
use upload.Prelude.{
  ℕ_eq, ◌<◌, String, String_eq, Bool, not, ◌&&◌, ◌||◌, Option, List, [], ◌∷◌, ◌==◌, if◌then◌else◌,
  any, All, Distinct,
}
use upload.Storage.Orm.{Orm}
use upload.Rules.Fields.{
  RuleField, FieldTable, FieldData, Answer, done, field_already_exists, field_not_found, named,
  add_rule_field, remove_rule_field, sync_device_fields,
}

-- A call about the fields: a new one with its label and description, the removal of one, and what a
-- device reports.
pub data Call : Type 0 where
  add_field : FieldData → String → Option String → Call
  remove_field : String → Call
  sync_fields : String → List FieldData → Call

unfoldable pub run : Orm → Call → FieldTable → FieldTable × Answer
run orm (add_field f label description) table = add_rule_field orm f label description table
run orm (remove_field name) table = remove_rule_field orm name table
run orm (sync_fields reported fields) table = (sync_device_fields orm reported fields table, done)

-- The same call on a set.
unfoldable pub on_set : Call → (String → Bool) → (String → Bool) × Answer
on_set (add_field f label description) names =
    if names f.name then (names, field_already_exists) else (λ n. names n || f.name == n, done)
on_set (remove_field name) names =
    if names name then (λ n. names n && not (n == name), done) else (names, field_not_found)
on_set (sync_fields reported fields) names = (λ n. names n || any fields (λ f. f.name == n), done)

-- Any calls in a row, with their answers.
unfoldable pub run_all : Orm → List Call → FieldTable → FieldTable × List Answer
unfolding run
run_all orm [] table = (table, [])
run_all orm (c ∷ calls) table =
    let first = run orm c table in
    let rest = run_all orm calls first.0 in (rest.0, first.1 ∷ rest.1)

unfoldable pub all_on_set : List Call → (String → Bool) → (String → Bool) × List Answer
unfolding on_set
all_on_set [] names = (names, [])
all_on_set (c ∷ calls) names =
    let first = on_set c names in let rest = all_on_set calls first.0 in (rest.0, first.1 ∷ rest.1)

-- The set of the names in the table.
abbrev pub names_of : FieldTable → String → Bool
names_of table n = any table.rows (named n)

abbrev pub same_name : RuleField → RuleField → Bool
same_name a b = a.name == b.name

abbrev pub same_id : RuleField → RuleField → Bool
same_id a b = a.id == b.id

-- The unique columns, and the sequence of the keys.
pub record IsTable (table : FieldTable) : Type 0 where
  pub names_distinct : Distinct same_name table.rows
  pub ids_distinct : Distinct same_id table.rows
  pub ids_below : All (λ (f : RuleField). f.id < table.next_id) table.rows
