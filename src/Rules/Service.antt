-- ===== src/Rules/Service.antt =====
-- `createRule`, `updateRule` and `deleteRule` of libs/common/src/rules/services/rule.service.ts, and
-- the default rule. A new rule's key and time are arguments.
pub mod Laws
mod Tests
use upload.Prelude.{
  ℕ, ℕ_eq, ◌+◌, String, String_eq, Bool, true, false, not, ◌&&◌, ◌||◌, Option, none, some, List, [],
  ◌∷◌, ◌++◌, ◌==◌, if◌then◌else◌, filter, map, map_where, any, head?,
}
use upload.Config.Json.{Value, null, bool, number, text, array, object, Fields, empty, field}
use upload.Storage.Orm.{Orm}
use upload.Rules.Fields.{Answer, validate_rule}
use upload.Rules.Links.{
  RuleAssociation, or_else, is_empty, create_associations, remove_associations, update_associations,
}
use upload.Rules.Query.{Loaded, load}
use upload.Rules.Store.{
  RuleType, policy, restriction, RuleRow, Tables, Env, Reply, ok, bad_request, not_found, refused,
  M, continue, ◌>>=◌, ◌>>◌, done, fail, ask, change,
}

pub record CreateRuleDto : Type 0 where
  pub name : String
  pub description : Option String
  pub type : RuleType
  pub association : RuleAssociation
  pub is_active : Option Bool
  pub is_push : Option Bool
  pub rule : Value

pub record UpdateRuleDto : Type 0 where
  pub name : Option String
  pub description : Option String
  pub association : Option RuleAssociation
  pub is_active : Option Bool
  pub is_push : Option Bool
  pub rule : Option Value

abbrev pub default_rule_id : String
default_rule_id = "00000000-0000-0000-0000-000000000001"

abbrev any_device : String → Value
any_device name =
    object (
      field "field" (text name)
        (field "value" (bool true) (field "operator" (text "equals") empty)))

-- The condition with and without "$.".
abbrev pub default_rule : Value
default_rule = object (
    field "conditions"
      (array (
        field "0"
          (object (
            field "or"
              (array
                (field "0" (any_device "$.device.any") (field "1" (any_device "device.any") empty)))
              empty))
          empty))
      empty)

abbrev pub default_row : ℕ → RuleRow
default_row now = record {
  id = default_rule_id;
  name = "Allow All Devices";
  description =
      some
        "Default policy that allows all devices to download a component. This rule is automatically applied to all existing and new releases unless manually removed.";
  type = policy;
  version = 1;
  is_active = true;
  is_push = false;
  rule = default_rule;
  created_at = now;
}

-- `if (updateRuleDto.rule)`, where a number is its printed form.
abbrev pub truthy_value : Option Value → Bool
truthy_value none = false
truthy_value (some null) = false
truthy_value (some (bool b)) = b
truthy_value (some (number n)) = not (n == "0")
truthy_value (some (text s)) = not (s == "")
truthy_value _ = true

abbrev pub of_id : String → RuleRow → Bool
of_id id r = r.id == id

-- The answer of a check as an exception.
abbrev pub checked : Answer → Reply (Unit {0})
checked Answer.done = ok tt
checked a = refused a

-- Whether a new rule of a type may have these links.
unfoldable pub may_associate : RuleType → RuleAssociation → Bool
may_associate policy a = not (is_empty a.releases)
may_associate restriction a =
    not (is_empty a.device_type_names) || not (is_empty a.device_ids) || not (is_empty a.os_types)

unfoldable pub rule_of : CreateRuleDto → String → ℕ → RuleRow
rule_of dto id now = record {
  id = id;
  name = dto.name;
  description = dto.description;
  type = dto.type;
  version = 1;
  is_active = or_else dto.is_active true;
  is_push = or_else dto.is_push false;
  rule = dto.rule;
  created_at = now;
}

-- The fields of an update that are given; a rule that counts as given raises the version.
unfoldable pub updated : UpdateRuleDto → RuleRow → RuleRow
updated dto r = record r {
  name = or_else dto.name r.name;
  description = elim dto.description [ none ↦ r.description | some d ↦ some d ];
  is_active = or_else dto.is_active r.is_active;
  is_push = or_else dto.is_push r.is_push;
  rule = or_else dto.rule r.rule;
  version = if truthy_value dto.rule then r.version + 1 else r.version;
}

module _ (env : Env) where
  unfoldable pub find_one_by_id : String → M Loaded
  unfolding load
  find_one_by_id id = do
    found ← ask (λ s. head? (env.orm.find (of_id id) s.rules))
    elim found [ none ↦ fail not_found | some row ↦ ask (λ s. load env s row) ]

  unfoldable pub check_rule : Value → M (Unit {0})
  unfolding validate_rule
  check_rule rule s =
      (s, checked (validate_rule env.orm env.parse_json env.is_valid rule s.fields.rows))

  unfoldable pub create_rule : CreateRuleDto → String → ℕ → M Loaded
  unfolding check_rule may_associate rule_of create_associations find_one_by_id
  create_rule dto id now = do
    check_rule dto.rule
    if may_associate dto.type dto.association then done tt else fail bad_request
    change (λ s. record s { rules = env.orm.insert (rule_of dto id now) s.rules })
    create_associations env id dto.association
    find_one_by_id id

  abbrev pub check_given : Option Value → M (Unit {0})
  check_given rule = if truthy_value rule then check_rule (or_else rule null) else done tt

  abbrev pub associate_given : String → Option RuleAssociation → M (Unit {0})
  associate_given id none = done tt
  associate_given id (some a) = update_associations env id a

  unfoldable pub update_rule : String → UpdateRuleDto → M Loaded
  unfolding check_rule updated update_associations find_one_by_id
  update_rule id dto = do
    rule ← find_one_by_id id
    check_given dto.rule
    change (λ s. record s {
      rules = (env.orm.update (of_id rule.row.id) (λ r. updated dto rule.row) s.rules).0;
    })
    associate_given rule.row.id dto.association
    find_one_by_id id

  -- The links of a rule go with it.
  unfoldable pub delete_rule : String → M (Unit {0})
  unfolding find_one_by_id remove_associations
  delete_rule id = do
    rule ← find_one_by_id id
    change (λ s.
        remove_associations env rule.row.id
          (record s { rules = env.orm.delete (of_id rule.row.id) s.rules }))

  -- `onModuleInit`: the rule that allows all devices, whose content is renewed where it is there.
  unfoldable pub seed_default_rule : ℕ → Tables → Tables
  seed_default_rule now s = record s {
    rules =
        env.orm.upsert (of_id default_rule_id) (λ r. record r { rule = default_rule })
          (default_row now) s.rules;
  }
