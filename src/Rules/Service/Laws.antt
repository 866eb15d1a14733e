-- ===== src/Rules/Service/Laws.antt =====
-- What a refused request leaves in the tables of libs/common/src/rules/services/rule.service.ts.
use upload.Prelude.{ℕ, ℕ_eq, String, String_eq, [], ◌∷◌, ◌≡◌, refl}
use upload.Rules.Fields.{validate_rule}
use upload.Rules.Links.{
  ReleaseIdentifierDto, Condition, condition_of, conditions_of, find_releases, associate_releases,
  create_associations,
}
use upload.Rules.Service.{CreateRuleDto, rule_of, create_rule, check_rule, checked}
use upload.Rules.Store.{policy, RuleRow, Tables, Env, ok, bad_request}

-- A policy for one release.
abbrev pub policy_for : CreateRuleDto → ReleaseIdentifierDto → CreateRuleDto
policy_for dto r = record dto {
  type = policy;
  association = record dto.association { releases = r ∷ [] };
}

-- The tables with the rule.
abbrev pub with_rule : Env → RuleRow → Tables → Tables
with_rule env row s = record s { rules = env.orm.insert row s.rules }

associate-missing :
    (env : Env) (rule : String) (r : ReleaseIdentifierDto) (c : Condition) (s : Tables)
    → condition_of env r ≡ ok c
    → find_releases env (c ∷ []) s ≡ []
    → associate_releases env rule (r ∷ []) s ≡ (s, bad_request)
unfolding associate_releases
associate-missing env rule r c s asks missing = rw (conditions_of, asks, missing) refl

-- A policy whose rule is valid, for one release, which is not there: the request is refused, and the
-- policy is in the table all the same, with no link to a release.
pub create_rule-leftover :
    (env : Env) (dto : CreateRuleDto) (r : ReleaseIdentifierDto) (c : Condition) (id : String)
    (now : ℕ) (s : Tables)
    → checked (validate_rule env.orm env.parse_json env.is_valid dto.rule s.fields.rows) ≡ ok tt
    → condition_of env r ≡ ok c
    → find_releases env (c ∷ []) (with_rule env (rule_of (policy_for dto r) id now) s) ≡ []
    → create_rule env (policy_for dto r) id now s
      ≡ (with_rule env (rule_of (policy_for dto r) id now) s, bad_request)
unfolding create_rule check_rule create_associations
create_rule-leftover env dto r c id now s valid asks missing =
    rw
      (
        valid,
        associate-missing env id r c (with_rule env (rule_of (policy_for dto r) id now) s) asks
            missing,
      )
      refl
