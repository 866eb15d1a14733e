-- ===== src/Rules/Service/Tests.antt =====
-- Requests about rules, on the sample tables.
use upload.Config.Json.{lookup}
use upload.Prelude.{ℕ_eq, String_eq, false, none, some, [], ◌∷◌, ◌++◌, ◌≡◌, refl, map}
use upload.Rules.Samples.{env, tables, one, by_project, new_policy}
use upload.Rules.Fields.{validate_rule}
use upload.Rules.Links.{by_name, condition_of, find_releases}
use upload.Rules.Service.{rule_of, create_rule, update_rule, delete_rule, default_rule}
use upload.Rules.Service.Laws.{create_rule-leftover, policy_for, with_rule}
use upload.Rules.Store.{RuleRow, bad_request, not_found}

create_rule-leftover_example :
    create_rule env (policy_for (new_policy []) (by_project "app" "9.9.9")) "r" 5 tables ≡ (
      with_rule env (rule_of (policy_for (new_policy []) (by_project "app" "9.9.9")) "r" 5) tables,
      bad_request,
    )
unfolding validate_rule lookup condition_of find_releases
create_rule-leftover_example =
    create_rule-leftover env (new_policy []) (by_project "app" "9.9.9")
      (by_name "app" (some "9.9.9")) "r" 5 tables refl refl refl

-- A release that is named twice is linked once.
create_run :
    (create_rule env
      (new_policy (by_project "app" "1.0.0" ∷ by_project "app" "1.0.0" ∷ []))
      "r"
      5
      tables).0.rule_releases
    ≡ tables.rule_releases ++ record { rule = "r"; release = one.catalog_id } ∷ []
unfolding create_rule lookup
create_run = refl

no_release_run : create_rule env (new_policy []) "r" 5 tables ≡ (tables, bad_request)
unfolding create_rule lookup
no_release_run = refl

-- The links of a rule go with it.
delete_run :
    (delete_rule env "p" tables).0.rule_releases
    ≡ record { rule = "q"; release = one.catalog_id } ∷ []
unfolding delete_rule
delete_run = refl

unknown_run : delete_rule env "x" tables ≡ (tables, not_found)
unfolding delete_rule
unknown_run = refl

-- A new rule raises the version.
update_run :
    map
      (λ (r : RuleRow). r.version)
      (update_rule env "p"
        (record {
          name = none;
          description = none;
          association = none;
          is_active = some false;
          is_push = none;
          rule = some default_rule;
        })
        (record tables {
          fields = record {
            rows =
                record {
                  id = 1;
                  name = "$.device.any";
                  type = "boolean";
                  label = "Any";
                  description = none;
                }
                ∷ record {
                  id = 2;
                  name = "device.any";
                  type = "boolean";
                  label = "Any";
                  description = none;
                }
                ∷ [];
            next_id = 3;
          };
        })).0.rules
    ≡ 2 ∷ 1 ∷ []
unfolding update_rule lookup
update_run = refl
