-- ===== src/Rules/Policies.antt =====
-- apps/upload/src/policy.service.ts: rules of releases, as policies for users and for agents. The
-- projects of a user and of names are what the service for projects answers.
pub mod Push
pub mod Bulk
pub mod Users
mod Tests
use upload.Prelude.{
  ℕ, ℕ_eq, String, String_eq, Bool, true, false, not, ◌&&◌, Option, none, some, List, [], ◌∷◌, ◌++◌,
  ◌==◌, if◌then◌else◌, filter, filter_map, map, any, includes,
}
use upload.Storage.Rows.{Release}
use upload.Rules.Links.{ReleaseIdentifierDto}
use upload.Rules.Query.{
  Loaded, ReleaseLink, RuleQueryFilter, no_filter, find_all, find_all_for_releases, RuleDefinition,
  ReleaseIdentifier, rule_entity_to_definition,
}
use upload.Rules.Service.{
  CreateRuleDto, UpdateRuleDto, create_rule, update_rule, delete_rule, find_one_by_id,
}
use upload.Rules.Store.{
  policy, RuleRow, Tables, Env, Reply, ok, unauthorized, M, continue, ◌>>=◌, ◌>>◌, done, fail, ask,
}

-- A policy that is pushed and not active is not shown to agents.
abbrev pub is_visible : RuleRow → Bool
is_visible r = not (r.is_push && not r.is_active)

-- To an agent a pushed policy is not active.
unfoldable pub for_agent : Loaded → RuleDefinition
unfolding rule_entity_to_definition
for_agent l =
    let d = rule_entity_to_definition l in
    if l.row.is_push && l.row.is_active
    then record d { row = record d.row { is_active = false } }
    else d

abbrev pub policies_of : String → RuleQueryFilter
policies_of id = record no_filter { type = some policy; release_id = some id }

-- `result[id].push(definition)`, where `result[id]` is there.
unfoldable pub push_at : {A : Type 0} → String → A → List (String × List A) → List (String × List A)
push_at key d [] = []
push_at key d ((k, ds) ∷ result) =
    if k == key then (k, ds ++ d ∷ []) ∷ result else (k, ds) ∷ push_at key d result

-- `result[id] = []`
unfoldable pub start_at :
    {A : Type 0} → List String → List (String × List A) → List (String × List A)
start_at [] result = result
start_at (id ∷ ids) result =
    start_at ids (if any result (λ entry. entry.0 == id) then result else result ++ (id, []) ∷ [])

unfoldable pub push_release :
    {A : Type 0} → A → Option Release → List (String × List A) → List (String × List A)
unfolding push_at
push_release d none result = result
push_release d (some r) result = push_at r.catalog_id d result

-- The definition goes to each release that the rule is linked with.
unfoldable pub push_links :
    {A : Type 0} → A → List ReleaseLink → List (String × List A) → List (String × List A)
unfolding push_release
push_links d [] result = result
push_links d (l ∷ links) result = push_links d links (push_release d l.release result)

unfoldable pub push_rules :
    List Loaded → List (String × List RuleDefinition) → List (String × List RuleDefinition)
unfolding for_agent push_links
push_rules [] result = result
push_rules (l ∷ rules) result =
    push_rules rules
      (if is_visible l.row then push_links (for_agent l) l.releases result else result)

module _ (env : Env) where
  unfoldable pub create_policy : CreateRuleDto → String → ℕ → M RuleDefinition
  unfolding create_rule rule_entity_to_definition
  create_policy dto id now = do
    rule ← create_rule env (record dto { type = policy }) id now
    done (rule_entity_to_definition rule)

  unfoldable pub update_policy : String → UpdateRuleDto → M RuleDefinition
  unfolding update_rule rule_entity_to_definition
  update_policy id dto = do rule ← update_rule env id dto; done (rule_entity_to_definition rule)

  unfoldable pub get_policy : String → M RuleDefinition
  unfolding find_one_by_id rule_entity_to_definition
  get_policy id = do rule ← find_one_by_id env id; done (rule_entity_to_definition rule)

  unfoldable pub list_policies : RuleQueryFilter → Option (List ℕ) → Tables → List RuleDefinition
  unfolding find_all rule_entity_to_definition
  list_policies query project_ids s =
      map rule_entity_to_definition
        (find_all env s (record query { type = some policy }) project_ids)

  unfoldable pub get_policies_for_release : String → Tables → List RuleDefinition
  unfolding find_all for_agent
  get_policies_for_release id s =
      map for_agent
        (filter (λ (l : Loaded). is_visible l.row) (find_all env s (policies_of id) none))

  unfoldable pub get_policies_for_releases :
      List String → Tables → List (String × List RuleDefinition)
  unfolding find_all_for_releases start_at push_rules
  get_policies_for_releases [] s = []
  get_policies_for_releases (id ∷ ids) s =
      push_rules (find_all_for_releases env s (id ∷ ids)) (start_at (id ∷ ids) [])

  module _ (project_ids_of_user : String → List ℕ) (ids_of_names : List String → List ℕ) where
    unfoldable pub list_policies_for_user : RuleQueryFilter → String → M (List RuleDefinition)
    unfolding list_policies
    list_policies_for_user query email =
        if email == ""
        then fail unauthorized
        else ask (list_policies query (some (project_ids_of_user email)))

    -- A user has access to a policy with some project of theirs.
    unfoldable pub has_access : RuleDefinition → String → Bool
    has_access d email =
        any (ids_of_names (filter_map (λ (r : ReleaseIdentifier). r.project_name) d.releases))
          (includes (project_ids_of_user email))

    unfoldable pub validate_user_access_to_policy : RuleDefinition → String → M (Unit {0})
    unfolding has_access
    validate_user_access_to_policy d email =
        if email == ""
        then fail unauthorized
        else if has_access d email
        then done tt
        else fail unauthorized

    unfoldable pub get_policy_for_user : String → String → M RuleDefinition
    unfolding get_policy validate_user_access_to_policy
    get_policy_for_user id email = do
      found ← get_policy id
      validate_user_access_to_policy found email
      done found

    unfoldable pub delete_policy_for_user : String → String → M (Unit {0})
    unfolding get_policy validate_user_access_to_policy delete_rule
    delete_policy_for_user id email = do
      found ← get_policy id
      validate_user_access_to_policy found email
      delete_rule env id
