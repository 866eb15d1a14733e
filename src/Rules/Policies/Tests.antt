-- ===== src/Rules/Policies/Tests.antt =====
-- Policies for agents and for users, on the sample tables.
use upload.Prelude.{
  ℕ, ℕ_eq, String, String_eq, Bool, true, false, none, some, List, [], ◌∷◌, ◌≡◌, ◌==◌, refl, map,
  any, All,
}
use upload.Rules.Samples.{env, tables, one}
use upload.Rules.Query.{no_filter, RuleDefinition}
use upload.Rules.Policies.{
  get_policies_for_release, get_policies_for_releases, list_policies, list_policies_for_user,
  delete_policy_for_user,
}
use upload.Rules.Policies.Bulk.{bulk-single}
use upload.Rules.Policies.Push.{at}
use upload.Rules.Policies.Users.{in_projects, list_for_user_lem, list_for_user-no_projects}
use upload.Rules.Store.{RuleRow, ok, unauthorized}

abbrev is_p : RuleRow → Bool
is_p r = r.id == "p"

bulk-single_example :
    any
      (at one.catalog_id (get_policies_for_releases env (one.catalog_id ∷ "other" ∷ []) tables))
      (λ d. is_p d.row)
    ≡ any (get_policies_for_release env one.catalog_id tables) (λ d. is_p d.row)
bulk-single_example =
    bulk-single env one.catalog_id ("other" ∷ []) one.catalog_id is_p tables refl refl

-- The pushed policy is shown as not active, and the other one is not shown.
release_run :
    map
      (λ (d : RuleDefinition). d.row.is_active)
      (get_policies_for_release env one.catalog_id tables)
    ≡ false ∷ []
unfolding get_policies_for_release
release_run = refl

abbrev if_member : Bool → List ℕ
if_member true = one.project ∷ []
if_member false = []

abbrev project_ids : String → List ℕ
project_ids email = if_member (email == "member")

abbrev ids_of_names : List String → List ℕ
ids_of_names [] = []
ids_of_names (name ∷ names) = one.project ∷ []

list_for_user_example :
    (list_policies_for_user env project_ids ids_of_names no_filter "member" tables
      ≡ (tables, ok (list_policies env no_filter (some (one.project ∷ [])) tables)))
    × All
        (λ (d : RuleDefinition). any d.releases (in_projects (one.project ∷ [])) ≡ true)
        (list_policies env no_filter (some (one.project ∷ [])) tables)
list_for_user_example =
    list_for_user_lem env project_ids ids_of_names no_filter "member" one.project [] tables refl
      refl

list_for_user-no_projects_example :
    list_policies_for_user env project_ids ids_of_names no_filter "stranger" tables
    ≡ (tables, ok (list_policies env no_filter none tables))
list_for_user-no_projects_example =
    list_for_user-no_projects env project_ids ids_of_names no_filter "stranger" tables refl refl

-- A user of no project is shown both policies, and may delete none.
stranger_run :
    map (λ (d : RuleDefinition). d.row.id) (list_policies env no_filter none tables)
    ≡ "p" ∷ "q" ∷ []
unfolding list_policies
stranger_run = refl

refused_run :
    delete_policy_for_user env project_ids ids_of_names "p" "stranger" tables
    ≡ (tables, unauthorized)
unfolding delete_policy_for_user
refused_run = refl
