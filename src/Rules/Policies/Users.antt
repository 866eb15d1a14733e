-- ===== src/Rules/Policies/Users.antt =====
-- Which policies apps/upload/src/policy.service.ts lists for a user.
use upload.Prelude.{
  ℕ, ℕ_eq, String, String_eq, Bool, true, false, ◌&&◌, none, some, List, [], ◌∷◌, ◌==◌, ◌≡◌, refl,
  ◌∙◌, arith, filter, map, any, All, includes, Bool-cases, inl, inr, any-map, fun_ext,
}
use upload.Rules.Query.{
  Loaded, ReleaseLink, RuleQueryFilter, find_all, of_project, of_release, where_some, given,
  project_filter, select_links, is_selected, is_kept, load, RuleDefinition, ReleaseIdentifier,
  rule_entity_to_definition, identifier_of, of_query,
}
use upload.Rules.Policies.{list_policies, list_policies_for_user}
use upload.Rules.Store.{policy, Tables, Env, ok}

-- The release of a definition is of one of the projects.
abbrev pub in_projects : List ℕ → ReleaseIdentifier → Bool
in_projects ids r = elim r.project_id [ none ↦ false | some id ↦ includes ids id ]

in_projects-identifier_of :
    (ids : List ℕ) (l : ReleaseLink) → in_projects ids (identifier_of l) ≡ of_project ids l
in_projects-identifier_of ids l = ground arith

-- Of what a filter leaves, some element passes its test.
kept-any :
    {A : Type 0} (p q : A → Bool) (xs : List A)
    → is_kept true (filter (λ x. p x && q x) xs) ≡ true
    → any (filter (λ x. p x && q x) xs) p ≡ true
kept-any p q [] h = cc
kept-any p q (x ∷ xs) h = elim (Bool-cases (p x)) [
  | inr out ↦ rw out (kept-any p q xs (rw out at h))
  | inl hit ↦ elim (Bool-cases (q x)) [
    | inl also ↦ rw (hit, also) (rw hit refl)
    | inr other ↦ rw (hit, other) (kept-any p q xs (rw (hit, other) at h))
  ]
]

first-true : (a b c d e f : Bool) → (a && b && c && d && e && f) ≡ true → a ≡ true
first-true a b c d e f h = ground arith

selected-in_projects :
    (query : RuleQueryFilter) (id : ℕ) (ids : List ℕ) (loaded : List Loaded)
    → All
        (λ (d : RuleDefinition). any d.releases (in_projects (id ∷ ids)) ≡ true)
        (map rule_entity_to_definition (
          filter
            (is_selected (record query { type = some policy }) (some (id ∷ ids)))
            (map (select_links (record query { type = some policy }) (some (id ∷ ids))) loaded)))
unfolding is_selected select_links project_filter rule_entity_to_definition
selected-in_projects query id ids [] = tt
selected-in_projects query id ids (l ∷ loaded) =
    elim (Bool-cases (
      is_selected (record query { type = some policy }) (some (id ∷ ids))
        (select_links (record query { type = some policy }) (some (id ∷ ids)) l))) [
          | inr out ↦ rw out (selected-in_projects query id ids loaded)
          | inl selected ↦
              let kept =
                kept-any (of_project (id ∷ ids)) (where_some (given query.release_id) of_release)
                  l.releases (first-true _ _ _ _ _ _ selected) in
              rw selected (
                any-map identifier_of (in_projects (id ∷ ids))
                      (select_links (record query { type = some policy }) (some (id ∷ ids))
                        l).releases
                    ∙ rw (fun_ext (in_projects-identifier_of (id ∷ ids))) kept,
                selected-in_projects query id ids loaded,
              )
        ]

-- For a signed-in user with some projects, what is listed are policies with a release of one of them.
pub list_for_user_lem :
    (env : Env) (project_ids_of_user : String → List ℕ) (ids_of_names : List String → List ℕ)
    (query : RuleQueryFilter) (email : String) (id : ℕ) (ids : List ℕ) (s : Tables)
    → (email == "") ≡ false
    → project_ids_of_user email ≡ id ∷ ids
    → (list_policies_for_user env project_ids_of_user ids_of_names query email s
        ≡ (s, ok (list_policies env query (some (id ∷ ids)) s)))
      × All
          (λ (d : RuleDefinition). any d.releases (in_projects (id ∷ ids)) ≡ true)
          (list_policies env query (some (id ∷ ids)) s)
unfolding list_policies_for_user list_policies find_all
list_for_user_lem env project_ids_of_user ids_of_names query email id ids s signed_in theirs = (
  rw (signed_in, theirs) refl,
  selected-in_projects query id ids (
      map (load env s)
        (env.newest_first (env.orm.find (of_query (record query { type = some policy })) s.rules))),
)

-- For a signed-in user with no project, the policies of all projects are listed.
pub list_for_user-no_projects :
    (env : Env) (project_ids_of_user : String → List ℕ) (ids_of_names : List String → List ℕ)
    (query : RuleQueryFilter) (email : String) (s : Tables)
    → (email == "") ≡ false
    → project_ids_of_user email ≡ []
    → list_policies_for_user env project_ids_of_user ids_of_names query email s
      ≡ (s, ok (list_policies env query none s))
unfolding list_policies_for_user list_policies find_all select_links is_selected project_filter
list_for_user-no_projects env project_ids_of_user ids_of_names query email s signed_in theirs =
    rw (signed_in, theirs) refl
