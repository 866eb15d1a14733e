-- ===== src/Rules/Policies/Bulk.antt =====
-- `getPoliciesForReleases` of apps/upload/src/policy.service.ts answers for many releases what
-- `getPoliciesForRelease` answers for one.
use upload.Prelude.{
  ℕ_eq, String, String_eq, Bool, true, false, ◌&&◌, ◌||◌, none, List, [], ◌∷◌, ◌==◌, ◌≡◌, refl, sym,
  ap, ◌∙◌, arith, if◌then◌else◌, filter, map, any, includes, Bool-cases, Option-cases, inl, inr,
  any-map, any-filter, eq_iff, fun_ext,
}
use upload.Rules.Query.{
  Loaded, ReleaseLink, find_all, find_all_for_releases, with_releases, of_release, of_releases,
  select_links, is_selected, is_kept, load, RuleDefinition, rule_entity_to_definition, of_query,
  project_filter,
}
use upload.Rules.Policies.{
  is_visible, for_agent, policies_of, start_at, push_links, push_rules, get_policies_for_release,
  get_policies_for_releases,
}
use upload.Rules.Store.{policy, RuleRow, Tables, Env, RuleType_eq}
use upload.Rules.Policies.Push.{
  at, has_key, push_links-key, any-push_links, start_at-key, any-start_at,
}

kept-filter : {A : Type 0} (q : A → Bool) (xs : List A) → is_kept true (filter q xs) ≡ any xs q
kept-filter q [] = refl
kept-filter q (x ∷ xs) = elim (Bool-cases (q x)) [
  | inl hit ↦ rw hit refl
  | inr miss ↦ rw miss (kept-filter q xs)
]

release-included :
    (ids : List String) (id : String) (l : ReleaseLink)
    → includes ids id ≡ true
    → (of_releases ids l && of_release id l) ≡ of_release id l
release-included ids id l h = elim (Option-cases l.release) [
  | inl missing ↦ rw missing refl
  | inr (r, there) ↦ rw there (elim (Bool-cases (r.catalog_id == id)) [
    | inl same ↦ rw (same, (eq_iff r.catalog_id id).0 same) (rw h refl)
    | inr apart ↦ rw apart (ground arith)
  ])
]

any-of_releases :
    (ids : List String) (id : String) (links : List ReleaseLink)
    → includes ids id ≡ true
    → any (filter (of_releases ids) links) (of_release id) ≡ any links (of_release id)
any-of_releases ids id links h =
    any-filter (of_releases ids) (of_release id) links
    ∙ ap (any links) (fun_ext λ l. release-included ids id l h)

module _ (id : String) (p : RuleRow → Bool) where
  any-push_rules :
      (rules : List Loaded) (result : List (String × List RuleDefinition))
      → has_key id result ≡ true
      → any (at id (push_rules rules result)) (λ d. p d.row) ≡ (
          any (at id result) (λ d. p d.row)
          || any rules
              (λ l. is_visible l.row && (any l.releases (of_release id) && p (for_agent l).row)))
  unfolding push_rules
  any-push_rules [] result h = ground arith
  any-push_rules (l ∷ rules) result h = elim (Bool-cases (is_visible l.row)) [
    | inr hidden ↦ rw hidden (any-push_rules rules result h)
    | inl visible ↦ rw visible (
        any-push_rules rules (push_links (for_agent l) l.releases result)
          (push_links-key id (λ d. p d.row) (for_agent l) l.releases result ∙ h)
        ∙ rw (any-push_links id (λ d. p d.row) (for_agent l) l.releases result h) (ground arith))
  ]

-- What an agent is shown of a rule's own columns.
abbrev agent_row : RuleRow → RuleRow
agent_row r = if r.is_push && r.is_active then record r { is_active = false } else r

for_agent-row : (l : Loaded) → (for_agent l).row ≡ agent_row l.row
unfolding for_agent rule_entity_to_definition
for_agent-row l = elim (Bool-cases (l.row.is_push && l.row.is_active)) [
  | inl pushed ↦ rw pushed refl
  | inr other ↦ rw other refl
]

any-kept : {A : Type 0} (q : A → Bool) (xs : List A) → (is_kept true xs && any xs q) ≡ any xs q
any-kept q [] = refl
any-kept q (x ∷ xs) = refl

-- A rule is pushed to a release where the query for that release selects it.
same-selection :
    (i : String) (ids : List String) (id : String) (l : Loaded)
    → (id == "") ≡ false
    → includes (i ∷ ids) id ≡ true
    → (is_kept true (filter (of_releases (i ∷ ids)) l.releases)
        && any (filter (of_releases (i ∷ ids)) l.releases) (of_release id))
      ≡ is_selected (policies_of id) none (select_links (policies_of id) none l)
unfolding is_selected select_links project_filter
same-selection i ids id l filled asked =
    any-kept (of_release id) (filter (of_releases (i ∷ ids)) l.releases)
    ∙ any-of_releases (i ∷ ids) id l.releases asked
    ∙ rw (is_selected, select_links, filled, kept-filter (of_release id) l.releases) (ground arith)

-- The policies of both answers, out of the loaded ones.
abbrev is_shown : String → (RuleRow → Bool) → Loaded → Bool
is_shown id p l =
    is_selected (policies_of id) none (select_links (policies_of id) none l)
    && is_visible l.row
    && p (agent_row l.row)

any-bulk :
    (i : String) (ids : List String) (id : String) (p : RuleRow → Bool) (loaded : List Loaded)
    → (id == "") ≡ false
    → includes (i ∷ ids) id ≡ true
    → any
        (filter (λ (l : Loaded). is_kept true l.releases) (map (with_releases (i ∷ ids)) loaded))
        (λ l. is_visible l.row && (any l.releases (of_release id) && p (for_agent l).row))
      ≡ any loaded (is_shown id p)
any-bulk i ids id p loaded filled asked =
    any-filter (λ (l : Loaded). is_kept true l.releases) _ (map (with_releases (i ∷ ids)) loaded)
    ∙ any-map (with_releases (i ∷ ids)) _ loaded
    ∙ ap (any loaded) (
        fun_ext λ l.
          rw (for_agent-row (with_releases (i ∷ ids) l))
            (ground (arith, same-selection i ids id l filled asked)))

any-single :
    (id : String) (p : RuleRow → Bool) (loaded : List Loaded)
    → any
        (map for_agent (
          filter
            (λ (l : Loaded). is_visible l.row)
            (filter
              (is_selected (policies_of id) none)
              (map (select_links (policies_of id) none) loaded))))
        (λ d. p d.row)
      ≡ any loaded (is_shown id p)
unfolding select_links
any-single id p loaded =
    let selected = map (select_links (policies_of id) none) loaded in
    any-map for_agent (λ d. p d.row)
      (filter (λ (l : Loaded). is_visible l.row)
        (filter (is_selected (policies_of id) none) selected))
    ∙ any-filter (λ (l : Loaded). is_visible l.row) (λ (l : Loaded). p (for_agent l).row)
        (filter (is_selected (policies_of id) none) selected)
    ∙ any-filter (is_selected (policies_of id) none)
        (λ (l : Loaded). is_visible l.row && p (for_agent l).row) selected
    ∙ any-map (select_links (policies_of id) none)
        (λ (l : Loaded).
          is_selected (policies_of id) none l && (is_visible l.row && p (for_agent l).row))
        loaded
    ∙ ap (any loaded)
        (fun_ext λ l. rw (for_agent-row (select_links (policies_of id) none l)) (ground arith))

of_query-policies : (id : String) → of_query (policies_of id) ≡ (λ (r : RuleRow). r.type == policy)
of_query-policies id = fun_ext λ r. ground arith

-- For a release that is asked for and whose key is not empty: the bulk answer has under the key the
-- policies that the answer for the release alone has, as an agent is shown them, up to their order
-- and the links that they list.
pub bulk-single :
    (env : Env) (i : String) (ids : List String) (id : String) (p : RuleRow → Bool) (s : Tables)
    → (id == "") ≡ false
    → includes (i ∷ ids) id ≡ true
    → any (at id (get_policies_for_releases env (i ∷ ids) s)) (λ d. p d.row)
      ≡ any (get_policies_for_release env id s) (λ d. p d.row)
unfolding get_policies_for_releases get_policies_for_release find_all find_all_for_releases
bulk-single env i ids id p s filled asked =
    let loaded =
      map (load env s)
        (env.newest_first (env.orm.find (λ (r : RuleRow). r.type == policy) s.rules)) in
    let rules =
      filter (λ (l : Loaded). is_kept true l.releases) (map (with_releases (i ∷ ids)) loaded) in
    any-push_rules id p rules (start_at (i ∷ ids) [])
      (start_at-key id (λ (d : RuleDefinition). p d.row) (i ∷ ids) [] ∙ asked)
    ∙ ap
        (λ b.
          b
          || any rules (λ (l : Loaded).
            is_visible l.row && (any l.releases (of_release id) && p (for_agent l).row)))
        (any-start_at id (λ (d : RuleDefinition). p d.row) (i ∷ ids) [] refl)
    ∙ any-bulk i ids id p loaded filled asked
    ∙ sym (
        ap
          (λ (q : RuleRow → Bool).
            any
              (map for_agent (
                filter (λ (l : Loaded). is_visible l.row)
                  (filter (is_selected (policies_of id) none) (
                    map (select_links (policies_of id) none)
                      (map (load env s) (env.newest_first (env.orm.find q s.rules)))))))
              (λ (d : RuleDefinition). p d.row))
          (of_query-policies id)
        ∙ any-single id p loaded)
