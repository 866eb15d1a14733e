-- ===== src/Access/Laws.antt =====
-- Who passes the guard of libs/common/src/utils/project-access/project-access.guard.ts.
use upload.Prelude.{
  ℕ, ℕ_eq, ltb, String, String_eq, Bool, true, false, not, ◌&&◌, ◌||◌, Option, none, some, List, [],
  ◌∷◌, ◌==◌, ◌≡◌, ◌≢◌, ◌↔◌, ◌⊎◌, inl, inr, refl, ◌∙◌, ap, arith, if◌then◌else◌, any, all, length,
  truthy, Bool-cases, Option-cases, ap₂, All,
}
use upload.Prelude.Sets.{unique, all-unique, any-unique}
use upload.Storage.Rows.{Project}
use upload.Access.{
  Identifier, text, Outcome, ok, forbidden, failed, Member, AccessService, Mode, Caller, text_of,
  is_given, validate_user, validate_project, validate_any, look_up, is_id, is_name, can_activate,
  token_gives, member_gives, check_projects, validate_project_list,
}

-- The modes of ValidateProjectUserAccess and of ValidateProjectAnyAccess.
abbrev pub user_mode : Mode
user_mode = record {
  validate_user_token = true;
  validate_project_token = false;
  validate_any_token = false;
}

abbrev pub any_mode : Mode
any_mode = record {
  validate_user_token = false;
  validate_project_token = false;
  validate_any_token = true;
}

module _ (service : AccessService) where
  -- A membership in the project that has one of the roles, where any are asked for.
  pub record IsMember (identifier : Identifier) (email : Option String) (roles : List String)
      (project : Project) : Type 0 where
    pub member : Member
    pub has_email : truthy email ≡ true
    pub found : service.get_member_in_project identifier (text_of email) ≡ ok (some member)
    pub of_project : member.project ≡ some project
    pub has_role : (roles ≡ []) ⊎ (any roles (λ role. role == member.role) ≡ true)

  pub IsOfToken : Option String → Project → Type 0
  IsOfToken token project =
      (truthy token ≡ true) × (service.get_project_from_token (text_of token) ≡ ok (some project))

  role_cases :
      (roles : List String) (role : String)
      → (ltb 0 (length roles) && not (any roles (λ r. r == role))) ≡ false
      → (roles ≡ []) ⊎ (any roles (λ r. r == role) ≡ true)
  role_cases [] role h = inl refl
  role_cases (r ∷ roles) role h = inr (ground arith)

  answer_cases :
      {A : Type 0} (o : Outcome (Option A))
      → (o ≡ forbidden) ⊎ ((o ≡ failed) ⊎ ((o ≡ ok none) ⊎ ((a : A) × (o ≡ ok (some a)))))
  answer_cases forbidden = inl refl
  answer_cases failed = inr (inl refl)
  answer_cases (ok none) = inr (inr (inl refl))
  answer_cases (ok (some a)) = inr (inr (inr (a, refl)))

  validate_user_sound :
      (identifier : Identifier) (email : Option String) (roles : List String) (project : Project)
      → validate_user service identifier email roles ≡ ok (some project)
      → IsMember identifier email roles project
  unfolding validate_user
  validate_user_sound identifier email roles project h = elim (Bool-cases (truthy email)) [
    | inr absent ↦ absurd (ground arith)
    | inl has_email ↦
        elim (answer_cases (service.get_member_in_project identifier (text_of email))) [
          | inl refused ↦ absurd (ground arith)
          | inr (inl refused) ↦ absurd (ground arith)
          | inr (inr (inl refused)) ↦ absurd (ground arith)
          | inr (inr (inr (member, found))) ↦ record {
            member = member;
            has_email = has_email;
            found = found;
            of_project = ground arith;
            has_role = role_cases roles member.role (ground arith);
          }
        ]
  ]

  validate_project_sound :
      (token : Option String) (project : Project)
      → validate_project service token ≡ ok (some project)
      → IsOfToken token project
  unfolding validate_project IsOfToken
  validate_project_sound token project h = ground arith

  validate_any_sound :
      (identifier : Identifier) (token email : Option String) (roles : List String)
      (project : Project)
      → validate_any service identifier token email roles ≡ ok (some project)
      → IsOfToken token project ⊎ IsMember identifier email roles project
  unfolding validate_any validate_project IsOfToken
  validate_any_sound identifier token email roles project h = elim (Bool-cases (truthy token)) [
    | inr absent ↦ inr (validate_user_sound identifier email roles project (ground arith))
    | inl given ↦ elim (answer_cases (service.get_project_from_token (text_of token))) [
      | inl refused ↦ absurd (ground arith)
      | inr (inl refused) ↦ absurd (ground arith)
      | inr (inr (inl unknown)) ↦
          inr (validate_user_sound identifier email roles project (ground arith))
      | inr (inr (inr (found, e))) ↦ inl (ground arith)
    ]
  ]

  -- Why a request passes that asks for one project.
  pub data IsVouched (mode : Mode) (identifier : Identifier) (caller : Caller) (roles : List String)
      (project : Project) : Type 0 where
    by_token :
        mode.validate_user_token ≡ false
        → (mode.validate_project_token || mode.validate_any_token) ≡ true
        → IsOfToken caller.project_token project
        → IsVouched mode identifier caller roles project
    by_membership :
        (mode.validate_user_token || mode.validate_any_token) ≡ true
        → IsMember identifier caller.email roles project
        → IsVouched mode identifier caller roles project

  -- The project that is looked up, before it is compared with the identifier.
  vouched :
      (mode : Mode) (identifier : Identifier) (caller : Caller) (roles : List String)
      (project : Project)
      → look_up service mode identifier caller roles ≡ ok (some project)
      → IsVouched mode identifier caller roles project
  unfolding look_up
  vouched mode identifier caller roles project h = elim (Bool-cases mode.validate_user_token) [
    | inl user ↦
        by_membership (rw user refl)
          (validate_user_sound identifier caller.email roles project (rw user at h))
    | inr u ↦ elim (Bool-cases mode.validate_project_token) [
      | inl token ↦
          by_token u (rw token refl)
            (validate_project_sound caller.project_token project (rw (u, token) at h))
      | inr t ↦ elim (Bool-cases mode.validate_any_token) [
        | inr none_set ↦ absurd (ground arith)
        | inl both ↦
            elim (validate_any_sound identifier caller.project_token caller.email roles project
              (rw (u, t, both) at h)) [
                | inl of_token ↦ by_token u (ground arith) of_token
                | inr member ↦ by_membership (ground arith) member
              ]
      ]
    ]
  ]

  module _ (to_number : String → Option ℕ) where
    -- A request that passes for one project names that project, by its id or its name, and the
    -- project is the one of the caller's project token or one that the caller is a member of with
    -- a role that is asked for, as far as the mode of the endpoint takes tokens or users.
    pub can_activate_sound :
        (mode : Mode) (identifier : Identifier) (caller : Caller) (roles : List String)
        (project : Project)
        → can_activate service to_number mode (some identifier) caller roles ≡ ok project
        → ((is_id service to_number project identifier
              || is_name service to_number project identifier)
            ≡ true)
          × IsVouched mode identifier caller roles project
    unfolding can_activate
    can_activate_sound mode identifier caller roles project h =
        elim (Bool-cases (is_given identifier)) [
          | inr no_name ↦ absurd (ground arith)
          | inl named ↦ elim (answer_cases (look_up service mode identifier caller roles)) [
            | inl refused ↦ absurd (ground arith)
            | inr (inl refused) ↦ absurd (ground arith)
            | inr (inr (inl refused)) ↦ absurd (ground arith)
            | inr (inr (inr (found, e))) ↦
                let same : found ≡ project = ground arith in
                (
                  ground arith,
                  vouched mode identifier caller roles project (e ∙ ap (λ p. ok (some p)) same),
                )
          ]
        ]

    -- Where a membership alone lets a request pass, an endpoint that takes a token or a user
    -- fails as soon as the look-up of the token fails: `.catch(null)` catches nothing.
    pub lost_membership :
        (identifier : Identifier) (caller : Caller) (roles : List String) (project : Project)
        → can_activate service to_number user_mode (some identifier) caller roles ≡ ok project
        → truthy caller.project_token ≡ true
        → service.get_project_from_token (text_of caller.project_token) ≡ failed
        → can_activate service to_number any_mode (some identifier) caller roles ≡ failed
    unfolding can_activate look_up validate_any validate_project
    lost_membership identifier caller roles project h given fails = ground arith

  module _ (to_string : ℕ → String) where
    -- Why a caller may act in the project of a name: the token is that of a project with this name
    -- or this id, or the caller is a member of the project, in whatever role.
    pub data HasAccess (caller : Caller) (name : String) : Type 0 where
      token_access :
          (project : Project)
          → IsOfToken caller.project_token project
          → (project.name ≡ name) ⊎ (to_string project.id ≡ name)
          → HasAccess caller name
      member_access :
          (member : Member) (project : Project)
          → truthy caller.email ≡ true
          → service.get_member_in_project (text name) (text_of caller.email) ≡ ok (some member)
          → member.project ≡ some project
          → HasAccess caller name

    token_gives-HasAccess :
        (caller : Caller) (name : String)
        → token_gives service to_string caller name ≡ true
        → HasAccess caller name
    unfolding token_gives IsOfToken
    token_gives-HasAccess caller name h =
        elim (answer_cases (service.get_project_from_token (text_of caller.project_token))) [
          | inl refused ↦ absurd (ground arith)
          | inr (inl refused) ↦ absurd (ground arith)
          | inr (inr (inl refused)) ↦ absurd (ground arith)
          | inr (inr (inr (project, found))) ↦
              token_access project (ground arith) (elim (Bool-cases (project.name == name)) [
                | inl same ↦ inl ((String_eq.same_iff project.name name).0 same)
                | inr other ↦
                    inr ((String_eq.same_iff (to_string project.id) name).0 (ground arith))
              ])
        ]

    member_gives-HasAccess :
        (caller : Caller) (name : String)
        → member_gives service to_string caller name ≡ true
        → HasAccess caller name
    unfolding member_gives
    member_gives-HasAccess caller name h =
        elim (answer_cases (service.get_member_in_project (text name) (text_of caller.email))) [
          | inl refused ↦ absurd (ground arith)
          | inr (inl refused) ↦ absurd (ground arith)
          | inr (inr (inl refused)) ↦ absurd (ground arith)
          | inr (inr (inr (member, found))) ↦ elim (Option-cases member.project) [
            | inl nowhere ↦ absurd (ground arith)
            | inr (project, e) ↦ member_access member project (ground arith) found e
          ]
        ]

    -- Whether the caller's token or a membership leads to the project of a name.
    abbrev gives_access : Caller → String → Bool
    gives_access caller name =
        token_gives service to_string caller name || member_gives service to_string caller name

    check_projects-all :
        (caller : Caller) (names : List String)
        → check_projects service to_string caller names
          ≡ (if all names (gives_access caller) then ok true else forbidden)
    unfolding check_projects
    check_projects-all caller [] = refl
    check_projects-all caller (name ∷ names) = rw (check_projects-all caller names) (ground arith)

    has_names :
        (name : String) (names : List String) → (length (unique (name ∷ names)) == 0) ≡ false
    has_names name names = nonempty (unique (name ∷ names)) (any-unique (name ∷ names) (λ _. true))
      where
        nonempty : (xs : List String) → any xs (λ _. true) ≡ true → (length xs == 0) ≡ false
        nonempty [] h = cc
        nonempty (x ∷ xs) h = ground arith

    gives_access-HasAccess :
        (caller : Caller) (name : String) → gives_access caller name ≡ true → HasAccess caller name
    gives_access-HasAccess caller name h =
        elim (Bool-cases (token_gives service to_string caller name)) [
          | inl token ↦ token_gives-HasAccess caller name token
          | inr no_token ↦ member_gives-HasAccess caller name (ground arith)
        ]

    HasAccess-gives_access :
        (caller : Caller) (name : String) → HasAccess caller name → gives_access caller name ≡ true
    unfolding token_gives member_gives IsOfToken
    HasAccess-gives_access caller name (token_access project of_token (inl same)) =
        ground (arith, (String_eq.same_iff project.name name).1 same)
    HasAccess-gives_access caller name (token_access project of_token (inr same)) =
        ground (arith, (String_eq.same_iff (to_string project.id) name).1 same)
    HasAccess-gives_access caller name (member_access member project email found e) = ground arith

    all-HasAccess :
        (caller : Caller) (names : List String)
        → (all names (gives_access caller) ≡ true) ↔ All (HasAccess caller) names
    all-HasAccess caller [] = (λ _. tt, λ _. refl)
    all-HasAccess caller (name ∷ names) = (
      λ h. (
        gives_access-HasAccess caller name (ground arith),
        (all-HasAccess caller names).0 (ground arith),
      ),
      λ h. ap₂ ◌&&◌ (HasAccess-gives_access caller name h.0) ((all-HasAccess caller names).1 h.1),
    )

    validate_project_list-all :
        (caller : Caller) (names : List String)
        → validate_project_list service to_string (some names) caller ≡ (
            if not (length names == 0) && all names (gives_access caller)
            then ok true
            else forbidden)
    unfolding validate_project_list
    validate_project_list-all caller [] = refl
    validate_project_list-all caller (name ∷ names) =
        let named : (length (name ∷ names) == 0) ≡ false = ground arith in
        rw
          (
            named,
            has_names name names,
            check_projects-all caller (unique (name ∷ names)),
            all-unique (name ∷ names) (gives_access caller),
          )
          refl

    -- A request that names a list of projects passes exactly where the list is not empty and the
    -- caller has access to each of them, by a project token of it or a membership in any role; the
    -- roles that the endpoint lists are not looked at. A request that does not pass is forbidden.
    pub validate_project_list_lem :
        (caller : Caller) (names : List String)
        → ((validate_project_list service to_string (some names) caller ≡ ok true)
            ↔ ((names ≢ []) × All (HasAccess caller) names))
          × ((validate_project_list service to_string (some names) caller ≡ ok true)
              ⊎ (validate_project_list service to_string (some names) caller ≡ forbidden))
    validate_project_list_lem caller [] =
        let none_named = validate_project_list-all caller [] in
        ((λ h. absurd (ground arith), λ h. absurd (h.0 refl)), inr none_named)
    validate_project_list_lem caller (name ∷ names) =
        let by_all = validate_project_list-all caller (name ∷ names) in
        let each = all-HasAccess caller (name ∷ names) in
        (
          (λ h. (λ e. cc, each.0 (ground arith)), λ h. let a = each.1 h.1 in ground arith),
          (elim (Bool-cases (all (name ∷ names) (gives_access caller))) [
            | inl granted ↦ inl (ground arith)
            | inr refused ↦ inr (ground arith)
          ]),
        )
