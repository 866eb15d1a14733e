-- ===== src/Permissions/Laws.antt =====
-- Who passes the guard of libs/common/src/permissions.
use upload.Prelude.{
  truthy, String, String_eq, Bool, true, false, ◌&&◌, Option, none, some, List, [], ◌∷◌, ◌++◌, ◌≡◌,
  ◌↔◌, ◌⊎◌, inl, inr, refl, sym, ap, ◌∙◌, arith, ◌==◌, if◌then◌else◌, any, all, Bool-cases,
  Option-cases, fun_ext,
}
use upload.Prelude.Sets.{unique, any-unique}
use upload.Permissions.{
  JwtPayload, RequirePermissionsOptions, Request, granted, forbidden, project_token_roles,
  extract_api_roles, require_all_of, satisfies, auth_header, token_of, decide,
  is_permissions_enabled, validate_permissions, validate_user, can_activate,
}
use upload.Permissions.Roles.{Meets, satisfies-Meets, Meets-satisfies}

satisfies-unique :
    (require_all : Bool) (roles held : List String)
    → satisfies require_all roles (unique held) ≡ satisfies require_all roles held
satisfies-unique true roles held = ap (all roles) (fun_ext λ r. any-unique held (λ x. x == r))
satisfies-unique false roles held = ap (any roles) (fun_ext λ r. any-unique held (λ x. x == r))

granted≢forbidden : granted ≡ forbidden → ⊥
granted≢forbidden h = cc

decide-granted : (b : Bool) → decide b ≡ granted → b ≡ true
decide-granted true h = refl
decide-granted false h = cc

module _ (env : String → Option String) where
  -- Why a user passes without a project token.
  pub data MayPass (options : RequirePermissionsOptions) (user : JwtPayload) : Bool → Type 0 where
    by_both :
        Meets options.roles (project_token_roles ++ extract_api_roles user) (require_all_of options)
        → MayPass options user true
    unchecked : is_permissions_enabled env user ≡ false → MayPass options user false
    unrestricted : options.roles ≡ [] → MayPass options user false
    by_roles :
        Meets options.roles (extract_api_roles user) (require_all_of options)
        → MayPass options user false

  -- What an enabled check does with the roles that are asked for.
  roles_granted :
      (roles : List String) (require_all : Bool) (user : JwtPayload)
      → is_permissions_enabled env user ≡ true
      → validate_permissions env (some user) roles require_all ≡ true
      → (roles ≡ []) ⊎ Meets roles (extract_api_roles user) require_all
  unfolding validate_permissions
  roles_granted [] require_all user on h = inl refl
  roles_granted (r ∷ roles) true user on h =
      inr (satisfies-Meets true (r ∷ roles) (extract_api_roles user) (rw on at h))
  roles_granted (r ∷ roles) false user on h =
      inr (satisfies-Meets false (r ∷ roles) (extract_api_roles user) (rw on at h))

  unchecked_granted :
      (roles : List String) (require_all : Bool) (user : JwtPayload)
      → is_permissions_enabled env user ≡ false
      → validate_permissions env (some user) roles require_all ≡ true
  unfolding validate_permissions
  unchecked_granted roles require_all user off = rw off refl

  no_roles_granted :
      (require_all : Bool) (user : JwtPayload)
      → validate_permissions env (some user) [] require_all ≡ true
  unfolding validate_permissions
  no_roles_granted require_all user = ground arith

  met_roles_granted :
      (roles : List String) (require_all : Bool) (user : JwtPayload)
      → Meets roles (extract_api_roles user) require_all
      → validate_permissions env (some user) roles require_all ≡ true
  unfolding validate_permissions
  met_roles_granted [] require_all user h = ground arith
  met_roles_granted (r ∷ roles) true user h =
      let met = Meets-satisfies true (r ∷ roles) (extract_api_roles user) h in rw met (ground arith)
  met_roles_granted (r ∷ roles) false user h =
      let met = Meets-satisfies false (r ∷ roles) (extract_api_roles user) h in
      rw met (ground arith)

  validate_user_to :
      (token : Bool) (options : RequirePermissionsOptions) (user : JwtPayload)
      → validate_user env token options user ≡ granted
      → MayPass options user token
  unfolding validate_user
  validate_user_to true options user h = by_both (
      satisfies-Meets (require_all_of options) options.roles
        (project_token_roles ++ extract_api_roles user)
        (sym (
            satisfies-unique (require_all_of options) options.roles
              (project_token_roles ++ extract_api_roles user))
          ∙ decide-granted _ h))
  validate_user_to false options user h = elim (Bool-cases (is_permissions_enabled env user)) [
    | inr off ↦ unchecked off
    | inl on ↦
        elim (roles_granted options.roles (require_all_of options) user on (decide-granted _ h)) [
          | inl empty ↦ unrestricted empty
          | inr met ↦ by_roles met
        ]
  ]

  validate_user_from :
      (token : Bool) (options : RequirePermissionsOptions) (user : JwtPayload)
      → MayPass options user token
      → validate_user env token options user ≡ granted
  unfolding validate_user
  validate_user_from true options user (by_both met) = ap decide (
      satisfies-unique (require_all_of options) options.roles
        (project_token_roles ++ extract_api_roles user)
      ∙ Meets-satisfies (require_all_of options) options.roles
          (project_token_roles ++ extract_api_roles user) met)
  validate_user_from false options user (unchecked off) =
      ap decide (unchecked_granted options.roles (require_all_of options) user off)
  validate_user_from false options user (unrestricted empty) =
      rw empty (ap decide (no_roles_granted (require_all_of options) user))
  validate_user_from false options user (by_roles met) =
      ap decide (met_roles_granted options.roles (require_all_of options) user met)

  module _ (decode : String → Option JwtPayload) where
    -- Whom the request comes from: the user that is set in it, or the one of its token.
    pub identity : Request → Option JwtPayload
    identity request = elim request.user [
      | some user ↦ some user
      | none ↦
          if truthy (auth_header request)
          then elim (auth_header request) [ none ↦ none | some header ↦ decode (token_of header) ]
          else none
    ]

    -- Who passes: a project token whose roles are enough, or a known user who may pass.
    pub data IsEntitled (options : RequirePermissionsOptions) (request : Request) : Type 0 where
      by_token :
          truthy request.x_project_token ≡ true
          → Meets options.roles project_token_roles (require_all_of options)
          → IsEntitled options request
      by_user :
          (user : JwtPayload)
          → identity request ≡ some user
          → MayPass options user (truthy request.x_project_token)
          → IsEntitled options request

    known :
        (options : RequirePermissionsOptions) (request : Request) (user : JwtPayload)
        → (truthy request.x_project_token
            && satisfies (require_all_of options) options.roles project_token_roles)
          ≡ false
        → identity request ≡ some user
        → (can_activate env decode (some options) request).0
          ≡ validate_user env (truthy request.x_project_token) options user
    unfolding identity can_activate
    known options request user weak h = elim (Option-cases request.user) [
      | inr (u, set) ↦ ground arith
      | inl unset ↦ elim (Option-cases (auth_header request)) [
        | inl no_header ↦ ground arith
        | inr (header, found) ↦ elim (Option-cases (decode (token_of header))) [
          | inl invalid ↦ ground arith
          | inr (decoded, valid) ↦ ground arith
        ]
      ]
    ]

    unknown :
        (options : RequirePermissionsOptions) (request : Request)
        → (truthy request.x_project_token
            && satisfies (require_all_of options) options.roles project_token_roles)
          ≡ false
        → identity request ≡ none
        → (can_activate env decode (some options) request).0 ≡ granted
        → ⊥
    unfolding identity can_activate
    unknown options request weak h = elim (Option-cases request.user) [
      | inr (u, set) ↦ ground arith
      | inl unset ↦ elim (Option-cases (auth_header request)) [
        | inl no_header ↦ ground arith
        | inr (header, found) ↦ elim (Option-cases (decode (token_of header))) [
          | inl invalid ↦ ground arith
          | inr (decoded, valid) ↦ ground arith
        ]
      ]
    ]

    token_enough :
        (options : RequirePermissionsOptions) (request : Request)
        → (truthy request.x_project_token
            && satisfies (require_all_of options) options.roles project_token_roles)
          ≡ true
        → (can_activate env decode (some options) request).0 ≡ granted
    unfolding can_activate
    token_enough options request h = rw h refl

    granted_to :
        (options : RequirePermissionsOptions) (request : Request)
        → (can_activate env decode (some options) request).0 ≡ granted
        → IsEntitled options request
    granted_to options request h =
        elim (Bool-cases (
          truthy request.x_project_token
          && satisfies (require_all_of options) options.roles project_token_roles)) [
            | inl enough ↦ by_token (ground arith) (
                satisfies-Meets (require_all_of options) options.roles project_token_roles
                  (ground arith))
            | inr weak ↦ elim (Option-cases (identity request)) [
              | inl stranger ↦ absurd (unknown options request weak stranger h)
              | inr (user, e) ↦ by_user user e (
                  validate_user_to (truthy request.x_project_token) options user
                    (sym (known options request user weak e) ∙ h))
            ]
          ]

    granted_from :
        (options : RequirePermissionsOptions) (request : Request)
        → IsEntitled options request
        → (can_activate env decode (some options) request).0 ≡ granted
    granted_from options request (by_token token met) =
        token_enough options request (
          rw token (Meets-satisfies (require_all_of options) options.roles project_token_roles met))
    granted_from options request (by_user user e may) =
        elim (Bool-cases (
          truthy request.x_project_token
          && satisfies (require_all_of options) options.roles project_token_roles)) [
            | inl enough ↦ token_enough options request enough
            | inr weak ↦
                known options request user weak e
                ∙ validate_user_from (truthy request.x_project_token) options user may
          ]

    -- The guard grants a request to an endpoint with required roles exactly where the request is
    -- entitled: by a project token whose roles meet the requirement, or by a known user, who with
    -- a project token meets it with the roles of both, and without one meets it alone, or finds
    -- the check disabled or no roles required.
    pub can_activate_lem :
        (options : RequirePermissionsOptions) (request : Request)
        → ((can_activate env decode (some options) request).0 ≡ granted)
          ↔ IsEntitled options request
    can_activate_lem options request = (granted_to options request, granted_from options request)
