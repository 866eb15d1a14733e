-- ===== src/Permissions.antt =====
-- libs/common/src/permissions: the roles of a JWT, and the guard of the endpoints. The environment
-- and the decoding of tokens (@nestjs/jwt) are parameters.
pub mod Roles
pub mod Laws
mod Tests
use Prim.Native.String.{len, slice}
use text.Mathlib.Text.{starts_with}
use upload.Prelude.{
  truthy, String, String_eq, Bool, true, false, not, ◌&&◌, ◌||◌, Option, none, some, List, [], ◌∷◌,
  ◌++◌, ◌==◌, option_beq, if◌then◌else◌, any, all, find?, includes,
}
use upload.Prelude.Sets.{unique}

-- `resource_access[resource]`, whose `roles` may be missing.
pub record ResourceRoles : Type 0 where
  pub resource : String
  pub roles : Option (List String)

-- What the guard reads of a JwtPayload.
pub record JwtPayload : Type 0 where
  pub preferred_username : String
  pub resource_access : Option (List ResourceRoles)

abbrev pub enable_env_var : String
enable_env_var = "ENABLE_PERMISSIONS"

abbrev pub stamp_role : String
stamp_role = "permissions-enabled"

abbrev pub resource_name : String
resource_name = "api"

abbrev pub project_token_roles : List String
project_token_roles =
    "view-project" ∷ "update-project" ∷ "delete-project" ∷ "list-projects" ∷ "create-release"
    ∷ "view-release" ∷ "update-release" ∷ "edit-released-release" ∷ "delete-release"
    ∷ "publish-release" ∷ "list-releases" ∷ "upload-artifact" ∷ "download-artifact"
    ∷ "delete-artifact" ∷ "view-artifact" ∷ "list-artifacts" ∷ []

unfoldable pub extract_api_roles : JwtPayload → List String
extract_api_roles user = elim user.resource_access [
  | none ↦ []
  | some resources ↦ elim (find? (λ r. r.resource == resource_name) resources) [
    | none ↦ []
    | some r ↦ elim r.roles [ none ↦ [] | some roles ↦ roles ]
  ]
]

abbrev pub has_role : JwtPayload → String → Bool
has_role user role = includes (extract_api_roles user) role

abbrev pub has_any_role : JwtPayload → List String → Bool
has_any_role user roles = any roles (λ role. includes (extract_api_roles user) role)

abbrev pub has_all_roles : JwtPayload → List String → Bool
has_all_roles user roles = all roles (λ role. includes (extract_api_roles user) role)

-- The `roles` and the `requireAll` of the decorator.
pub record RequirePermissionsOptions : Type 0 where
  pub roles : List String
  pub require_all : Option Bool

pub record Request : Type 0 where
  pub user : Option JwtPayload
  pub x_project_token : Option String
  pub authorization : Option String
  pub capital_authorization : Option String

-- How `canActivate` ends: an answer `true`, or one of the two exceptions.
pub data Decision : Type 0 where
  granted forbidden unauthorized : Decision

abbrev pub require_all_of : RequirePermissionsOptions → Bool
require_all_of options = elim options.require_all [ none ↦ false | some b ↦ b ]

-- `requireAll ? roles.every(...) : roles.some(...)`
abbrev pub satisfies : Bool → List String → List String → Bool
satisfies require_all roles held =
    if require_all then all roles (λ r. includes held r) else any roles (λ r. includes held r)

-- `headers.authorization || headers.Authorization`
abbrev pub auth_header : Request → Option String
auth_header request =
    if truthy request.authorization then request.authorization else request.capital_authorization

abbrev pub token_of : String → String
token_of header =
    if starts_with header "Bearer " || starts_with header "bearer "
    then slice header 7 (len header)
    else header

abbrev pub decide : Bool → Decision
decide true = granted
decide false = forbidden

module _ (env : String → Option String) where
  pub is_permissions_enabled : JwtPayload → Bool
  is_permissions_enabled user =
      if option_beq (env enable_env_var) (some "true") || option_beq (env enable_env_var) (some "1")
      then true
      else includes (extract_api_roles user) stamp_role

  abbrev is_empty : List String → Bool
  is_empty [] = true
  is_empty (r ∷ rs) = false

  pub validate_permissions : Option JwtPayload → List String → Bool → Bool
  validate_permissions none required_roles require_all = false
  validate_permissions (some user) required_roles require_all =
      if not (is_permissions_enabled user)
      then true
      else if is_empty required_roles
      then true
      else if require_all
      then has_all_roles user required_roles
      else has_any_role user required_roles

  -- The last part of `canActivate`, for a user that is known.
  pub validate_user : Bool → RequirePermissionsOptions → JwtPayload → Decision
  validate_user has_project_token options user = decide (
      if has_project_token
      then satisfies (require_all_of options) options.roles
          (unique (project_token_roles ++ extract_api_roles user))
      else validate_permissions (some user) options.roles (require_all_of options))

  -- `jwtService.decode`, none where it throws or returns null. The answer, and the request with the
  -- user that the guard sets in it.
  module _ (decode : String → Option JwtPayload) where
    pub can_activate : Option RequirePermissionsOptions → Request → Decision × Request
    can_activate none request = (granted, request)
    can_activate (some options) request =
        let has_project_token = truthy request.x_project_token in
        if has_project_token && satisfies (require_all_of options) options.roles project_token_roles
        then (granted, request)
        else elim request.user [
          | some user ↦ (validate_user has_project_token options user, request)
          | none ↦
              if not (truthy (auth_header request))
              then (if has_project_token then forbidden else unauthorized, request)
              else elim (auth_header request) [
                | none ↦ (unauthorized, request)
                | some header ↦ elim (decode (token_of header)) [
                  | none ↦ (unauthorized, request)
                  | some user ↦ (
                    validate_user has_project_token options user,
                    record request { user = some user },
                  )
                ]
              ]
        ]
