-- ===== src/Permissions/Tests.antt =====
-- Tests of the model of libs/common/src/permissions.
use upload.Prelude.{String, Option, true, none, some, [], ◌∷◌, ◌≡◌, ◌↔◌}
use upload.Permissions.{JwtPayload, RequirePermissionsOptions, Request, granted, can_activate}
use upload.Permissions.Laws.{IsEntitled, can_activate_lem}

abbrev env : String → Option String
env name = some "true"

abbrev editor : JwtPayload
editor = record {
  preferred_username = "editor";
  resource_access = some (record { resource = "api"; roles = some ("manage-rules" ∷ []) } ∷ []);
}

abbrev decode : String → Option JwtPayload
decode token = some editor

-- A role of the project token and a role of the user.
abbrev options : RequirePermissionsOptions
options = record { roles = "view-release" ∷ "manage-rules" ∷ []; require_all = some true }

abbrev request : Request
request = record {
  user = none;
  x_project_token = some "token";
  authorization = some "Bearer abc";
  capital_authorization = none;
}

can_activate_example :
    ((can_activate env decode (some options) request).0 ≡ granted)
    ↔ IsEntitled env decode options request
can_activate_example = can_activate_lem env decode options request
