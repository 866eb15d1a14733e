-- ===== src/Access.antt =====
-- libs/common/src/utils/project-access/project-access.guard.ts: whether a request may act in the
-- projects that it names. The service that looks projects and members up is a parameter, as its
-- implementation is not part of the library, and so is the conversion of a text to a number that
-- `==` makes.
pub mod Laws
mod Tests
use upload.Prelude.{
  ℕ, ℕ_eq, ltb, String, String_eq, Bool, true, false, not, ◌&&◌, ◌||◌, Option, none, some, List, [],
  ◌∷◌, ◌==◌, option_beq, if◌then◌else◌, any, length, truthy,
}
use upload.Prelude.Sets.{unique}
use upload.Storage.Rows.{Project}

-- `string | number`
pub data Identifier : Type 0 where
  number : ℕ → Identifier
  text : String → Identifier

-- What an awaited call comes to: a value, a ForbiddenException, or an error of the service.
pub data Outcome (A : Type 0) : Type 0 where
  ok : A → Outcome A
  forbidden failed : Outcome A

pub record Member : Type 0 where
  pub role : String
  pub project : Option Project

pub record AccessService : Type 0 where
  pub get_member_in_project : Identifier → String → Outcome (Option Member)
  pub get_project_from_token : String → Outcome (Option Project)

-- The flags that the decorators set.
pub record Mode : Type 0 where
  pub validate_user_token : Bool
  pub validate_project_token : Bool
  pub validate_any_token : Bool

pub record Caller : Type 0 where
  pub email : Option String
  pub project_token : Option String

-- The value of an optional text; it is asked for where the text is there.
abbrev pub text_of : Option String → String
text_of none = ""
text_of (some s) = s

abbrev pub is_given : Identifier → Bool
is_given (number n) = not (n == 0)
is_given (text s) = not (s == "")

module _ (service : AccessService) where
  pub validate_user : Identifier → Option String → List String → Outcome (Option Project)
  validate_user project_identifier email roles =
      if not (truthy email)
      then ok none
      else elim (service.get_member_in_project project_identifier (text_of email)) [
        | forbidden ↦ forbidden
        | failed ↦ failed
        | ok none ↦ forbidden
        | ok (some member) ↦
            if ltb 0 (length roles) && not (any roles (λ role. role == member.role))
            then forbidden
            else ok member.project
      ]

  pub validate_project : Option String → Outcome (Option Project)
  validate_project project_token =
      if not (truthy project_token)
      then ok none
      else service.get_project_from_token (text_of project_token)

  -- `.catch(null)` has no handler to call and passes the rejection on.
  pub validate_any :
      Identifier → Option String → Option String → List String → Outcome (Option Project)
  validate_any project_identifier project_token email roles =
      let user = validate_user project_identifier email roles in
      elim (if truthy project_token then validate_project project_token else ok none) [
        | forbidden ↦ forbidden
        | failed ↦ failed
        | ok (some project) ↦ ok (some project)
        | ok none ↦ if truthy email then user else ok none
      ]

  -- The project by the first flag of the endpoint that is set.
  unfoldable pub look_up : Mode → Identifier → Caller → List String → Outcome (Option Project)
  look_up mode identifier caller roles =
      if mode.validate_user_token
      then validate_user identifier caller.email roles
      else if mode.validate_project_token
      then validate_project caller.project_token
      else if mode.validate_any_token
      then validate_any identifier caller.project_token caller.email roles
      else ok none

  module _ (to_number : String → Option ℕ) where
    -- `project.id == projectIdentifier` and `project.name == projectIdentifier`.
    pub is_id : Project → Identifier → Bool
    is_id project (number n) = project.id == n
    is_id project (text s) = option_beq (to_number s) (some project.id)

    pub is_name : Project → Identifier → Bool
    is_name project (number n) = option_beq (to_number project.name) (some n)
    is_name project (text s) = project.name == s

    -- `canActivate` for one project: the project that it sets in the request.
    pub can_activate : Mode → Option Identifier → Caller → List String → Outcome Project
    can_activate mode none caller roles = forbidden
    can_activate mode (some identifier) caller roles =
        if not (is_given identifier)
        then forbidden
        else elim (look_up mode identifier caller roles) [
          | forbidden ↦ forbidden
          | failed ↦ failed
          | ok none ↦ forbidden
          | ok (some project) ↦
              if not (is_id project identifier) && not (is_name project identifier)
              then forbidden
              else ok project
        ]

  module _ (to_string : ℕ → String) where
    pub token_gives : Caller → String → Bool
    token_gives caller name =
        if truthy caller.project_token
        then elim (service.get_project_from_token (text_of caller.project_token)) [
          | ok (some project) ↦ project.name == name || to_string project.id == name
          | _ ↦ false
        ]
        else false

    pub member_gives : Caller → String → Bool
    member_gives caller name =
        if truthy caller.email
        then elim (service.get_member_in_project (text name) (text_of caller.email)) [
          | ok (some member) ↦ elim member.project [ none ↦ false | some _ ↦ true ]
          | _ ↦ false
        ]
        else false

    -- The loop over the names.
    pub check_projects : Caller → List String → Outcome Bool
    check_projects caller [] = ok true
    check_projects caller (name ∷ names) =
        let rest = check_projects caller names in
        if token_gives caller name || member_gives caller name then rest else forbidden

    -- `project_names` are what the extractor finds in the request, none where its path does not
    -- lead to an array. The roles are not asked for.
    pub validate_project_list : Option (List String) → Caller → Outcome Bool
    validate_project_list none caller = forbidden
    validate_project_list (some project_names) caller =
        if length (unique project_names) == 0
        then forbidden
        else check_projects caller (unique project_names)
