-- ===== src/Access/Tests.antt =====
-- Tests of the model of libs/common/src/utils/project-access/project-access.guard.ts.
use upload.Prelude.{
  ℕ, String, String_eq, Option, true, none, some, [], ◌∷◌, ◌≡◌, ◌≢◌, ◌↔◌, ◌⊎◌, All, List, ◌||◌,
  refl,
}
use upload.Storage.Rows.{Project}
use upload.Access.{
  text, ok, forbidden, failed, AccessService, Caller, is_id, is_name, validate_user, look_up,
  can_activate, validate_project_list,
}
use upload.Access.Laws.{
  IsVouched, HasAccess, user_mode, any_mode, can_activate_sound, lost_membership,
  validate_project_list_lem,
}

abbrev maps : Project
maps = record { id = 1; name = "maps" }

-- Each user is a member of one project, and the look-up of tokens is out of order.
abbrev service : AccessService
service = record {
  get_member_in_project =
      λ identifier email. ok (some (record { role = "owner"; project = some maps }));
  get_project_from_token = λ token. failed;
}

abbrev to_number : String → Option ℕ
to_number s = none

abbrev to_string : ℕ → String
to_string n = "1"

abbrev caller : Caller
caller = record { email = some "a@b.c"; project_token = some "token" }

by_user :
    can_activate service to_number user_mode (some (text "maps")) caller ("owner" ∷ []) ≡ ok maps
unfolding can_activate look_up validate_user is_id is_name
by_user = refl

can_activate_sound_example :
    ((is_id service to_number maps (text "maps") || is_name service to_number maps (text "maps"))
      ≡ true)
    × IsVouched service user_mode (text "maps") caller ("owner" ∷ []) maps
can_activate_sound_example =
    can_activate_sound service to_number user_mode (text "maps") caller ("owner" ∷ []) maps by_user

lost_membership_example :
    can_activate service to_number any_mode (some (text "maps")) caller ("owner" ∷ []) ≡ failed
lost_membership_example =
    lost_membership service to_number (text "maps") caller ("owner" ∷ []) maps by_user refl refl

abbrev asked : List String
asked = "maps" ∷ "maps" ∷ []

validate_project_list_example :
    ((validate_project_list service to_string (some asked) caller ≡ ok true)
      ↔ ((asked ≢ []) × All (HasAccess service to_string caller) asked))
    × ((validate_project_list service to_string (some asked) caller ≡ ok true)
        ⊎ (validate_project_list service to_string (some asked) caller ≡ forbidden))
validate_project_list_example = validate_project_list_lem service to_string caller asked
