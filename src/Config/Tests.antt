-- ===== src/Config/Tests.antt =====
-- The theorems about contents, versions and merges on sample contents.
use mathlib.Core.Option
use upload.Prelude.{String, true, none, some, List, [], ◌∷◌, ◌≡◌, refl, here}
use upload.Config.Json.{Value, null, number, text, Fields, empty, field, keys, lookup}
use upload.Config.Paths.{get_by_path}
use upload.Config.Yaml.{parse_yaml}
use upload.Config.Version.{compute_next_sem_ver, group_map, set_group, get_group}
use upload.Config.Version.Kept.{read}
use upload.Config.Version.Laws.{next-patch-read, next-major-read}
use upload.Config.Secrets.{mask, restore}
use upload.Config.Secrets.Mask.{hidden, mask_hides}
use upload.Config.Secrets.Restore.{restore-mask}
use upload.Config.Assembly.{merged_group, merge_by_name}
use upload.Config.Assembly.Merge.{group_of, lookup-merged_group, get-merge_by_name}
use upload.Config.Samples.{yaml, content_1, a_group, v1}

abbrev password : List String
password = "database" ∷ "password" ∷ []

abbrev level : List String
level = "level" ∷ []

next-patch-read_example :
    Option.map yaml.stringify (read (group_map yaml (a_group 1 1 "one" ∷ []) []) "app" "level")
    ≡ Option.map yaml.stringify (read (group_map yaml (a_group 2 2 "one" ∷ []) []) "app" "level")
unfolding compute_next_sem_ver set_group get_group keys parse_yaml lookup
next-patch-read_example =
    next-patch-read yaml (a_group 1 1 "one") [] (a_group 2 2 "one" ∷ []) (some v1) "app" "level"
      refl refl

next-major-read_example :
    (w : Value) × (read (group_map yaml (a_group 2 2 "two" ∷ []) []) "app" "level" ≡ some w)
unfolding compute_next_sem_ver read set_group get_group keys parse_yaml lookup
next-major-read_example =
    next-major-read yaml (a_group 1 1 "one") [] (a_group 2 2 "two" ∷ []) (some v1) "app" "level"
      (number "1") refl refl

mask_hides_example : hidden (get_by_path (mask (password ∷ []) content_1) password) ≡ true
mask_hides_example = mask_hides (password ∷ []) "database" ("password" ∷ []) content_1 here

restore-mask_example :
    get_by_path (restore content_1 (password ∷ []) (mask (password ∷ []) content_1)) password
    ≡ get_by_path content_1 password
restore-mask_example =
    restore-mask (password ∷ []) "database" ("password" ∷ []) content_1 (tt, tt) here

abbrev global_level : Fields
global_level = field "level" (text "global") (field "colour" (text "red") empty)

abbrev map_level : Fields
map_level = field "level" (text "map") (field "colour" null empty)

lookup-merged_group_example : lookup "colour" (merged_group global_level map_level empty) ≡ none
unfolding lookup
lookup-merged_group_example =
    lookup-merged_group "colour" global_level map_level empty (refl, (refl, tt)) (refl, (refl, tt))
      tt

get-merge_by_name_example :
    get_group "app" (merge_by_name global_level (("app", map_level) ∷ []) [])
    ≡ some (group_of global_level (("app", map_level) ∷ []) [] "app")
get-merge_by_name_example = get-merge_by_name global_level (("app", map_level) ∷ []) [] "app"
