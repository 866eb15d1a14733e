-- ===== src/Config/Paths.antt =====
-- `getByPath`, `setByPath` and `deleteByPath` of apps/upload/src/config/config.service.ts.
pub mod Laws
use upload.Prelude.{String, Option, none, some, List, [], ◌∷◌}
use upload.Config.Json.{
  Value, null, bool, number, text, array, object, Fields, empty, lookup, assign, remove,
}

-- `value?.[key]`
unfoldable pub property : Value → String → Option Value
property (array fields) key = lookup key fields
property (object fields) key = lookup key fields
property _ key = none

-- The reduction over the keys, from what the ones before have led to.
unfoldable pub follow : List String → Option Value → Option Value
follow [] found = found
follow (key ∷ path) none = follow path none
follow (key ∷ path) (some value) = follow path (property value key)

unfoldable pub get_by_path : Fields → List String → Option Value
get_by_path fields path = follow path (some (object fields))

-- What a key leads to, changed by the rest of the path: whatever is no object is replaced by an
-- empty one.
unfoldable pub descend : (Fields → Fields) → Option Value → Value
descend f (some (array fields)) = array (f fields)
descend f (some (object fields)) = object (f fields)
descend f _ = object (f empty)

unfoldable pub set_by_path : List String → Value → Fields → Fields
set_by_path [] value fields = fields
set_by_path (key ∷ []) value fields = assign key value fields
set_by_path (key ∷ next ∷ path) value fields =
    assign key (descend (set_by_path (next ∷ path) value) (lookup key fields)) fields

-- What a key leads to without the rest of the path; none where there is nothing to descend into.
unfoldable pub prune : (Fields → Fields) → Option Value → Option Value
prune f (some (array fields)) = some (array (f fields))
prune f (some (object fields)) = some (object (f fields))
prune f _ = none

unfoldable pub put_back : String → Option Value → Fields → Fields
put_back key none fields = fields
put_back key (some value) fields = assign key value fields

unfoldable pub delete_by_path : List String → Fields → Fields
delete_by_path [] fields = fields
delete_by_path (key ∷ []) fields = remove key fields
delete_by_path (key ∷ next ∷ path) fields =
    put_back key (prune (delete_by_path (next ∷ path)) (lookup key fields)) fields
