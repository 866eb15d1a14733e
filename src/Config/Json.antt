-- ===== src/Config/Json.antt =====
-- The values that a group's YAML content stands for, as JavaScript holds them, and the dotted
-- paths into them of apps/upload/src/config/config.service.ts. A path is the list of its keys. An
-- array is an object with its indices as keys; a number is its printed form. The members that
-- JavaScript gives to every value of a type (`length`, `constructor`) are left out.
use upload.Prelude.{String, String_eq, Bool, Option, none, some, List, [], ◌∷◌, ◌==◌, if◌then◌else◌}

mutual
  pub data Value : Type 0 where
    null : Value
    bool : Bool → Value
    number : String → Value
    text : String → Value
    array : Fields → Value
    object : Fields → Value

  pub data Fields : Type 0 where
    empty : Fields
    field : String → Value → Fields → Fields

-- `fields[key]`
unfoldable pub lookup : String → Fields → Option Value
lookup k empty = none
lookup k (field j v fields) = if j == k then some v else lookup k fields

-- `fields[key] = value`
unfoldable pub assign : String → Value → Fields → Fields
assign k v empty = field k v empty
assign k v (field j w fields) = if j == k then field j v fields else field j w (assign k v fields)

-- `delete fields[key]`
unfoldable pub remove : String → Fields → Fields
remove k empty = empty
remove k (field j w fields) = if j == k then remove k fields else field j w (remove k fields)

-- `Object.keys(fields)`
unfoldable pub keys : Fields → List String
keys empty = []
keys (field j w fields) = j ∷ keys fields

-- `Object.assign(target, source)`, and `{ ...target, ...source }`.
unfoldable pub assign_all : Fields → Fields → Fields
assign_all target empty = target
assign_all target (field k v source) = assign_all (assign k v target) source

-- `value != null`, where none is `undefined`.
abbrev pub is_present : Option Value → Bool
is_present none = Bool.false
is_present (some null) = Bool.false
is_present _ = Bool.true
