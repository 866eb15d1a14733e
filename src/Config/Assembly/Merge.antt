-- ===== src/Config/Assembly/Merge.antt =====
-- Which value of a key a device gets.
use upload.Prelude.Sets.{add_all, any-add_all}
use upload.Prelude.{
  includes, ◌||◌, String, String_eq, Option, none, some, List, [], ◌∷◌, ◌==◌, ◌≡◌, refl, ◌∙◌, ap,
  arith, eq_iff, if◌then◌else◌, Bool-cases, inl, inr,
}
use upload.Config.Json.{Value, Fields, empty, field, lookup, assign, assign_all, is_present}
use upload.Config.Paths.Laws.{lookup-assign}
use upload.Config.Groups.{or_option}
use upload.Config.Version.{GroupMap, get_group, set_group}
use upload.Config.Assembly.{
  drop_nulls, merged_group, group_or_empty, merge_names, merge_by_name, names_of,
}

-- The keys of an object are distinct.
abbrev pub HasDistinctKeys : Fields → Type 0
HasDistinctKeys empty = Unit {0}
HasDistinctKeys (field k v fields) = (lookup k fields ≡ none) × HasDistinctKeys fields

lookup-assign_all :
    (key : String) (target source : Fields)
    → HasDistinctKeys source
    → lookup key (assign_all target source) ≡ or_option (lookup key source) (lookup key target)
unfolding lookup assign_all
lookup-assign_all key target empty d = refl
lookup-assign_all key target (field k v source) d =
    lookup-assign_all key (assign k v target) source d.1
    ∙ ground (arith, lookup-assign key k v target, eq_iff k key, d.0)

assign-HasDistinctKeys :
    (key : String) (v : Value) (fields : Fields)
    → HasDistinctKeys fields
    → HasDistinctKeys (assign key v fields)
unfolding assign lookup
assign-HasDistinctKeys key v empty d = (refl, tt)
assign-HasDistinctKeys key v (field j w fields) d = elim (Bool-cases (j == key)) [
  | inl same ↦ rw same d
  | inr other ↦ rw other (
    ground (arith, lookup-assign j key v fields, eq_iff key j, eq_iff j key, d.0),
    assign-HasDistinctKeys key v fields d.1,
  )
]

assign_all-HasDistinctKeys :
    (target source : Fields) → HasDistinctKeys target → HasDistinctKeys (assign_all target source)
unfolding assign_all
assign_all-HasDistinctKeys target empty d = d
assign_all-HasDistinctKeys target (field k v source) d =
    assign_all-HasDistinctKeys (assign k v target) source (assign-HasDistinctKeys k v target d)

-- A null counts as no value.
abbrev pub non_null : Option Value → Option Value
non_null o = if is_present o then o else none

lookup-drop_nulls-none :
    (key : String) (fields : Fields)
    → lookup key fields ≡ none
    → lookup key (drop_nulls fields) ≡ none
unfolding lookup drop_nulls
lookup-drop_nulls-none key empty h = refl
lookup-drop_nulls-none key (field k v fields) h =
    ground (arith, eq_iff k key, lookup-drop_nulls-none key fields)

lookup-drop_nulls :
    (key : String) (fields : Fields)
    → HasDistinctKeys fields
    → lookup key (drop_nulls fields) ≡ non_null (lookup key fields)
unfolding lookup drop_nulls
lookup-drop_nulls key empty d = refl
lookup-drop_nulls key (field k v fields) d = elim (Bool-cases (is_present (some v))) [
  | inl given ↦ rw given (ground (arith, given, lookup-drop_nulls key fields d.1))
  | inr absent ↦ rw absent (
      ground (
        arith,
        absent,
        eq_iff k key,
        d.0,
        lookup-drop_nulls key fields d.1,
        lookup-drop_nulls-none k fields,
      ))
]

or_option-none : (o : Option Value) → or_option o none ≡ o
or_option-none none = refl
or_option-none (some v) = refl

-- For each key of a group a device gets the value of its own revision, or else that of the maps, or
-- else that of the globals, and nothing where the first of these that is there is null.
pub lookup-merged_group :
    (key : String) (globals of_maps of_device : Fields)
    → HasDistinctKeys globals
    → HasDistinctKeys of_maps
    → HasDistinctKeys of_device
    → lookup key (merged_group globals of_maps of_device)
      ≡ non_null
          (or_option (lookup key of_device) (or_option (lookup key of_maps) (lookup key globals)))
unfolding merged_group lookup
lookup-merged_group key globals of_maps of_device dg dm dd =
    let first = assign_all empty globals in
    let second = assign_all first of_maps in
    lookup-drop_nulls key (assign_all second of_device) (
      assign_all-HasDistinctKeys second of_device
        (assign_all-HasDistinctKeys first of_maps (assign_all-HasDistinctKeys empty globals tt)))
    ∙ ap non_null (
        lookup-assign_all key second of_device dd
        ∙ ap (or_option (lookup key of_device)) (
            lookup-assign_all key first of_maps dm
            ∙ ap (or_option (lookup key of_maps))
                (lookup-assign_all key empty globals dg ∙ or_option-none (lookup key globals))))

get-set_group :
    (name k : String) (fields : Fields) (groups : GroupMap)
    → get_group name (set_group k fields groups)
      ≡ (if k == name then some fields else get_group name groups)
unfolding get_group set_group
get-set_group name k fields [] = refl
get-set_group name k fields ((n, f) ∷ groups) =
    ground (arith, eq_iff k name, eq_iff n k, eq_iff n name, get-set_group name k fields groups)

module _ (globals : Fields) (of_maps of_device : GroupMap) where
  -- What the device gets for a group of a name.
  abbrev pub group_of : String → Fields
  group_of name = merged_group globals (group_or_empty name of_maps) (group_or_empty name of_device)

  get-merge_names :
      (name : String) (names : List String) (merged : GroupMap)
      → get_group name (merge_names globals of_maps of_device names merged)
        ≡ (if includes names name then some (group_of name) else get_group name merged)
  unfolding merge_names
  get-merge_names name [] merged = refl
  get-merge_names name (n ∷ names) merged =
      get-merge_names name names (set_group n (group_of n) merged)
      ∙ elim (Bool-cases (includes names name)) [
        | inl later ↦ rw (later) (ground (arith, later))
        | inr last ↦ elim (Bool-cases (n == name)) [
          | inl same ↦
              let e : n ≡ name = (eq_iff n name).0 same in
              rw (last, get-set_group name n (group_of n) merged, same)
                (ap (λ m. some (group_of m)) e)
          | inr other ↦ rw (last, get-set_group name n (group_of n) merged, other) refl
        ]
      ]

  -- A device gets a group of a name exactly when its maps or its own revision have one, merged of
  -- both and of the globals.
  pub get-merge_by_name :
      (name : String)
      → get_group name (merge_by_name globals of_maps of_device) ≡ (
          if includes (names_of of_maps) name || includes (names_of of_device) name
          then some (group_of name)
          else none)
  unfolding merge_by_name get_group
  get-merge_by_name name =
      get-merge_names name (add_all (names_of of_device) (add_all (names_of of_maps) [])) []
      ∙ ap (λ b. if b then some (group_of name) else none)
          (any-add_all (names_of of_device) (add_all (names_of of_maps) []) (λ n. n == name)
            ∙ ap (λ b. b || includes (names_of of_device) name)
                (any-add_all (names_of of_maps) [] (λ n. n == name)))
