-- ===== src/Rules/Context.antt =====
-- The context of a rule in libs/common/src/rules/services/rule-evaluation.service.ts: flattened to
-- dotted keys, with texts that are lists split, and with an indexed key for each element of an
-- array. `print` is how JavaScript prints a number.
pub mod Laws
use Prim.Native.String
use upload.Prelude.{
  ℕ, suc, String, String_eq, Bool, true, false, not, ◌||◌, Option, none, some, List, [], ◌∷◌, ◌++◌,
  ◌==◌, filter, map, if◌then◌else◌,
}
use upload.Config.Json.{
  Value, null, bool, number, text, array, object, Fields, empty, field, assign, lookup,
}
use upload.Rules.Text.{trim, split_at, comma}
use upload.Vault.Text.{has_char}

-- Texts are joined by `.`.
abbrev pub flat_key : String → String → String
flat_key prefix key = if prefix == "" then key else String.◌++◌ prefix (String.◌++◌ "." key)

-- The members of an object go below its key; an array stays whole.
unfoldable mutual
  pub flatten_context : Fields → String → Fields → Fields
  flatten_context empty prefix result = result
  flatten_context (field key value fields) prefix result =
      flatten_context fields prefix (flatten_value value (flat_key prefix key) result)

  pub flatten_value : Value → String → Fields → Fields
  flatten_value (object fields) flat result = flatten_context fields flat result
  flatten_value null flat result = assign flat null result
  flatten_value (bool b) flat result = assign flat (bool b) result
  flatten_value (number n) flat result = assign flat (number n) result
  flatten_value (text s) flat result = assign flat (text s) result
  flatten_value (array xs) flat result = assign flat (array xs) result

-- The trimmed pieces that are not empty.
unfoldable pub parts_of : String → List String
unfolding trim split_at
parts_of s = filter (λ part. not (part == "")) (map trim (split_at comma s))

-- An array with its indices as keys.
unfoldable pub array_from : (ℕ → String) → ℕ → List String → Fields
array_from print i [] = empty
array_from print i (part ∷ parts) = field (print i) (text part) (array_from print (suc i) parts)

abbrev pub array_of_parts : (ℕ → String) → String → List String → Value
array_of_parts print s (p ∷ q ∷ parts) = array (array_from print 0 (p ∷ q ∷ parts))
array_of_parts print s _ = text s

unfoldable pub normalize_value : (ℕ → String) → Value → Value
unfolding has_char parts_of array_from
normalize_value print (text s) =
    if has_char comma s then array_of_parts print s (parts_of s) else text s
normalize_value print v = v

unfoldable pub normalize_array_fields : (ℕ → String) → Fields → Fields → Fields
unfolding normalize_value
normalize_array_fields print empty result = result
normalize_array_fields print (field key value fields) result =
    normalize_array_fields print fields (assign key (normalize_value print value) result)

-- `flattenContext`, then `normalizeArrayFields`.
unfoldable pub normal_context : (ℕ → String) → Fields → Fields
unfolding flatten_context normalize_array_fields
normal_context print context = normalize_array_fields print (flatten_context context "" empty) empty

unfoldable pub values_of : Fields → List Value
values_of empty = []
values_of (field key value fields) = value ∷ values_of fields

-- The elements of an array that has some.
unfoldable pub elements : Value → Option (List Value)
unfolding values_of
elements (array (field key value fields)) = some (value ∷ values_of fields)
elements _ = none

-- `arrayFields[key]`
unfoldable pub array_at : Fields → String → Option (List Value)
unfolding elements
array_at context key = elim (lookup key context) [ none ↦ none | some value ↦ elements value ]

unfoldable pub has_arrays : Fields → Bool
unfolding elements
has_arrays empty = false
has_arrays (field key value fields) =
    (elim (elements value) [ none ↦ false | some xs ↦ true ]) || has_arrays fields

module _ (print : ℕ → String) where
  abbrev pub indexed_name : String → ℕ → String
  indexed_name key i = String.◌++◌ key (String.◌++◌ "_" (print i))

  -- The entries of an array from an index on.
  unfoldable pub indexed : String → ℕ → List Value → List (String × Value)
  indexed key i [] = []
  indexed key i (x ∷ xs) = (indexed_name key i, x) ∷ indexed key (suc i) xs

  unfoldable pub spread_entry : String → Value → List (String × Value)
  unfolding indexed elements
  spread_entry key value = elim (elements value) [
    | none ↦ (key, value) ∷ []
    | some xs ↦ indexed key 1 xs
  ]

  unfoldable pub spread_entries : Fields → List (String × Value)
  unfolding spread_entry
  spread_entries empty = []
  spread_entries (field key value fields) = spread_entry key value ++ spread_entries fields

unfoldable pub assign_entries : List (String × Value) → Fields → Fields
assign_entries [] result = result
assign_entries ((key, value) ∷ entries) result = assign_entries entries (assign key value result)

-- `transformedContext`
unfoldable pub spread_context : (ℕ → String) → Fields → Fields
unfolding spread_entries assign_entries
spread_context print context = assign_entries (spread_entries print context) empty
