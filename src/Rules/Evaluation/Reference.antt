-- ===== src/Rules/Evaluation/Reference.antt =====
-- What a rule means over a context with arrays, with which the evaluation of
-- libs/common/src/rules/services/rule-evaluation.service.ts is compared.
use upload.Prelude.{
  String, String_eq, Bool, true, false, not, ◌&&◌, ◌||◌, Option, none, some, List, [], ◌∷◌, all,
  any, includes, if◌then◌else◌,
}
use upload.Config.Json.{Value, array, Fields, empty, field, lookup}
use upload.Rules.Condition.{
  Leaf, Condition, leaf, group, Members, absent, present, Items, nil, cons, has_members,
}
use upload.Rules.Context.{array_at}
use upload.Rules.Text.{is_one_of}
use upload.Rules.Evaluation.{Meaning}

-- How a condition is read on a list.
pub data Reading : Type 0 where
  among not_among some_passes each_passes : Reading

abbrev pub is_word : String → String → Bool
is_word word operator = is_one_of (word ∷ []) operator

unfoldable pub reading_of : String → Reading
reading_of operator =
    if is_word "contains" operator || is_word "contain" operator
    then among
    else if is_word "not contains" operator
        || is_word "not contain" operator
        || is_word "notcontains" operator
    then not_among
    else if is_word "in" operator
        || is_word "exists" operator
        || is_word "equals" operator
        || is_word "equal" operator
        || is_word "==" operator
        || is_word "===" operator
    then some_passes
    else each_passes

-- The value of a condition as a list of values.
unfoldable pub listed : Value → Value
listed (array xs) = array xs
listed v = array (field "0" v empty)

module _ (m : Meaning) where
  -- "Contains" asks for one element that is among the values of the condition, "not contains" that
  -- none is, "in", "exists" and "equals" for one element that passes, and any other operator that
  -- each element passes.
  abbrev pub holds_as : Reading → Leaf → List Value → Bool
  holds_as among l xs = any xs (λ x. m.test "in" (listed l.value) (some x))
  holds_as not_among l xs = all xs (λ x. m.test "not in" (listed l.value) (some x))
  holds_as some_passes l xs = any xs (λ x. m.test l.operator l.value (some x))
  holds_as each_passes l xs = all xs (λ x. m.test l.operator l.value (some x))

  abbrev pub holds_on_each : Leaf → List Value → Bool
  holds_on_each l xs = holds_as (reading_of l.operator) l xs

  abbrev pub holds_at : Leaf → Option Value → Option (List Value) → Bool
  holds_at l found none = m.test l.operator l.value found
  holds_at l found (some xs) = holds_on_each l xs

module _ (m : Meaning) (context : Fields) where
  -- A condition on an array that has elements is tried on each, and holds where one of them, or
  -- each of them, passes, as the operator says; any other is tried on the value of its field.
  abbrev pub holds_leaf : Leaf → Bool
  holds_leaf l = holds_at m l (lookup l.field.path context) (array_at context l.field.path)

  unfoldable mutual
    pub holds : Condition → Bool
    holds (leaf l) = holds_leaf l
    holds (group all_of one_of rest) = m.together (holds_members all_of) (holds_members one_of) rest

    pub holds_members : Members → Option (List Bool)
    holds_members absent = none
    holds_members (present items) = some (holds_each items)

    pub holds_each : Items → List Bool
    holds_each nil = []
    holds_each (cons c items) = holds c ∷ holds_each items

-- The conditions that can be spread: each member is a condition or a group with members, and no
-- condition reads a key that the spread adds.
module _ (keys : List String) (context : Fields) where
  abbrev pub reads_old : Leaf → Bool
  reads_old l =
      (elim (lookup l.field.path context) [ none ↦ false | some v ↦ true ])
      || not (includes keys l.field.path)

  unfoldable mutual
    pub spreadable : Condition → Bool
    spreadable (leaf l) = reads_old l
    spreadable (group all_of one_of rest) =
        has_members all_of one_of && spreadable_members all_of && spreadable_members one_of

    pub spreadable_members : Members → Bool
    spreadable_members absent = true
    spreadable_members (present items) = spreadable_each items

    pub spreadable_each : Items → Bool
    spreadable_each nil = true
    spreadable_each (cons c items) = spreadable c && spreadable_each items

-- The conditions of a rule are groups.
unfoldable pub are_groups : Items → Bool
are_groups nil = true
are_groups (cons (leaf l) items) = false
are_groups (cons (group all_of one_of rest) items) = are_groups items
