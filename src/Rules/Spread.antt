-- ===== src/Rules/Spread.antt =====
-- `spreadCondition` and `transformConditionGroup` of
-- libs/common/src/rules/services/rule-evaluation.service.ts: a condition on an array becomes a group
-- of conditions on its elements. A result of none is an exception.
use upload.Prelude.{
  ℕ, suc, String, Bool, true, false, Option, none, some, List, [], ◌∷◌, if◌then◌else◌,
}
use upload.Config.Json.{Value, array, Fields, empty, field}
use upload.Rules.Text.{is_one_of}
use upload.Rules.Condition.{
  Leaf, Condition, leaf, group, Members, absent, present, Items, nil, cons, has_members,
}
use upload.Rules.Context.{array_at, indexed_name}

infixl 5 ◌>>=◌
abbrev pub ◌>>=◌ : {A B : Type 0} → Option A → (A → Option B) → Option B
none >>= f = none
some a >>= f = f a

-- `getSpreadConnector`: whether some element is enough.
unfoldable pub get_spread_connector : String → Bool
unfolding is_one_of
get_spread_connector operator =
    is_one_of ("in" ∷ "exists" ∷ "equals" ∷ "equal" ∷ "==" ∷ "===" ∷ "contains" ∷ "contain" ∷ [])
      operator

-- `Array.isArray(value) ? value : [value]`
abbrev pub as_array : Value → Value
as_array (array xs) = array xs
as_array v = array (field "0" v empty)

unfoldable pub adapt_operator_for_spread : String → Value → String × Value
unfolding is_one_of
adapt_operator_for_spread operator value =
    if is_one_of ("contains" ∷ "contain" ∷ []) operator
    then ("in", as_array value)
    else if is_one_of ("not contains" ∷ "not contain" ∷ "notcontains" ∷ []) operator
    then ("not in", as_array value)
    else (operator, value)

-- `{ [connector]: conditions }`
abbrev pub connect : Bool → Items → Condition
connect true conditions = group absent (present conditions) empty
connect false conditions = group (present conditions) absent empty

module _ (print : ℕ → String) where
  -- The conditions on the elements from an index on.
  unfoldable pub sub_conditions : Leaf → String × Value → ℕ → List Value → Items
  sub_conditions l adapted i [] = nil
  sub_conditions l adapted i (x ∷ xs) =
      cons
        (leaf (record l {
          field = record l.field { path = indexed_name print l.field.path i };
          operator = adapted.0;
          value = adapted.1;
        }))
        (sub_conditions l adapted (suc i) xs)

  unfoldable pub spread_condition : Leaf → List Value → Condition
  unfolding adapt_operator_for_spread get_spread_connector sub_conditions
  spread_condition l xs =
      let adapted = adapt_operator_for_spread l.operator l.value in
      connect (get_spread_connector adapted.0) (sub_conditions l adapted 1 xs)

  unfoldable pub spread_at : Leaf → Option (List Value) → Condition
  unfolding spread_condition
  spread_at l none = leaf l
  spread_at l (some xs) = spread_condition l xs

  module _ (context : Fields) where
    -- A condition on an array that has elements is spread.
    abbrev pub spread_leaf : Leaf → Condition
    spread_leaf l = spread_at l (array_at context l.field.path)

    -- A member with no group and no field is an exception.
    unfoldable mutual
      pub transform_condition_group : Condition → Option Condition
      transform_condition_group (leaf l) = some (leaf l)
      transform_condition_group (group all_of one_of rest) = do
        all_of' ← transform_members all_of
        one_of' ← transform_members one_of
        some (group all_of' one_of' rest)

      pub transform_members : Members → Option Members
      transform_members absent = some absent
      transform_members (present items) = do items' ← transform_items items; some (present items')

      pub transform_items : Items → Option Items
      transform_items nil = some nil
      transform_items (cons (leaf l) items) = do
        items' ← transform_items items
        some (cons (spread_leaf l) items')
      transform_items (cons (group all_of one_of rest) items) =
          if has_members all_of one_of
          then (do
            all_of' ← transform_members all_of
            one_of' ← transform_members one_of
            items' ← transform_items items
            some (cons (group all_of' one_of' rest) items'))
          else none

    -- The conditions of a rule.
    unfoldable pub transform_all : Items → Option Items
    unfolding transform_condition_group
    transform_all nil = some nil
    transform_all (cons c items) = do
      c' ← transform_condition_group c
      items' ← transform_all items
      some (cons c' items')
