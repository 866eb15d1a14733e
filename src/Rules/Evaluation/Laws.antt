-- ===== src/Rules/Evaluation/Laws.antt =====
-- The evaluation of a rule over a context with arrays is that over the arrays' elements.
use upload.Prelude.{
  ℕ, suc, String, String_eq, Bool, true, false, Option, none, some, List, [], ◌∷◌, ◌≡◌, refl, ap,
  ap₂, ◌∙◌, arith, map, any, all, ◌||◌, ◌&&◌, All, Bool-cases, Option-cases, inl, inr,
}
use upload.Rules.Text.{is_one_of}
use upload.Config.Json.{Value, array, Fields, empty, lookup}
use upload.Rules.Condition.{
  Leaf, leaf, group, Members, absent, present, Items, nil, cons, has_members, many,
}
use upload.Rules.Context.{
  normal_context, has_arrays, array_at, elements, indexed, spread_entry, spread_entries,
  spread_context,
}
use upload.Rules.Context.Laws.{
  no_repeats, entry_keys, Holds, lookup-assign_entries-none, assign_entries-Holds, entry-Holds,
  has_arrays-array_at,
}
use upload.Rules.Spread.{
  as_array, get_spread_connector, adapt_operator_for_spread, sub_conditions, spread_condition,
  spread_leaf, connect, transform_condition_group, transform_all, spread_at, transform_members,
  transform_items,
}
use upload.Rules.Evaluation.{
  passes_each, Engine, Meaning, IsEngine, passes, transform_rule, spread_array_fields,
  evaluate_rule, passes_members,
}
use upload.Rules.Evaluation.Reference.{
  Reading, among, not_among, some_passes, each_passes, reading_of, listed, holds_as, holds_on_each,
  holds_at, holds_leaf, holds, holds_members, holds_each, reads_old, spreadable, spreadable_members,
  spreadable_each, are_groups,
}

-- Whether one of the results is true, or each of them.
abbrev combine : Bool → List Bool → Bool
combine true bs = any bs (λ b. b)
combine false bs = all bs (λ b. b)

combine-some : (test : Value → Bool) (xs : List Value) → combine true (map test xs) ≡ any xs test
combine-some test [] = refl
combine-some test (x ∷ xs) = ap (λ b. test x || b) (combine-some test xs)

combine-each : (test : Value → Bool) (xs : List Value) → combine false (map test xs) ≡ all xs test
combine-each test [] = refl
combine-each test (x ∷ xs) = ap (λ b. test x && b) (combine-each test xs)

as_array-listed : (v : Value) → as_array v ≡ listed v
unfolding listed
as_array-listed (array xs) = refl
as_array-listed v = refl

-- The adapted operator and its connector, as they are read.
abbrev spread_reading : Reading → Leaf → (String × Value) × Bool
spread_reading among l = (("in", listed l.value), true)
spread_reading not_among l = (("not in", listed l.value), false)
spread_reading some_passes l = ((l.operator, l.value), true)
spread_reading each_passes l = ((l.operator, l.value), false)

connector-in : get_spread_connector "in" ≡ true
unfolding get_spread_connector is_one_of
connector-in = refl

connector-not_in : get_spread_connector "not in" ≡ false
unfolding get_spread_connector is_one_of
connector-not_in = refl

adapt-reading :
    (operator : String) (value : Value)
    → adapt_operator_for_spread operator value ≡ elim (reading_of operator) [
      | among ↦ ("in", listed value)
      | not_among ↦ ("not in", listed value)
      | _ ↦ (operator, value)
    ]
unfolding adapt_operator_for_spread reading_of is_one_of
adapt-reading operator value = ground (arith, as_array-listed value)

connector-reading :
    (operator : String)
    → get_spread_connector operator ≡ elim (reading_of operator) [
      | among ↦ true
      | not_among ↦ get_spread_connector operator
      | some_passes ↦ true
      | each_passes ↦ false
    ]
unfolding get_spread_connector reading_of is_one_of
connector-reading operator = ground arith

adapted-reading :
    (l : Leaf) (r : Reading)
    → reading_of l.operator ≡ r
    → (
      adapt_operator_for_spread l.operator l.value,
      get_spread_connector (adapt_operator_for_spread l.operator l.value).0,
    )
      ≡ spread_reading r l
adapted-reading l among e = rw (adapt-reading l.operator l.value, e, connector-in) refl
adapted-reading l not_among e = rw (adapt-reading l.operator l.value, e, connector-not_in) refl
adapted-reading l some_passes e =
    rw (adapt-reading l.operator l.value, e)
      (ap (λ b. ((l.operator, l.value), b)) (rw e at (connector-reading l.operator)))
adapted-reading l each_passes e =
    rw (adapt-reading l.operator l.value, e)
      (ap (λ b. ((l.operator, l.value), b)) (rw e at (connector-reading l.operator)))

holds_as-combine :
    (m : Meaning) (r : Reading) (l : Leaf) (xs : List Value)
    → (let (adapted, connector) = spread_reading r l in
        combine connector (map (λ x. m.test adapted.0 adapted.1 (some x)) xs))
      ≡ holds_as m r l xs
holds_as-combine m among l xs = combine-some (λ x. m.test "in" (listed l.value) (some x)) xs
holds_as-combine m not_among l xs = combine-each (λ x. m.test "not in" (listed l.value) (some x)) xs
holds_as-combine m some_passes l xs = combine-some (λ x. m.test l.operator l.value (some x)) xs
holds_as-combine m each_passes l xs = combine-each (λ x. m.test l.operator l.value (some x)) xs

on_each-reading :
    (m : Meaning) (l : Leaf) (xs : List Value)
    → (let adapted = adapt_operator_for_spread l.operator l.value in
        combine
          (get_spread_connector adapted.0)
          (map (λ x. m.test adapted.0 adapted.1 (some x)) xs))
      ≡ holds_on_each m l xs
on_each-reading m l xs =
    ap (λ (s : (String × Value) × Bool). combine s.1 (map (λ x. m.test s.0.0 s.0.1 (some x)) xs))
      (adapted-reading l (reading_of l.operator) refl)
    ∙ holds_as-combine m (reading_of l.operator) l xs

module _ (print : ℕ → String) (engine : Engine) (m : Meaning) (e : IsEngine engine m)
    (context : Fields) where
  passes_sub_conditions :
      (l : Leaf) (adapted : String × Value) (i : ℕ) (xs : List Value) (spread : Fields)
      → All (Holds spread) (indexed print l.field.path i xs)
      → passes_each m spread (sub_conditions print l adapted i xs)
        ≡ map (λ x. m.test adapted.0 adapted.1 (some x)) xs
  unfolding passes sub_conditions indexed
  passes_sub_conditions l adapted i [] spread h = refl
  passes_sub_conditions l adapted i (x ∷ xs) spread h =
      ap₂ ◌∷◌ (ap (m.test adapted.0 adapted.1) h.0)
        (passes_sub_conditions l adapted (suc i) xs spread h.1)

  passes-connect :
      (spread : Fields) (b : Bool) (items : Items)
      → passes m spread (connect b items) ≡ combine b (passes_each m spread items)
  unfolding passes
  passes-connect spread true items = e.disjunction (passes_each m spread items)
  passes-connect spread false items = e.conjunction (passes_each m spread items)

  passes-spread_condition :
      (l : Leaf) (xs : List Value) (spread : Fields)
      → All (Holds spread) (indexed print l.field.path 1 xs)
      → passes m spread (spread_condition print l xs) ≡ holds_on_each m l xs
  unfolding spread_condition
  passes-spread_condition l xs spread h =
      let adapted = adapt_operator_for_spread l.operator l.value in
      passes-connect spread (get_spread_connector adapted.0) (sub_conditions print l adapted 1 xs)
      ∙ ap (combine (get_spread_connector adapted.0))
          (passes_sub_conditions l adapted 1 xs spread h)
      ∙ on_each-reading m l xs

  module _ (clean : no_repeats (entry_keys (spread_entries print context)) ≡ true) where
    entry_at :
        (l : Leaf) (v : Value)
        → lookup l.field.path context ≡ some v
        → All (Holds (spread_context print context)) (spread_entry print l.field.path v)
    unfolding spread_context
    entry_at l v found =
        entry-Holds print (Holds (spread_context print context)) context l.field.path v
          (assign_entries-Holds (spread_entries print context) empty clean) found

    passes_found :
        (l : Leaf) (v : Value) (xs : Option (List Value))
        → lookup l.field.path context ≡ some v
        → elements v ≡ xs
        → passes m (spread_context print context) (spread_at print l xs) ≡ holds_at m l (some v) xs
    unfolding passes spread_at spread_entry
    passes_found l v none found is =
        ap (m.test l.operator l.value) (rw (spread_entry, is) at (entry_at l v found)).0
    passes_found l v (some xs) found is =
        passes-spread_condition l xs (spread_context print context)
          (rw (spread_entry, is) at (entry_at l v found))

    passes_leaf :
        (l : Leaf)
        → reads_old (entry_keys (spread_entries print context)) context l ≡ true
        → passes m (spread_context print context) (spread_leaf print context l)
          ≡ holds_leaf m context l
    unfolding array_at passes spread_at spread_context lookup
    passes_leaf l reads = elim (Option-cases (lookup l.field.path context)) [
      | inl missing ↦
          rw (missing, array_at)
            (ap (m.test l.operator l.value) (
              lookup-assign_entries-none l.field.path (spread_entries print context) empty
                (let unread = rw missing at reads in ground arith)))
      | inr (v, found) ↦ rw (found, array_at) (passes_found l v (elements v) found refl)
    ]

    mutual
      unfolding passes holds spreadable transform_condition_group

      members_spread :
          (ms : Members)
          → spreadable_members (entry_keys (spread_entries print context)) context ms ≡ true
          → (ms' : Members) × (transform_members print context ms ≡ some ms')
            × (passes_members m (spread_context print context) ms' ≡ holds_members m context ms)
      members_spread absent h = (absent, refl, refl)
      members_spread (present items) h =
          let (items', e', p) = items_spread items h in (present items', rw e' refl, ap some p)

      items_spread :
          (items : Items)
          → spreadable_each (entry_keys (spread_entries print context)) context items ≡ true
          → (items' : Items) × (transform_items print context items ≡ some items')
            × (passes_each m (spread_context print context) items' ≡ holds_each m context items)
      items_spread nil h = (nil, refl, refl)
      items_spread (cons (leaf l) items) h =
          let (items', e', p) = items_spread items (ground arith) in
          (
            cons (spread_leaf print context l) items',
            rw e' refl,
            ap₂ ◌∷◌ (passes_leaf l (ground arith)) p,
          )
      items_spread (cons (group all_of one_of rest) items) h =
          let (all_of', e₁, p₁) = members_spread all_of (ground arith) in
          let (one_of', e₂, p₂) = members_spread one_of (ground arith) in
          let (items', e₃, p₃) = items_spread items (ground arith) in
          let nests : has_members all_of one_of ≡ true = ground arith in
          (
            cons (group all_of' one_of' rest) items',
            rw (nests, e₁, e₂, e₃) refl,
            ap₂ ◌∷◌ (ap₂ (λ a b. m.together a b rest) p₁ p₂) p₃,
          )

    all_spread :
        (items : Items)
        → are_groups items ≡ true
        → spreadable_each (entry_keys (spread_entries print context)) context items ≡ true
        → (items' : Items) × (transform_all print context items ≡ some items')
          × (passes_each m (spread_context print context) items' ≡ holds_each m context items)
    unfolding transform_all are_groups transform_condition_group passes holds spreadable
    all_spread nil g h = (nil, refl, refl)
    all_spread (cons (leaf l) items) g h = cc
    all_spread (cons (group all_of one_of rest) items) g h =
        let (all_of', e₁, p₁) = members_spread all_of (ground arith) in
        let (one_of', e₂, p₂) = members_spread one_of (ground arith) in
        let (items', e₃, p₃) = all_spread items g (ground arith) in
        (
          cons (group all_of' one_of' rest) items',
          rw (e₁, e₂, e₃) refl,
          ap₂ ◌∷◌ (ap₂ (λ a b. m.together a b rest) p₁ p₂) p₃,
        )

-- With no arrays the reference is the meaning itself.
module _ (m : Meaning) (context : Fields) (plain : has_arrays context ≡ false) where
  mutual
    unfolding passes holds

    holds_members-passes : (ms : Members) → passes_members m context ms ≡ holds_members m context ms
    holds_members-passes absent = refl
    holds_members-passes (present items) = ap some (holds_each-passes items)

    holds_each-passes : (items : Items) → passes_each m context items ≡ holds_each m context items
    holds_each-passes nil = refl
    holds_each-passes (cons (leaf l) items) =
        ap₂ ◌∷◌ (rw (has_arrays-array_at context l.field.path plain) refl) (holds_each-passes items)
    holds_each-passes (cons (group all_of one_of rest) items) =
        ap₂ ◌∷◌
          (ap₂ (λ a b. m.together a b rest) (holds_members-passes all_of)
            (holds_members-passes one_of))
          (holds_each-passes items)

-- For a rule whose conditions are groups of conditions and of groups with members, and a context in
-- which no key that the spread adds is another key of it or a field of the rule that it lacks: the
-- evaluation throws nothing and passes exactly where the rule holds over the flattened context with
-- its lists. A condition on a list with elements passes where one element passes ("in", "exists",
-- "equals"), where one is among its values ("contains"), where none is ("not contains"), or else
-- where each element passes.
pub evaluate_rule_lem :
    (print : ℕ → String) (engine : Engine) (m : Meaning) (e : IsEngine engine m) (items : Items)
    (rest context : Fields)
    → are_groups items ≡ true
    → no_repeats (entry_keys (spread_entries print (normal_context print context))) ≡ true
    → spreadable_each
        (entry_keys (spread_entries print (normal_context print context)))
        (normal_context print context)
        items
      ≡ true
    → evaluate_rule print engine (record { conditions = many items; rest = rest }) context
      ≡ some (m.overall (holds_each m (normal_context print context) items) rest)
unfolding evaluate_rule spread_array_fields transform_rule
evaluate_rule_lem print engine m e items rest context g clean h =
    let normal = normal_context print context in
    elim (Bool-cases (has_arrays normal)) [
      | inr plain ↦
          rw (plain, e.evaluates items rest normal, holds_each-passes m normal plain items) refl
      | inl arrays ↦
          (let (items', t, p) = all_spread print engine m e normal clean items g h in
            rw (arrays, t, e.evaluates items' rest (spread_context print normal), p) refl)
    ]
