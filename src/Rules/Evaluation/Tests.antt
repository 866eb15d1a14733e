-- ===== src/Rules/Evaluation/Tests.antt =====
-- Rules over a device whose type is a list.
use upload.Rules.Spread.{spread_at}
use upload.Prelude.{
  ℕ, ℕ_eq, String, String_eq, Bool, true, false, Option, none, some, List, [], ◌==◌, ◌≡◌, refl, all,
  any, if◌then◌else◌,
}
use upload.Config.Json.{Value, text, array, object, Fields, empty, field, lookup, assign}
use upload.Rules.Condition.{
  Condition, leaf, group, absent, present, Items, nil, cons, Conditions, many, single,
}
use upload.Rules.Text.{trim, is_one_of}
use upload.Rules.Context.{normal_context, values_of, spread_entries, array_at}
use upload.Rules.Evaluation.{
  boolean, Engine, Meaning, IsEngine, passes, passes_each, evaluate_rule, passed_of,
}
use upload.Rules.Evaluation.Reference.{holds_each, are_groups, spreadable_each}
use upload.Rules.Evaluation.Laws.{evaluate_rule_lem}

abbrev print : ℕ → String
print n = if n == 1 then "1" else if n == 2 then "2" else "0"

-- Both are the same text.
abbrev same_text : Value → Value → Bool
same_text (text s) (text t) = s == t
same_text _ _ = false

abbrev members : Value → List Value
members (array xs) = values_of xs
members _ = []

-- "in", "not in" and, for any other operator, "equals".
abbrev sample_test : String → Value → Option Value → Bool
sample_test operator value none = false
sample_test operator value (some found) =
    if operator == "in"
    then any (members value) (λ x. same_text x found)
    else if operator == "not in"
    then all (members value) (λ x. if same_text x found then false else true)
    else same_text value found

abbrev connect_results : Option (List Bool) → Option (List Bool) → Fields → Bool
connect_results (some bs) one_of rest = all bs (λ b. b)
connect_results none (some bs) rest = any bs (λ b. b)
connect_results none none rest = false

abbrev meaning : Meaning
meaning = record {
  test = sample_test;
  together = connect_results;
  overall = λ bs rest. any bs (λ b. b);
}

abbrev run_conditions : Fields → Conditions → Fields → Bool
run_conditions rest (many items) context = meaning.overall (passes_each meaning context items) rest
run_conditions rest (single c) context = passes meaning context c

abbrev engine : Engine
engine rule context = boolean (run_conditions rule.rest rule.conditions context)

engine-IsEngine : IsEngine engine meaning
unfolding passed_of
engine-IsEngine = record {
  evaluates = λ items rest context. refl;
  conjunction = λ bs. refl;
  disjunction = λ bs. refl;
}

-- A device with the types "agent" and "agent_linux".
abbrev context : Fields
context = field "device" (object (field "type" (text "agent, agent_linux") empty)) empty

abbrev condition : String → String → Condition
condition operator value = leaf (record {
  field = record { prefixed = true; path = "device.type" };
  operator = operator;
  value = text value;
  rest = empty;
})

abbrev grouped : Condition → Items
grouped c = cons (group (present (cons c nil)) absent empty) nil

evaluate_rule_example :
    evaluate_rule print engine
      (record { conditions = many (grouped (condition "Contains" "agent_linux")); rest = empty })
      context
    ≡ some (
        meaning.overall
          (holds_each meaning
            (normal_context print context)
            (grouped (condition "Contains" "agent_linux")))
          empty)
unfolding holds_each normal_context trim are_groups spread_entries assign spreadable_each lookup
evaluate_rule_example =
    evaluate_rule_lem print engine meaning engine-IsEngine
      (grouped (condition "Contains" "agent_linux")) empty context refl refl refl

contains_run :
    evaluate_rule print engine
      (record { conditions = many (grouped (condition "Contains" "agent_linux")); rest = empty })
      context
    ≡ some true
unfolding evaluate_rule trim is_one_of assign passes_each spread_at array_at lookup
contains_run = refl

not_contains_run :
    evaluate_rule print engine
      (record { conditions = many (grouped (condition "not contains" "agent")); rest = empty })
      context
    ≡ some false
unfolding evaluate_rule trim is_one_of assign passes_each spread_at array_at lookup
not_contains_run = refl

-- A rule with one condition in place of a list keeps its field, which the spread takes away.
single_run :
    evaluate_rule print engine
      (record {
        conditions = single (group (present (cons (condition "equals" "agent") nil)) absent empty);
        rest = empty;
      })
      context
    ≡ some false
unfolding evaluate_rule trim is_one_of assign passes lookup
single_run = refl

equals_run :
    evaluate_rule print engine
      (record { conditions = many (grouped (condition "equals" "agent")); rest = empty })
      context
    ≡ some true
unfolding evaluate_rule trim is_one_of assign passes_each spread_at array_at lookup
equals_run = refl

-- A group with neither list among the members is an exception.
empty_group_run :
    evaluate_rule print engine
      (record { conditions = many (grouped (group absent absent empty)); rest = empty })
      context
    ≡ none
unfolding evaluate_rule trim is_one_of assign
empty_group_run = refl
