-- ===== src/Rules/Evaluation.antt =====
-- `evaluateRule` of libs/common/src/rules/services/rule-evaluation.service.ts. The engine
-- (@usex/rule-engine) is a parameter, with what its documentation says of groups.
pub mod Reference
pub mod Laws
mod Tests
use upload.Prelude.{
  ℕ, String, Bool, true, false, not, Option, none, some, List, [], ◌∷◌, if◌then◌else◌, ◌≡◌, all,
  any,
}
use upload.Config.Json.{Value, Fields, empty, lookup}
use upload.Rules.Condition.{
  Leaf, Condition, leaf, group, Members, absent, present, Items, nil, cons, Conditions, many,
  single, Rule,
}
use upload.Rules.Context.{normal_context, has_arrays, spread_context}
use upload.Rules.Spread.{transform_all, ◌>>=◌}

-- What `ruleEngine.evaluate` answers.
pub data Evaluation : Type 0 where
  boolean : Bool → Evaluation
  object : Option Bool → Option Bool → Option Bool → Evaluation

-- `result?.isPassed ?? result?.result ?? result?.passed ?? false`
unfoldable pub passed_of : Evaluation → Bool
passed_of (boolean b) = b
passed_of (object (some b) result passed) = b
passed_of (object none (some b) passed) = b
passed_of (object none none (some b)) = b
passed_of (object none none none) = false

abbrev pub Engine : Type 0
Engine = Rule → Fields → Evaluation

-- The parts of a rule that are conditions.
unfoldable pub transform_rule : (ℕ → String) → Fields → Rule → Option Rule
unfolding transform_all
transform_rule print context rule = elim rule.conditions [
  | single c ↦ some rule
  | many items ↦ do
    items' ← transform_all print context items
    some (record rule { conditions = many items' })
]

-- `spreadArrayFields`
unfoldable pub spread_array_fields : (ℕ → String) → Fields → Rule → Option (Fields × Rule)
unfolding has_arrays spread_context transform_rule
spread_array_fields print context rule =
    if not (has_arrays context)
    then some (context, rule)
    else transform_rule print context rule >>= λ rule'. some (spread_context print context, rule')

unfoldable pub evaluate_rule : (ℕ → String) → Engine → Rule → Fields → Option Bool
unfolding normal_context spread_array_fields passed_of
evaluate_rule print engine rule context =
    spread_array_fields print (normal_context print context) rule >>= λ spread.
    some (passed_of (engine spread.1 spread.0))

-- How a condition, a group and a list of conditions pass: a condition by its operator, its value
-- and the value of its field, a group by what its members do, and a rule by its conditions.
pub record Meaning : Type 0 where
  pub test : String → Value → Option Value → Bool
  pub together : Option (List Bool) → Option (List Bool) → Fields → Bool
  pub overall : List Bool → Fields → Bool

module _ (m : Meaning) (context : Fields) where
  unfoldable mutual
    pub passes : Condition → Bool
    passes (leaf l) = m.test l.operator l.value (lookup l.field.path context)
    passes (group all_of one_of rest) =
        m.together (passes_members all_of) (passes_members one_of) rest

    pub passes_members : Members → Option (List Bool)
    passes_members absent = none
    passes_members (present items) = some (passes_each items)

    pub passes_each : Items → List Bool
    passes_each nil = []
    passes_each (cons c items) = passes c ∷ passes_each items

-- An engine goes by a meaning, in which the members under "and" all pass, and under "or" some.
pub record IsEngine (engine : Engine) (m : Meaning) : Type 0 where
  pub evaluates :
      (items : Items) (rest context : Fields)
      → passed_of (engine (record { conditions = many items; rest = rest }) context)
        ≡ m.overall (passes_each m context items) rest
  pub conjunction : (bs : List Bool) → m.together (some bs) none empty ≡ all bs (λ b. b)
  pub disjunction : (bs : List Bool) → m.together none (some bs) empty ≡ any bs (λ b. b)
