-- ===== src/Rules/Condition.antt =====
-- The rules of the engine @usex/rule-engine, as libs/common/src/rules/services/ reads them: the
-- conditions and the groups under "and" and "or". What else a condition, a group or a rule has is
-- its rest. A condition without a value has null.
use Prim.Native.String
use upload.Prelude.{String, Bool, true, false, if◌then◌else◌}
use upload.Config.Json.{Value, Fields}

-- A field with or without "$." before its path; a path has no "$" and is not made of dots only.
pub record FieldName : Type 0 where
  pub prefixed : Bool
  pub path : String

abbrev pub field_text : FieldName → String
field_text f = if f.prefixed then String.◌++◌ "$." f.path else f.path

pub record Leaf : Type 0 where
  pub field : FieldName
  pub operator : String
  pub value : Value
  pub rest : Fields

mutual
  pub data Condition : Type 0 where
    leaf : Leaf → Condition
    group : Members → Members → Fields → Condition

  -- What stands under "and" or "or", if anything does.
  pub data Members : Type 0 where
    absent : Members
    present : Items → Members

  pub data Items : Type 0 where
    nil : Items
    cons : Condition → Items → Items

-- `conditions`, a list or one condition.
pub data Conditions : Type 0 where
  many : Items → Conditions
  single : Condition → Conditions

pub record Rule : Type 0 where
  pub conditions : Conditions
  pub rest : Fields

-- `condition.and || condition.or`
abbrev pub has_members : Members → Members → Bool
has_members absent absent = false
has_members _ _ = true
