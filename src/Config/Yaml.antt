-- ===== src/Config/Yaml.antt =====
-- `parseYaml` of apps/upload/src/config/config.service.ts, over the package js-yaml and the
-- printing of JSON, which are parameters.
use upload.Prelude.{String, Option, none, some, truthy, if◌then◌else◌}
use upload.Config.Json.{Value, object, Fields, empty, field}

-- `yaml.load`, none where it throws, `yaml.dump` of an object, `JSON.stringify`, and
-- the conversion `String`.
pub record Yaml : Type 0 where
  pub load : String → Option Value
  pub dump : Fields → String
  pub stringify : Value → String
  pub to_text : Value → String

-- The content of a file that is there.
abbrev content : Option String → String
content none = ""
content (some s) = s

-- Only an object counts, no array and no scalar.
unfoldable pub record_of : Option Value → Fields
record_of (some (object fields)) = fields
record_of _ = empty

unfoldable pub parse_yaml : Yaml → Option String → Fields
unfolding record_of
parse_yaml yaml file = if truthy file then record_of (yaml.load (content file)) else empty

-- `Object.keys(parsed).length > 0 ? yaml.dump(parsed) : null`
unfoldable pub dump_yaml : Yaml → Fields → Option String
dump_yaml yaml empty = none
dump_yaml yaml (field k v fields) = some (yaml.dump (field k v fields))
