-- ===== src/Python.antt =====
-- What the modelled code takes from Python where its text matters only as a whole: `str.lower`,
-- `str(value)` and `str.format` with named fields. They are arguments of the definitions.
use multi_agent_intel_pipeli.Prelude.{String, Bool, Option, none, some, Dict, if◌then◌else◌}
use multi_agent_intel_pipeli.Value.{Value, Fields, find, truthy}

pub record Python : Type 0 where
  pub lower : String → String
  pub text : Value → String
  -- `template.format(**fields)`, for templates that name only these fields.
  pub format : String → Dict String → String

module _ (py : Python) where
  text_of : String → Option Value → String
  text_of default none = default
  text_of default (some v) = if truthy v then py.text v else default

  -- `str(d.get(key, default) or default)`
  unfoldable pub text_or : String → String → Fields → String
  unfolding text_of
  text_or default key d = text_of default (find key d)

  text_at_of : String → Option Value → String
  text_at_of default none = default
  text_at_of default (some v) = py.text v

  -- `str(d.get(key, default))`
  unfoldable pub text_default : String → String → Fields → String
  unfolding text_at_of
  text_default default key d = text_at_of default (find key d)

flag_of : Bool → Option Value → Bool
flag_of default none = default
flag_of default (some v) = truthy v

-- `bool(d.get(key, default))`
unfoldable pub flag_or : Bool → String → Fields → Bool
unfolding flag_of
flag_or default key d = flag_of default (find key d)
