-- ===== src/RuntimeStep.antt =====
-- src/orchestration/runtime_step.py: the validator of a runtime step, on the dict of the step.
pub mod Valid
mod Tests
use Prim.Native.String.{count, ◌++◌}
use multi_agent_intel_pipeli.Prelude.{
  ℕ, zero, suc, ◌+◌, ◌-◌, String, Bool, true, false, not, ◌||◌, List, [], ◌∷◌, Option, none, some,
  ◌==◌, leb, if◌then◌else◌, str_mem, has_text, concat, decimal, or_default,
}
use multi_agent_intel_pipeli.Value.{
  Value, str, list, obj, Fields, end, Items, nil, cons, ℤ, pos, negsuc, find, get, truthy,
}
use multi_agent_intel_pipeli.Supervisor.{set_field}

-- A `RuntimeStepValidationError` with its text, or an error of Python's own.
pub data StepError : Type 0 where
  invalid : String → StepError
  python_error : StepError

pub data Checked (A : Type 0) : Type 0 where
  raised : StepError → Checked A
  valid : A → Checked A

infixl 5 ◌>>=◌ ◌>>◌
-- The next check, unless one has raised.
abbrev pub ◌>>=◌ : {A B : Type 0} (checked : Checked A) (next : A → Checked B) → Checked B
raised error >>= next = raised error
valid part >>= next = next part

abbrev pub ◌>>◌ : {B : Type 0} (checked : Checked (Unit {0})) (next : Checked B) → Checked B
checked >> next = checked >>= (λ done. next)

abbrev pub require : Bool → String → Checked (Unit {0})
require false message = raised (invalid message)
require true message = valid tt

-- MAX_REFLECTION_CHARS
abbrev pub max_reflection_chars : ℕ
max_reflection_chars = 2000

-- TRUNCATION_MARKER
abbrev pub truncation_marker : String
truncation_marker = "... [truncated by RuntimeStep validator]"

-- `text[:n]`
unfoldable pub prefix : ℕ → String → String
prefix zero s = ""
prefix (suc n) String.[] = ""
prefix (suc n) (String.◌∷◌ c s) = String.◌∷◌ c (prefix n s)

-- The text of `truncate_reflection`.
unfoldable pub truncate_text : String → String
truncate_text text =
    if leb (count text) max_reflection_chars
    then text
    else prefix (max_reflection_chars - count truncation_marker) text ++ truncation_marker

-- `value in {...}`: `none` for a value that cannot be hashed, where Python raises.
abbrev one_of : List String → Value → Option Bool
one_of names (str s) = some (str_mem s names)
one_of names (list xs) = none
one_of names (obj fs) = none
one_of names _ = some false

abbrev valid_statuses : List String
valid_statuses = "pending" ∷ "running" ∷ "completed" ∷ "failed" ∷ "skipped" ∷ "cancelled" ∷ []

abbrev narrated_terminal_statuses : List String
narrated_terminal_statuses = "completed" ∷ "failed" ∷ "skipped" ∷ "cancelled" ∷ []

abbrev valid_modes : List String
valid_modes = "narrated" ∷ "imperative" ∷ []

abbrev valid_action_kinds : List String
valid_action_kinds = "capability_call" ∷ "state_transition" ∷ "sub_step_spawn" ∷ "no_op" ∷ []

abbrev valid_ref_kinds : List String
valid_ref_kinds = "artifact_id" ∷ "uri" ∷ "inline" ∷ []

abbrev require_member : Option Bool → String → Checked (Unit {0})
require_member none message = raised python_error
require_member (some b) message = require b message

-- `_require_mapping`
unfoldable pub require_mapping : Value → String → Checked Fields
require_mapping (obj fs) key = valid fs
require_mapping v key = raised (invalid (concat ("RuntimeStep." ∷ key ∷ " must be an object" ∷ [])))

-- `_require_list`
unfoldable pub require_list : Value → String → Checked Items
require_list (list xs) key = valid xs
require_list v key = raised (invalid (concat ("RuntimeStep." ∷ key ∷ " must be a list" ∷ [])))

abbrev at_least_one : ℤ → Bool
at_least_one (pos zero) = false
at_least_one (pos (suc n)) = true
at_least_one (negsuc n) = false

-- `str(value)` and `int(value)`, which is `none` where it raises.
module _ (text : Value → String) (to_int : Value → Option ℤ) where
  -- `str(d.get(key, ""))`
  text_at : String → Fields → String
  text_at key d = text (or_default (str "") (find key d))

  -- `truncate_reflection`
  unfoldable pub truncate_reflection : Value → String
  truncate_reflection value = truncate_text (if truthy value then text value else "")

  require_text : Fields → String → String → Checked (Unit {0})
  unfolding text_at
  require_text d key message = require (has_text (text_at key d)) message

  require_sequence : Option ℤ → Checked (Unit {0})
  require_sequence none = raised python_error
  require_sequence (some n) = require (at_least_one n) "identity.sequence must be >= 1"

  -- `int(d.get("sequence", 0) or 0)`
  sequence_of : Fields → Option ℤ
  sequence_of d = let v = get "sequence" d in if truthy v then to_int v else some (pos 0)

  check_ref : Value → String → ℕ → Checked (Unit {0})
  unfolding require_text
  check_ref (obj ref) path index = do
    require_member (one_of valid_ref_kinds (get "kind" ref))
        (concat (path ∷ "[" ∷ decimal index ∷ "].kind is invalid" ∷ []))
    require_text ref "value" (concat (path ∷ "[" ∷ decimal index ∷ "].value is required" ∷ []))
  check_ref v path index =
      raised (invalid (concat (path ∷ "[" ∷ decimal index ∷ "] must be an object" ∷ [])))

  -- `_validate_refs`
  unfoldable pub validate_refs : Items → String → ℕ → Checked (Unit {0})
  unfolding check_ref
  validate_refs nil path index = valid tt
  validate_refs (cons ref refs) path index =
      check_ref ref path index >> validate_refs refs path (index + 1)

  check_identity : Fields → Checked (Unit {0})
  unfolding require_text sequence_of require_sequence
  check_identity identity = do
    require_text identity "schema_version" "identity.schema_version is required"
    require_text identity "run_id" "identity.run_id is required"
    require_text identity "step_id" "identity.step_id is required"
    require_text identity "idempotency_key" "identity.idempotency_key is required"
    require_sequence (sequence_of identity)
    require_text identity "emitted_at" "identity.emitted_at is required"

  check_scope : Fields → Checked (Unit {0})
  unfolding require_text text_at
  check_scope scope = do
    require (str_mem (text_at "mode" scope) valid_modes)
        (concat ("scope.mode is invalid: " ∷ text_at "mode" scope ∷ []))
    require_text scope "phase" "scope.phase is required"
    require_text scope "actor" "scope.actor is required"

  -- `isinstance(d.get(key, {}), dict)`
  abbrev dict_at : String → Fields → Bool
  dict_at key d = elim (or_default (obj end) (find key d)) [ obj fs ↦ true | _ ↦ false ]

  check_action : Fields → Checked (Unit {0})
  unfolding require_text
  check_action action = do
    require_member (one_of valid_action_kinds (get "kind" action))
        "intent.planned_action.kind is invalid"
    require_text action "target" "intent.planned_action.target is required"
    require (dict_at "payload" action) "intent.planned_action.payload must be an object"

  planned_action : Value → Checked Fields
  planned_action (obj fs) = valid fs
  planned_action v = raised (invalid "intent.planned_action must be an object")

  check_refs : Fields → String → String → Checked (Unit {0})
  unfolding require_list validate_refs
  check_refs section key path = do
    refs ← require_list (get key section) key
    validate_refs refs path 0

  check_status : Fields → Fields → Checked (Unit {0})
  unfolding text_at
  check_status scope execution = do
    require (str_mem (text_at "status" execution) valid_statuses)
        (concat ("execution.status is invalid: " ∷ text_at "status" execution ∷ []))
    require
        (not (text_at "mode" scope == "narrated")
          || str_mem (text_at "status" execution) narrated_terminal_statuses)
        "narrated steps must use a terminal execution.status"

  check_lists : Fields → List String → Checked (Unit {0})
  unfolding require_list
  check_lists execution [] = valid tt
  check_lists execution (key ∷ keys) =
      require_list (get key execution) key >>= λ _. check_lists execution keys

  -- All checks on the five parts of a step.
  unfoldable pub check_parts :
      (identity scope intent execution outcome : Fields) → Checked (Unit {0})
  unfolding check_identity check_scope check_action planned_action check_refs check_status
      check_lists
  check_parts identity scope intent execution outcome = do
    check_identity identity
    check_scope scope
    action ← planned_action (get "planned_action" intent)
    check_action action
    check_refs intent "input_refs" "intent.input_refs"
    check_refs outcome "output_refs" "outcome.output_refs"
    check_status scope execution
    check_lists execution (
        "capability_calls" ∷ "state_transitions" ∷ "spawned_steps" ∷ "observations" ∷ "errors" ∷ [])

  -- The step with its reflection cut.
  unfoldable pub with_reflection : Fields → Fields → Fields
  unfolding set_field truncate_reflection
  with_reflection outcome payload =
      set_field "outcome"
        (obj (
          set_field "reflection"
            (str (truncate_reflection (or_default (str "") (find "reflection" outcome)))) outcome))
        payload

  -- `validate_runtime_step`
  unfoldable pub validate_runtime_step : Fields → Checked Fields
  validate_runtime_step payload = do
    identity ← require_mapping (get "identity" payload) "identity"
    scope ← require_mapping (get "scope" payload) "scope"
    intent ← require_mapping (get "intent" payload) "intent"
    execution ← require_mapping (get "execution" payload) "execution"
    outcome ← require_mapping (get "outcome" payload) "outcome"
    check_parts identity scope intent execution outcome
    valid (with_reflection outcome payload)
