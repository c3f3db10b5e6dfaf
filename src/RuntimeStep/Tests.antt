-- ===== src/RuntimeStep/Tests.antt =====
-- The validator's theorem at a narrated step.
use Prim.Native.String.{count}
use multi_agent_intel_pipeli.Prelude.{String, ◌≡◌, ◌≤◌, refl, some, none, Option, has_text}
use multi_agent_intel_pipeli.Value.{
  Value, str, obj, list, int, pos, ℤ, Fields, end, field, nil, find, get, truthy,
}
use multi_agent_intel_pipeli.Supervisor.{set_field}
use multi_agent_intel_pipeli.RuntimeStep.{
  valid, require_mapping, require_list, max_reflection_chars, truncate_text, truncate_reflection,
  validate_refs, check_parts, with_reflection, validate_runtime_step,
}
use multi_agent_intel_pipeli.RuntimeStep.Valid.{validate_runtime_step-valid}

abbrev text : Value → String
text (str s) = s
text _ = ""

abbrev to_int : Value → Option ℤ
to_int (int n) = some n
to_int _ = none

abbrev outcome : Fields
outcome = field "reflection" (str "done") (field "output_refs" (list nil) end)

abbrev step : Fields
step =
    field "identity"
      (obj (
        field "schema_version" (str "1") (
          field "run_id" (str "r") (
            field "step_id" (str "s") (
              field "idempotency_key" (str "k")
                (field "sequence" (int (pos 1)) (field "emitted_at" (str "t") end)))))))
      (field "scope"
        (obj (
          field "mode" (str "narrated")
            (field "phase" (str "intake") (field "actor" (str "Supervisor") end))))
        (field "intent"
          (obj (
            field "planned_action"
              (obj (
                field "kind" (str "no_op")
                  (field "target" (str "x") (field "payload" (obj end) end))))
              (field "input_refs" (list nil) end)))
          (field "execution"
            (obj (
              field "status" (str "completed") (
                field "capability_calls" (list nil) (
                  field "state_transitions" (list nil) (
                    field "spawned_steps" (list nil)
                      (field "observations" (list nil) (field "errors" (list nil) end)))))))
            (field "outcome" (obj outcome) end))))

validate_runtime_step-valid_example :
    ((o : Fields) × (r : String) × (get "outcome" step ≡ obj o)
      × (find "reflection" o ≡ some (str r))
      × (count r ≤ max_reflection_chars))
    × (validate_runtime_step text to_int step ≡ valid step)
unfolding validate_runtime_step require_mapping require_list truncate_text truncate_reflection
    validate_refs check_parts with_reflection set_field get find truthy has_text
validate_runtime_step-valid_example =
    validate_runtime_step-valid text to_int (λ s. refl) step step refl
