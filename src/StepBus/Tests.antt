-- ===== src/StepBus/Tests.antt =====
-- The trace of three steps, two of which have one key.
use multi_agent_intel_pipeli.Prelude.{◌≡◌, refl, String, [], ◌∷◌, lookup, insert}
use multi_agent_intel_pipeli.Value.{str, end, field}
use multi_agent_intel_pipeli.StepBus.{Step, empty_trace, set_at, consume, consume_all}
use multi_agent_intel_pipeli.StepBus.Trace.{upsert_all, consume_all-upsert_all}

abbrev step : String → String → Step
step key text = record { idempotency_key = key; content = field "text" (str text) end }

trace_of_three :
    (consume_all (step "a" "first" ∷ step "b" "other" ∷ step "a" "second" ∷ []) empty_trace).target
    ≡ step "a" "second" ∷ step "b" "other" ∷ []
unfolding consume_all consume set_at lookup insert
trace_of_three = refl

consume_all-upsert_all_example :
    (consume_all (step "a" "first" ∷ step "" "other" ∷ step "a" "second" ∷ []) empty_trace).target
    ≡ upsert_all (step "a" "first" ∷ step "" "other" ∷ step "a" "second" ∷ []) []
consume_all-upsert_all_example =
    consume_all-upsert_all (step "a" "first" ∷ step "" "other" ∷ step "a" "second" ∷ [])
