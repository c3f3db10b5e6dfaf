-- ===== src/StepBus.antt =====
-- src/orchestration/step_bus.py: the consumer that keeps a de-duplicated trace of the steps.
pub mod Trace
mod Tests
use multi_agent_intel_pipeli.Prelude.{
  ℕ, zero, suc, String, List, [], ◌∷◌, ◌++◌, Option, none, some, if◌then◌else◌, Dict, lookup,
  insert, length, nonempty_text,
}
use multi_agent_intel_pipeli.Value.{Fields}

-- A runtime step: `identity.idempotency_key`, and all that the consumer does not read.
pub record Step : Type 0 where
  pub idempotency_key : String
  pub content : Fields

-- `StepTraceConsumer`: the target list, and the index of each key in it.
pub record TraceConsumer : Type 0 where
  pub target : List Step
  pub positions : Dict ℕ

-- `StepTraceConsumer([])`
abbrev pub empty_trace : TraceConsumer
empty_trace = record { target = []; positions = [] }

-- `target[i] = step`. An index beyond the list, where Python raises, changes nothing.
unfoldable pub set_at : ℕ → Step → List Step → List Step
set_at i step [] = []
set_at zero step (s ∷ ss) = step ∷ ss
set_at (suc i) step (s ∷ ss) = s ∷ set_at i step ss

append_step : Step → TraceConsumer → TraceConsumer
append_step step c = record {
  target = c.target ++ step ∷ [];
  positions = insert step.idempotency_key (length c.target) c.positions;
}

consume_at : Step → TraceConsumer → Option ℕ → TraceConsumer
unfolding append_step
consume_at step c none = append_step step c
consume_at step c (some i) = record c { target = set_at i step c.target }

-- `StepTraceConsumer.consume`
unfoldable pub consume : Step → TraceConsumer → TraceConsumer
unfolding consume_at append_step
consume step c =
    if nonempty_text step.idempotency_key
    then consume_at step c (lookup step.idempotency_key c.positions)
    else append_step step c

unfoldable pub consume_all : List Step → TraceConsumer → TraceConsumer
consume_all [] c = c
consume_all (step ∷ steps) c = consume_all steps (consume step c)
