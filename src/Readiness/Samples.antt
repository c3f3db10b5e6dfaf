-- ===== src/Readiness/Samples.antt =====
-- Inputs of the gate that the tests share.
use multi_agent_intel_pipeli.Prelude.{true, false, [], ◌∷◌, none}
use multi_agent_intel_pipeli.Models.{internal_customer, hard}
use multi_agent_intel_pipeli.Readiness.{GateInput}

abbrev pub clean : GateInput
clean = record {
  answer_matrix = [];
  remaining_public_gaps = [];
  pending_user_selection = false;
  evidence_health = "high";
  readiness_usable = true;
  discovery_ready = true;
  minimum_package = none;
  blockers = [];
}

-- The customer must still give its inventory list.
abbrev pub waiting : GateInput
waiting = record clean {
  blockers =
      record {
        blocker_id = "inventory";
        field_key = "inventory";
        availability = internal_customer;
        severity = hard;
        reason = "The inventory list is missing.";
        owner = "Customer";
        next_step = "Ask for the list.";
      }
      ∷ [];
}
