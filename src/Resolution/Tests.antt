-- ===== src/Resolution/Tests.antt =====
-- The controller's theorems at one package with a gap.
use multi_agent_intel_pipeli.Prelude.{◌≡◌, ◌↔◌, true, false, ◌||◌, [], ◌∷◌, none, Dict}
use multi_agent_intel_pipeli.Models.{GapCandidate, GapSeverity}
use multi_agent_intel_pipeli.Supervisor.{Envelope}
use multi_agent_intel_pipeli.Resolution.{classify, not_meeting_critical}
use multi_agent_intel_pipeli.Resolution.Buckets.{
  was_rejected, is_blocked, has_public_gap, has_contact_gap, has_unanswered,
  classify-not_meeting_critical,
}

abbrev gap : GapCandidate
gap = record {
  gap_id = "market_situation-gap-1";
  question = "How large is the market?";
  severity = GapSeverity.high;
  owner = "MarketDepartment";
  resolution_hint = "n/v";
  evidence_packet_ids = [];
  legacy_origin = "structured";
}

abbrev market_envelope : Envelope
market_envelope = record {
  decision = "accepted_with_gaps";
  reason = "";
  downstream_visible = true;
  raw_package = record {
    open_questions = "Unread." ∷ [];
    accepted_points = [];
    artifacts = record {
      answer_matrix_updates = [];
      gap_candidates = gap ∷ [];
      evidence_packets = [];
    };
    status_by_task = [];
  };
  admitted_payload = none;
}

abbrev packages : Dict Envelope
packages = ("MarketDepartment", market_envelope) ∷ []

classify-not_meeting_critical_example :
    ((classify packages [] []).bucket ≡ not_meeting_critical) ↔ (
      (was_rejected packages
        || is_blocked []
        || has_public_gap packages
        || has_contact_gap packages
        || has_unanswered [])
      ≡ false)
classify-not_meeting_critical_example = classify-not_meeting_critical packages [] []
