-- ===== src/Models.antt =====
-- src/models/meeting_ready.py: the typed artifacts that departments hand to the run.
use multi_agent_intel_pipeli.Prelude.{ℕ, String, List, Bool}
use multi_agent_intel_pipeli.Value.{Fields}

pub data Level : Type 0 where
  high medium low : Level

pub data ClaimType : Type 0 where
  fact inference hypothesis gap : ClaimType

pub record EvidencePacket : Type 0 where
  pub packet_id : String
  pub claim : String
  pub confidence : Level
  pub claim_type : ClaimType
  pub source_quality : Level
  pub source_urls : List String
  pub source_notes : List String
  pub metadata : Fields

pub data GapSeverity : Type 0 where
  critical high medium low : GapSeverity

pub record GapCandidate : Type 0 where
  pub gap_id : String
  pub question : String
  pub severity : GapSeverity
  pub owner : String
  pub resolution_hint : String
  pub evidence_packet_ids : List String
  pub legacy_origin : String

-- The statuses of an entry of the answer matrix.
pub data AnswerStatus : Type 0 where
  answered partially_answered blocked pending : AnswerStatus

pub record AnswerMatrixUpdate : Type 0 where
  pub field_key : String
  pub answer : String
  pub status : AnswerStatus
  pub evidence_packet_ids : List String
  pub notes : String

pub data Availability : Type 0 where
  public internal_customer : Availability

pub data BlockerSeverity : Type 0 where
  hard soft : BlockerSeverity

pub record ReadinessBlocker : Type 0 where
  pub blocker_id : String
  pub field_key : String
  pub availability : Availability
  pub severity : BlockerSeverity
  pub reason : String
  pub owner : String
  pub next_step : String

pub record MinimumPackageStatus : Type 0 where
  pub required_verified_decision_makers : ℕ
  pub verified_decision_makers : ℕ
  pub required_hard_financial_inventory_signals : ℕ
  pub hard_financial_inventory_signals : ℕ
  pub met : Bool

pub data ResolutionChoice : Type 0 where
  resolve_now defer request_user_selection accept_gap : ResolutionChoice

pub record ResolutionDecision : Type 0 where
  pub decision : ResolutionChoice
  pub rationale : String
  pub selected_gap_ids : List String

pub record ResolutionPlan : Type 0 where
  pub plan_id : String
  pub decision : ResolutionDecision
  pub steps : List String
  pub owner : String

pub data ActionType : Type 0 where
  prepare_meeting collect_missing_evidence ask_user_selection hold : ActionType

pub record MeetingAction : Type 0 where
  pub action_type : ActionType
  pub title : String
  pub description : String
  pub owner : String
