-- ===== src/Readiness.antt =====
-- src/orchestration/meeting_readiness.py: the gate that decides whether a run is meeting-ready. What
-- it reads of the resolution state is a record; the minimum package and the blockers that are given
-- to it have passed their models' validation, which drops the malformed blockers.
pub mod Verdict
pub mod Samples
mod Tests
use multi_agent_intel_pipeli.Prelude.{
  ℕ, ◌+◌, String, Bool, true, false, not, ◌&&◌, ◌||◌, List, [], ◌∷◌, ◌++◌, map, Option, ◌==◌, ltb,
  if◌then◌else◌, Dict, keep, any, length, take, str_mem, nonempty_text, concat, decimal,
  starts_with, strip, or_default,
}
use multi_agent_intel_pipeli.Models.{
  AnswerStatus, blocked, pending, Availability, public, internal_customer, BlockerSeverity, hard,
  soft, ReadinessBlocker, MinimumPackageStatus, Level, high, medium, low,
}
use multi_agent_intel_pipeli.AnswerMatrix.{MatrixEntry}

pub record GateInput : Type 0 where
  pub answer_matrix : Dict MatrixEntry
  pub remaining_public_gaps : List String
  pub pending_user_selection : Bool
  pub evidence_health : String
  pub readiness_usable : Bool
  pub discovery_ready : Bool
  -- None for a package that is missing or empty.
  pub minimum_package : Option MinimumPackageStatus
  pub blockers : List ReadinessBlocker

-- The statuses that the gate gives.
pub data RunStatus : Type 0 where
  meeting_ready discovery_ready_not_execution_ready blocked_not_meeting_ready : RunStatus

-- `MeetingReadinessAssessment`
pub record Assessment : Type 0 where
  pub run_status : RunStatus
  pub meeting_ready : Bool
  pub discovery_ready : Bool
  pub blocked_reasons : List String
  pub blockers : List ReadinessBlocker
  pub minimum_package : MinimumPackageStatus
  pub confidence : Level

-- The reasons and the blockers that one check adds.
abbrev pub Check : Type 0
Check = List String × List ReadinessBlocker

abbrev public_hard : String → String → String → String → String → ReadinessBlocker
public_hard blocker_id field_key reason owner next_step = record {
  blocker_id = blocker_id;
  field_key = field_key;
  availability = public;
  severity = hard;
  reason = reason;
  owner = owner;
  next_step = next_step;
}

-- `enumerate(remaining_gaps[:8], start=1)`
unfoldable pub gap_blockers : ℕ → List String → List ReadinessBlocker
gap_blockers idx [] = []
gap_blockers idx (gap ∷ gaps) =
    public_hard (concat ("public_gap_" ∷ decimal idx ∷ [])) "public_evidence_gap" gap
      "Research Department" "Public primary sources re-check and targeted follow-up research."
    ∷ gap_blockers (idx + 1) gaps

unfoldable pub check_gaps : List String → Check
check_gaps [] = ([], [])
check_gaps (gap ∷ gaps) = (
  concat (
        decimal (length (gap ∷ gaps))
        ∷ " meeting-critical public gap(s) remain after closure."
        ∷ [])
      ∷ [],
  gap_blockers 1 (take 8 (gap ∷ gaps)),
)

abbrev pub check_selection : Bool → Check
check_selection false = ([], [])
check_selection true = (
  "Required user depth selections are pending." ∷ [],
  public_hard "user_selection_pending" "user_selection" "User depth selection is still pending."
        "User" "Select unanswered questions to continue finalization."
      ∷ [],
)

abbrev is_open : AnswerStatus → Bool
is_open pending = true
is_open blocked = true
is_open _ = false

abbrev is_core_open : String × MatrixEntry → Bool
is_core_open (qid, entry) =
    is_open entry.status
    && not (starts_with "q_contact" qid)
    && not (starts_with "q_liquisto" qid)
    && not (starts_with "q_negotiation" qid)

-- `hard_blocked`
unfoldable pub core_open : Dict MatrixEntry → List String
core_open matrix = map (λ (qid, entry). qid) (keep is_core_open matrix)

abbrev join_comma : List String → String
join_comma [] = ""
join_comma (s ∷ []) = s
join_comma (s ∷ t ∷ ss) = concat (s ∷ ", " ∷ join_comma (t ∷ ss) ∷ [])

abbrev pub matrix_blocker : String → ReadinessBlocker
matrix_blocker qid =
    public_hard (concat ("matrix_" ∷ qid ∷ [])) qid "Core question unresolved in answer matrix."
      "Responsible Department Lead"
      "Complete at least one evidence-backed answer for this question."

unfoldable pub check_core : List String → Check
check_core [] = ([], [])
check_core (qid ∷ qids) = (
  concat (
        decimal (length (qid ∷ qids))
        ∷ " core question(s) still pending/blocked: "
        ∷ join_comma (qid ∷ qids)
        ∷ "."
        ∷ [])
      ∷ [],
  map matrix_blocker (take 8 (qid ∷ qids)),
)

abbrev has_answer : String × MatrixEntry → Bool
has_answer (qid, entry) = not (is_open entry.status)

-- `answered_or_partial`
unfoldable pub answered_or_partial : Dict MatrixEntry → ℕ
answered_or_partial matrix = length (keep has_answer matrix)

abbrev pub check_score : Bool → Check
check_score false = ([], [])
check_score true = (
  "Research readiness score is below the usable threshold." ∷ [],
  public_hard "readiness_score_low" "research_readiness.score"
        "Research readiness score below usable threshold." "Supervisor"
        "Strengthen coverage on core evidence questions."
      ∷ [],
)

abbrev pub check_health : Bool → Check
check_health false = ([], [])
check_health true = (
  "Evidence quality is too low for a confident meeting brief." ∷ [],
  public_hard "evidence_health_low" "quality_review.evidence_health" "Evidence quality is too low."
        "Research Department" "Replace weak sources with primary/authoritative sources."
      ∷ [],
)

abbrev is_hard : BlockerSeverity → Bool
is_hard hard = true
is_hard soft = false

abbrev is_public : Availability → Bool
is_public public = true
is_public internal_customer = false

abbrev pub is_public_hard : ReadinessBlocker → Bool
is_public_hard b = is_hard b.severity && is_public b.availability

abbrev pub is_internal_hard : ReadinessBlocker → Bool
is_internal_hard b = is_hard b.severity && not (is_public b.availability)

-- The reasons with those of the given blockers that the customer must resolve.
unfoldable pub add_reasons : List ReadinessBlocker → List String → List String
add_reasons [] reasons = reasons
add_reasons (b ∷ bs) reasons =
    let text = strip b.reason in
    add_reasons bs (
      if is_internal_hard b && nonempty_text text && not (str_mem text reasons)
      then reasons ++ text ∷ []
      else reasons)

abbrev default_package : MinimumPackageStatus
default_package = record {
  required_verified_decision_makers = 0;
  verified_decision_makers = 0;
  required_hard_financial_inventory_signals = 0;
  hard_financial_inventory_signals = 0;
  met = true;
}

abbrev join_checks : Check → Check → Check
join_checks (reasons, bs) (reasons', bs') = (reasons ++ reasons', bs ++ bs')

-- The five checks, in the order of the code.
unfoldable pub own_checks : GateInput → Check
own_checks i =
    let few = ltb (answered_or_partial i.answer_matrix) 4 in
    join_checks (check_gaps i.remaining_public_gaps) (
      join_checks (check_selection i.pending_user_selection) (
        join_checks (check_core (core_open i.answer_matrix)) (
          join_checks (check_score (not i.readiness_usable && few))
            (check_health (i.evidence_health == "low" && few)))))

abbrev status_for : Bool → Bool → RunStatus
status_for true discovery = RunStatus.meeting_ready
status_for false true = discovery_ready_not_execution_ready
status_for false false = blocked_not_meeting_ready

abbrev confidence_for : Bool → Bool → Bool → Level
confidence_for ready discovery healthy =
    if ready && healthy then high else if ready || discovery then medium else low

-- `MeetingReadinessGate.evaluate`
unfoldable pub evaluate : GateInput → Assessment
evaluate i =
    let own = own_checks i in
    let blockers = own.1 ++ i.blockers in
    let minimum = or_default default_package i.minimum_package in
    let has_public = any is_public_hard blockers in
    let has_internal = any is_internal_hard blockers in
    let ready = i.readiness_usable && minimum.met && not has_public && not has_internal in
    let discovery = not ready && i.discovery_ready && not has_public && has_internal in
    record {
      run_status = status_for ready discovery;
      meeting_ready = ready;
      discovery_ready = discovery;
      blocked_reasons = add_reasons i.blockers own.0;
      blockers = blockers;
      minimum_package = minimum;
      confidence = confidence_for ready discovery (i.evidence_health == "high");
    }
