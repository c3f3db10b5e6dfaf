-- ===== src/AnswerMatrix.antt =====
-- src/orchestration/meeting_questions.py, the statuses and the initial matrix, and the two functions
-- of src/orchestration/supervisor_loop.py that write to the run's answer matrix.
pub mod Writes
mod Tests
use multi_agent_intel_pipeli.Prelude.{
  String, ◌||◌, List, [], ◌∷◌, ◌++◌, map, Option, none, some, ◌==◌, if◌then◌else◌, Dict, insert,
  get_or, str_mem, concat,
}
use multi_agent_intel_pipeli.Models.{
  AnswerStatus, answered, partially_answered, blocked, pending, AnswerMatrixUpdate, GapCandidate,
  EvidencePacket,
}
use multi_agent_intel_pipeli.TaskRouter.{Assignment}

pub record MatrixEntry : Type 0 where
  pub status : AnswerStatus
  pub answer : String
  pub notes : String
  pub source_tasks : List String
  pub target_section : String

-- A pending entry, for a question of the given section.
abbrev pub fresh_entry : String → MatrixEntry
fresh_entry target_section = record {
  status = pending;
  answer = "";
  notes = "";
  source_tasks = [];
  target_section = target_section;
}

-- MEETING_QUESTION_REGISTRY, each question with its focus area.
abbrev pub meeting_question_registry : Dict String
meeting_question_registry =
    ("q_company_fundamentals", "company_profile")
    ∷ ("q_economic_commercial_situation", "company_profile")
    ∷ ("q_financial_deep_dive", "company_profile")
    ∷ ("q_market_situation", "industry_analysis")
    ∷ ("q_peer_companies", "market_network")
    ∷ ("q_product_asset_scope", "company_profile")
    ∷ ("q_transaction_event_intelligence", "company_profile")
    ∷ ("q_monetization_redeployment", "market_network")
    ∷ ("q_liquisto_opportunity_assessment", "synthesis")
    ∷ ("q_negotiation_relevance", "synthesis")
    ∷ ("q_contact_intelligence", "contact_intelligence")
    ∷ ("q_target_company_contacts", "contact_intelligence")
    ∷ []

-- `question_ids_for_task`, by TASK_TO_QUESTION_IDS
unfoldable pub question_ids_for_task : String → List String
question_ids_for_task task_key = get_or task_key [] (
    ("company_fundamentals", "q_company_fundamentals" ∷ [])
    ∷ ("economic_commercial_situation", "q_economic_commercial_situation" ∷ [])
    ∷ ("financial_deep_dive", "q_financial_deep_dive" ∷ [])
    ∷ ("market_situation", "q_market_situation" ∷ [])
    ∷ ("peer_companies", "q_peer_companies" ∷ [])
    ∷ ("product_asset_scope", "q_product_asset_scope" ∷ [])
    ∷ ("transaction_event_intelligence", "q_transaction_event_intelligence" ∷ [])
    ∷ ("monetization_redeployment", "q_monetization_redeployment" ∷ [])
    ∷ ("contact_discovery", "q_contact_intelligence" ∷ [])
    ∷ ("target_company_contacts", "q_target_company_contacts" ∷ [])
    ∷ ("contact_qualification", "q_contact_intelligence" ∷ [])
    ∷ ("liquisto_opportunity_assessment", "q_liquisto_opportunity_assessment" ∷ [])
    ∷ ("negotiation_relevance", "q_negotiation_relevance" ∷ [])
    ∷ [])

unfoldable pub build_initial_answer_matrix : Dict MatrixEntry
build_initial_answer_matrix = map (λ (q, area). (q, fresh_entry area)) meeting_question_registry

-- TASK_LIFECYCLE_STATUSES
abbrev pub task_lifecycle_statuses : List String
task_lifecycle_statuses =
    "pending" ∷ "pending_synthesis" ∷ "accepted" ∷ "degraded" ∷ "blocked" ∷ "skipped" ∷ []

-- `none` where Python raises `ValueError`.
unfoldable pub matrix_status_for_task_status : String → Option AnswerStatus
matrix_status_for_task_status task_status =
    if str_mem task_status task_lifecycle_statuses
    then (if task_status == "accepted"
        then some answered
        else if task_status == "degraded" || task_status == "blocked"
        then some partially_answered
        else if task_status == "skipped"
        then some blocked
        else some pending)
    else none

-- `if x not in xs: xs.append(x)`
unfoldable pub add_new : String → List String → List String
add_new x xs = if str_mem x xs then xs else xs ++ x ∷ []

-- The entry of a question after a task's update.
abbrev pub task_entry : Assignment → String → AnswerStatus → MatrixEntry → MatrixEntry
task_entry a task_status matrix_status entry = record entry {
  source_tasks = add_new a.task_key entry.source_tasks;
  status = matrix_status;
  notes = concat (
      "Last update from task '" ∷ a.task_key ∷ "' (" ∷ task_status ∷ ") in department '"
      ∷ a.assignee ∷ "'." ∷ []);
}

unfoldable pub update_questions :
    Assignment → String → AnswerStatus → List String → Dict MatrixEntry → Dict MatrixEntry
update_questions a task_status matrix_status [] matrix = matrix
update_questions a task_status matrix_status (q ∷ qs) matrix =
    let entry = get_or q (fresh_entry a.target_section) matrix in
    update_questions a task_status matrix_status qs
      (insert q (task_entry a task_status matrix_status entry) matrix)

-- `_update_answer_matrix_from_task`
unfoldable pub update_answer_matrix_from_task :
    Assignment → String → Dict MatrixEntry → Option (Dict MatrixEntry)
update_answer_matrix_from_task a task_status matrix =
    elim (matrix_status_for_task_status task_status) [
      | none ↦ none
      | some matrix_status ↦
          some (update_questions a task_status matrix_status a.question_ids matrix)
    ]

-- What a package of a department hands to the run, and what the run's memory keeps of it.
pub record Artifacts : Type 0 where
  pub answer_matrix_updates : List AnswerMatrixUpdate
  pub gap_candidates : List GapCandidate
  pub evidence_packets : List EvidencePacket

unfoldable pub add_all : List String → List String → List String
add_all [] xs = xs
add_all (p ∷ ps) xs = add_all ps (add_new p xs)

abbrev updated_entry : AnswerMatrixUpdate → MatrixEntry → MatrixEntry
updated_entry u entry = record entry {
  status = u.status;
  answer = u.answer;
  notes = u.notes;
  source_tasks = add_all u.evidence_packet_ids entry.source_tasks;
}

unfoldable pub apply_updates : List AnswerMatrixUpdate → Dict MatrixEntry → Dict MatrixEntry
apply_updates [] matrix = matrix
apply_updates (u ∷ us) matrix =
    let entry = get_or u.field_key (fresh_entry "n/v") matrix in
    apply_updates us (insert u.field_key (updated_entry u entry) matrix)

-- `_apply_structured_runtime_artifacts`, on a package whose artifacts the models have validated.
unfoldable pub apply_structured_runtime_artifacts :
    Artifacts → Dict MatrixEntry × Artifacts → Dict MatrixEntry × Artifacts
apply_structured_runtime_artifacts pkg (matrix, memory) = (
  apply_updates pkg.answer_matrix_updates matrix,
  record {
    answer_matrix_updates = memory.answer_matrix_updates ++ pkg.answer_matrix_updates;
    gap_candidates = memory.gap_candidates ++ pkg.gap_candidates;
    evidence_packets = memory.evidence_packets ++ pkg.evidence_packets;
  },
)
