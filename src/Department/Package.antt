-- ===== src/Department/Package.antt =====
-- src/agents/lead.py: what `finalize_package` assembles from the settled tasks. The texts for a reader that are
-- fixed for a department, its visual focus and its chat's members, are left out.
use multi_agent_intel_pipeli.Prelude.{
  ℕ, ◌+◌, String, Bool, true, false, List, [], ◌∷◌, ◌++◌, map, Option, none, some, ◌==◌, eqb, ltb,
  if◌then◌else◌, keep, length, take, concat, join, decimal, has_text, strip,
}
use multi_agent_intel_pipeli.Value.{Value}
use multi_agent_intel_pipeli.Models.{
  EvidencePacket, GapSeverity, GapCandidate, AnswerStatus, answered, partially_answered,
  AnswerMatrixUpdate,
}
use multi_agent_intel_pipeli.Contracts.{
  TaskStatus, accepted, degraded, blocked, skipped, Confidence,
}
use multi_agent_intel_pipeli.Contracts.Artifacts.{TaskArtifact}
use multi_agent_intel_pipeli.TaskRouter.{Assignment}
use multi_agent_intel_pipeli.Department.Settle.{TaskSummary, Settled, or_text, contract_note}

-- `_matrix_status_for_task_status`
unfoldable pub lead_matrix_status : TaskStatus → AnswerStatus
lead_matrix_status accepted = answered
lead_matrix_status degraded = partially_answered
lead_matrix_status blocked = partially_answered
lead_matrix_status skipped = partially_answered
lead_matrix_status _ = AnswerStatus.pending

-- `task_status in {"degraded", "blocked", "skipped"}`
abbrev leaves_gaps : TaskStatus → Bool
leaves_gaps degraded = true
leaves_gaps blocked = true
leaves_gaps skipped = true
leaves_gaps _ = false

abbrev gap_severity : TaskStatus → GapSeverity
gap_severity blocked = GapSeverity.high
gap_severity skipped = GapSeverity.high
gap_severity _ = GapSeverity.medium

-- The ids of the first five packets, but for the default id.
abbrev evidence_ids : List EvidencePacket → List String
evidence_ids packets =
    keep (λ id. if id == "n/v" then false else true) (map (λ p. p.packet_id) (take 5 packets))

gaps_from :
    (department task_key : String) → TaskStatus → List String → ℕ → List String → List GapCandidate
gaps_from department task_key status ids idx [] = []
gaps_from department task_key status ids idx (question ∷ questions) =
    let rest = gaps_from department task_key status ids (idx + 1) questions in
    if has_text question
    then record {
      gap_id = concat (task_key ∷ "-gap-" ∷ decimal idx ∷ []);
      question = strip question;
      severity = gap_severity status;
      owner = department;
      resolution_hint = concat ("Follow-up research for task '" ∷ task_key ∷ "'." ∷ []);
      evidence_packet_ids = ids;
      legacy_origin = "department_package";
    }
      ∷ rest
    else rest

-- `_build_gap_candidates_for_task`
unfoldable pub build_gap_candidates_for_task :
    String → Assignment → TaskStatus → List String → List EvidencePacket → List GapCandidate
unfolding gaps_from
build_gap_candidates_for_task department a status open_points packets =
    if leaves_gaps status
    then gaps_from department a.task_key status (evidence_ids packets) 1 (take 6 open_points)
    else []

-- `"; ".join([str(item).strip() for item in items[:3] if str(item).strip()])`
abbrev first_points : List String → String
first_points items = join "; " (map strip (keep has_text (take 3 items)))

-- `_build_answer_matrix_updates_for_task`
unfoldable pub build_answer_matrix_updates_for_task :
    Assignment
    → TaskStatus
    → (accepted_points open_points : List String) → List EvidencePacket
    → List AnswerMatrixUpdate
unfolding lead_matrix_status
build_answer_matrix_updates_for_task a status accepted_points open_points packets =
    map
      (λ question_id. record {
        field_key = question_id;
        answer = or_text (first_points accepted_points) "n/v";
        status = lead_matrix_status status;
        evidence_packet_ids = evidence_ids packets;
        notes = first_points open_points;
      })
      a.question_ids

abbrev packets_of : Option TaskArtifact → List EvidencePacket
packets_of none = []
packets_of (some artifact) = artifact.evidence_packages

-- The lists that the loop extends.
pub record Assembled : Type 0 where
  pub task_summaries : List TaskSummary
  pub accepted_points : List String
  pub open_questions : List String
  pub sources : List Value
  pub evidence_packages : List EvidencePacket
  pub gap_candidates : List GapCandidate
  pub answer_matrix_updates : List AnswerMatrixUpdate

abbrev pub nothing_assembled : Assembled
nothing_assembled = record {
  task_summaries = [];
  accepted_points = [];
  open_questions = [];
  sources = [];
  evidence_packages = [];
  gap_candidates = [];
  answer_matrix_updates = [];
}

-- The task's part, in front of the parts of the later tasks.
unfoldable pub add_task :
    String → Assignment → Option TaskArtifact → Settled → Assembled → Assembled
add_task department a artifact t later = record {
  task_summaries =
      record {
        task_key = a.task_key;
        label = a.label;
        status = t.status;
        accepted_points = t.accepted_points;
        open_points = take 6 t.open_points;
        summary = t.summary;
      }
      ∷ later.task_summaries;
  accepted_points = t.accepted_points ++ later.accepted_points;
  open_questions = t.open_points ++ later.open_questions;
  sources = t.sources ++ later.sources;
  evidence_packages = packets_of artifact ++ later.evidence_packages;
  gap_candidates =
      build_gap_candidates_for_task department a t.status t.open_points (packets_of artifact)
      ++ later.gap_candidates;
  answer_matrix_updates =
      build_answer_matrix_updates_for_task a t.status t.accepted_points t.open_points
        (packets_of artifact)
      ++ later.answer_matrix_updates;
}

-- The same with the note on the task's contract violations.
unfoldable pub add_settled :
    String → Assignment → Option TaskArtifact → Settled → Assembled → Assembled
unfolding add_task
add_settled department a artifact t later =
    let all_tasks = add_task department a artifact t later in
    record all_tasks {
      open_questions = contract_note a.task_key artifact ++ all_tasks.open_questions;
    }

count_tasks : (TaskStatus → Bool) → List TaskSummary → ℕ
count_tasks p ts = length (keep (λ t. p t.status) ts)

abbrev is_accepted : TaskStatus → Bool
is_accepted accepted = true
is_accepted _ = false

abbrev is_degraded : TaskStatus → Bool
is_degraded degraded = true
is_degraded _ = false

-- The package's confidence from its tasks' statuses; no task counts as one.
unfoldable pub confidence_of : List TaskSummary → Confidence
unfolding count_tasks
confidence_of ts =
    let total = length ts in
    let accepted_count = count_tasks is_accepted ts in
    if eqb accepted_count (if eqb total 0 then 1 else total)
    then Confidence.high
    else if ltb 0 (accepted_count + count_tasks is_degraded ts)
    then Confidence.medium
    else Confidence.low
