-- ===== src/Department/Finalize.antt =====
-- src/agents/lead.py: the tool `finalize_package`. The package is kept in the state; that it is
-- written to the run's memory as well is left out.
use multi_agent_intel_pipeli.Prelude.{
  ℕ, ◌+◌, String, Bool, true, false, not, ◌&&◌, List, [], ◌∷◌, ◌++◌, map, Option, none, some, ◌==◌,
  leb, if◌then◌else◌, is_some, keep, take, concat, has_text, strip, nonempty_text, str_mem,
}
use multi_agent_intel_pipeli.Value.{Value, str, Fields}
use multi_agent_intel_pipeli.Models.{EvidencePacket, GapCandidate, AnswerMatrixUpdate}
use multi_agent_intel_pipeli.Contracts.{
  TaskStatus, accepted, degraded, blocked, skipped, pending, pending_synthesis, Confidence,
}
use multi_agent_intel_pipeli.Contracts.RunState.{
  DepartmentRunState, ToolError, latest_artifact, latest_review, latest_decision,
}
use multi_agent_intel_pipeli.Python.{Python}
use multi_agent_intel_pipeli.PolicyGate.{
  DepartmentPolicy, GateResult, GateBlocker, evaluate_department_policy_gate,
}
use multi_agent_intel_pipeli.TaskRouter.{Assignment}
use multi_agent_intel_pipeli.Supervisor.{set_field}
use multi_agent_intel_pipeli.Department.{Department, Session}
use multi_agent_intel_pipeli.Department.Research.{Answer, Reply, run_research}
use multi_agent_intel_pipeli.Department.SafeText.{
  safe_prompt_text, safe_output_value, safe_output_fields,
}
use multi_agent_intel_pipeli.Department.Goods.{classify_goods, fill_scope}
use multi_agent_intel_pipeli.Department.Package.{
  Assembled, nothing_assembled, add_settled, confidence_of,
}
use multi_agent_intel_pipeli.Department.Settle.{TaskSummary, Settled, dedup, settle_task}

-- What closing a package needs beside the department: the lead's name, the policy, and the JSON
-- texts by which the package's artifacts are compared.
pub record Closing : Type 0 where
  pub lead_name : String
  pub policy : DepartmentPolicy
  pub python : Python
  pub packet_json : EvidencePacket → String
  pub gap_json : GapCandidate → String
  pub update_json : AnswerMatrixUpdate → String

-- `DomainReportSegment`
pub record ReportSegment : Type 0 where
  pub narrative_summary : String
  pub confidence : Confidence
  pub key_findings : List String
  pub open_questions : List String

-- `DepartmentPackage`
pub record FinalPackage : Type 0 where
  pub department : String
  pub target_section : String
  pub summary : String
  pub section_payload : Fields
  pub completed_tasks : List TaskSummary
  pub accepted_points : List String
  pub open_questions : List String
  pub sources : List Value
  pub report_segment : ReportSegment
  pub confidence : Confidence
  pub evidence_packages : List EvidencePacket
  pub gap_candidates : List GapCandidate
  pub answer_matrix_updates : List AnswerMatrixUpdate
  pub policy_gate : GateResult

-- The chat's state as this tool sees it: `blocked_finalize_attempts` and `_completed_package`.
pub record ChatState : Type 0 where
  pub session : Session
  pub blocked_finalize_attempts : ℕ
  pub completed_package : Option FinalPackage

-- What the tool returns; `failed` is an exception.
pub data FinalizeReply : Type 0 where
  cannot_finalize : (incomplete_tasks : List String) → FinalizeReply
  auto_recovered :
      (attempt : ℕ) (task_key : String) (research : Reply) (remaining : List String) → FinalizeReply
  failed : FinalizeReply
  package_ready : FinalizeReply

-- `_AUTO_RECOVER_FINALIZE_AFTER_BLOCKS`
abbrev pub auto_recover_finalize_after_blocks : ℕ
auto_recover_finalize_after_blocks = 2

-- A task without an artifact and without a decision.
unfoldable pub is_incomplete : DepartmentRunState → String → Bool
is_incomplete s task_key =
    not (is_some (latest_artifact s task_key)) && not (is_some (latest_decision s task_key))

unfoldable pub incomplete_tasks : DepartmentRunState → List Assignment → List String
incomplete_tasks s assignments =
    keep (is_incomplete s) (map (λ (a : Assignment). a.task_key) assignments)

abbrev pub add_later :
    String → Assignment → DepartmentRunState → Settled → Option Assembled → Option Assembled
add_later department a s t none = none
add_later department a s t (some later) =
    some (add_settled department a (latest_artifact s a.task_key) t later)

-- The loop over the assignments.
unfoldable pub settle_all :
    Department → List Assignment → DepartmentRunState → DepartmentRunState × Option Assembled
settle_all d [] s = (s, some nothing_assembled)
settle_all d (a ∷ as') s =
    elim (settle_task d a s (latest_decision s a.task_key) (latest_review s a.task_key)
      (latest_artifact s a.task_key)) [
        | none ↦ (s, none)
        | some t ↦
            let rest = settle_all d as' t.run in (rest.0, add_later s.department a s t rest.1)
      ]

dedup_from {ℓ} : {A : Type ℓ} → (A → String) → List String → List A → List A
dedup_from key seen [] = []
dedup_from key seen (x ∷ xs) =
    let fresh = x ∷ dedup_from key (key x ∷ seen) xs in
    let skip = dedup_from key seen xs in if str_mem (key x) seen then skip else fresh

-- `_dedup_model_dump`
unfoldable pub dedup_model_dump {ℓ} : {A : Type ℓ} → (A → String) → List A → List A
unfolding dedup_from
dedup_model_dump key items = dedup_from key [] items

abbrev pub status_text : TaskStatus → String
status_text accepted = "accepted"
status_text degraded = "degraded"
status_text blocked = "blocked"
status_text skipped = "skipped"
status_text pending = "pending"
status_text pending_synthesis = "pending_synthesis"

-- A summary as the package shows it.
unfoldable pub safe_summary : TaskSummary → TaskSummary
safe_summary t = record {
  task_key = safe_prompt_text t.task_key;
  label = safe_prompt_text t.label;
  status = t.status;
  accepted_points = map safe_prompt_text t.accepted_points;
  open_points = map safe_prompt_text t.open_points;
  summary = safe_prompt_text t.summary;
}

abbrev pub first_section : List Assignment → String
first_section [] = "n/v"
first_section (a ∷ as') = a.target_section

-- The payload that the package shows; the company's lead classifies its goods first. The flag is
-- false where that raises.
unfoldable pub closed_payload : Python → String → Fields → Fields × Bool
closed_payload py department payload =
    if department == "CompanyDepartment"
    then elim (classify_goods py payload) [
      | none ↦ (payload, false)
      | some goods ↦
          let classified = set_field "goods_classification" (str goods) payload in
          elim (fill_scope py classified) [
            | none ↦ (classified, false)
            | some filled ↦ (filled, true)
          ]
    ]
    else (payload, true)

-- The reasons of the gate's blockers, and the errors of the tools, as open questions.
abbrev gate_notes : GateResult → List String
gate_notes gate = take 6 (keep has_text (map (λ (b : GateBlocker). strip b.reason) gate.blockers))

add_errors : List ToolError → List String → List String
add_errors [] questions = questions
add_errors (e ∷ es) questions =
    add_errors es
      (dedup (questions ++ concat ("Tool error (" ∷ e.tool ∷ "): " ∷ e.error ∷ []) ∷ []))

module _ (d : Department) (env : Closing) (summary : String) where
  abbrev summary_or : String → String
  summary_or default = if nonempty_text summary then safe_prompt_text summary else default

  -- The package of a closed payload and what the loop assembled.
  unfoldable pub package_of : DepartmentRunState → Fields → Assembled → FinalPackage
  unfolding add_errors
  package_of s payload all_tasks =
      let department = safe_prompt_text s.department in
      let lead = safe_prompt_text env.lead_name in
      let questions = map safe_prompt_text (dedup all_tasks.open_questions) in
      let points = map safe_prompt_text (dedup all_tasks.accepted_points) in
      let confidence = confidence_of all_tasks.task_summaries in
      let gate = evaluate_department_policy_gate env.python s.department env.policy (record {
        section_payload = payload;
        statuses = map (λ (t : TaskSummary). status_text t.status) all_tasks.task_summaries;
        sources = all_tasks.sources;
        open_questions = dedup all_tasks.open_questions;
      }) in
      let noted = if gate.passed then questions else dedup (questions ++ gate_notes gate) in
      record {
        department = department;
        target_section = safe_prompt_text (first_section d.assignments);
        summary =
            summary_or (concat (department ∷ " domain package assembled by " ∷ lead ∷ "." ∷ []));
        section_payload = safe_output_fields payload;
        completed_tasks = map safe_summary all_tasks.task_summaries;
        accepted_points = points;
        open_questions = add_errors s.tool_errors noted;
        sources = map safe_output_value (take 12 all_tasks.sources);
        report_segment = record {
          narrative_summary =
              summary_or (concat (department ∷ " investigation completed by " ∷ lead ∷ "." ∷ []));
          confidence = confidence;
          key_findings = take 10 points;
          open_questions = take 6 questions;
        };
        confidence = confidence;
        evidence_packages = dedup_model_dump env.packet_json all_tasks.evidence_packages;
        gap_candidates = dedup_model_dump env.gap_json all_tasks.gap_candidates;
        answer_matrix_updates = dedup_model_dump env.update_json all_tasks.answer_matrix_updates;
        policy_gate = gate;
      }

  -- The run state after the package: its payload and the package's artifacts.
  abbrev close_run : FinalPackage → Fields → DepartmentRunState → DepartmentRunState
  close_run pkg payload s = record s {
    current_payload = payload;
    evidence_packages = pkg.evidence_packages;
    gap_candidates = pkg.gap_candidates;
    answer_matrix_updates = pkg.answer_matrix_updates;
  }

  with_run : DepartmentRunState → ChatState → ChatState
  with_run run c = record c { session = record (c.session) { run = run } }

  unfoldable pub submit_package :
      Fields × Bool → Assembled → DepartmentRunState → ChatState → ChatState × FinalizeReply
  unfolding with_run
  submit_package (payload, true) all_tasks s c =
      let pkg = package_of s payload all_tasks in
      (
        record (with_run (close_run pkg payload s) c) { completed_package = some pkg },
        package_ready,
      )
  submit_package (payload, false) all_tasks s c =
      (with_run (record s { current_payload = payload }) c, failed)

  unfoldable pub submit_settled :
      Option Assembled → DepartmentRunState → ChatState → ChatState × FinalizeReply
  unfolding submit_package with_run
  submit_settled none s c = (with_run s c, failed)
  submit_settled (some all_tasks) s c =
      submit_package (closed_payload env.python s.department s.current_payload) all_tasks s c

  -- All tasks have a result.
  unfoldable pub assemble_package : ChatState → ChatState × FinalizeReply
  unfolding submit_settled
  assemble_package c =
      let settled = settle_all d d.assignments c.session.run in submit_settled settled.1 settled.0 c

  -- A task has no result yet: the first call is turned down, and each later one researches the
  -- first such task itself. `answer` is what the worker answers then.
  unfoldable pub turn_down : Answer → String → List String → ChatState → ChatState × FinalizeReply
  turn_down answer next others c =
      let attempt = c.blocked_finalize_attempts + 1 in
      let counted = record c { blocked_finalize_attempts = attempt } in
      let research = run_research d next answer c.session in
      if leb auto_recover_finalize_after_blocks attempt
      then (
        record counted { session = research.0 },
        auto_recovered attempt next research.1 (incomplete_tasks research.0.run d.assignments),
      )
      else (counted, cannot_finalize (next ∷ others))

  -- By the tasks that have no result.
  unfoldable pub finalize_by : Answer → List String → ChatState → ChatState × FinalizeReply
  finalize_by answer [] c = assemble_package c
  finalize_by answer (next ∷ others) c = turn_down answer next others c

  unfoldable pub finalize_package : Answer → ChatState → ChatState × FinalizeReply
  finalize_package answer c = finalize_by answer (incomplete_tasks c.session.run d.assignments) c
