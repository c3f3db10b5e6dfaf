-- ===== src/Resolution.antt =====
-- src/orchestration/resolution_controller.py, which classifies a run after its first round, and the
-- helpers of src/app/use_cases.py that plan and name the run's end. The sorted section names that the
-- classification hands on are left out.
pub mod Buckets
pub mod Candidates
mod Tests
use multi_agent_intel_pipeli.Prelude.{
  String, Bool, true, false, not, ◌&&◌, ◌||◌, List, [], ◌∷◌, ◌++◌, map, ◌==◌, if◌then◌else◌, Dict,
  get_or, str_mem, nonempty, has_text, strip, starts_with, contains,
}
use multi_agent_intel_pipeli.Models.{AnswerStatus, blocked, pending, GapCandidate}
use multi_agent_intel_pipeli.AnswerMatrix.{MatrixEntry, question_ids_for_task}
use multi_agent_intel_pipeli.Supervisor.{Package, Envelope}

-- `ResolutionBucket`
pub data Bucket : Type 0 where
  auto_close_required user_decision_required customer_confirmation_required : Bucket
  not_meeting_critical blocking_failure : Bucket

pub record Candidate : Type 0 where
  pub gap_id : String
  pub question : String
  pub task_key : String
  pub question_ids : List String

-- `text.split(needle, 1)[0] if needle in text else ""`
unfoldable pub before : String → String → String
before needle String.[] = ""
before needle (String.◌∷◌ c text) =
    let rest = String.◌∷◌ c (before needle text) in
    if contains needle (String.◌∷◌ c text)
    then (if starts_with needle (String.◌∷◌ c text) then "" else rest)
    else ""

-- `[str(q).strip() for q in qs if str(q).strip()]`
unfoldable pub stripped : List String → List String
stripped [] = []
stripped (q ∷ qs) = let rest = stripped qs in if has_text q then strip q ∷ rest else rest

-- `_extract_typed_gaps`
unfoldable pub extract_typed_gaps : Package → List String
extract_typed_gaps pkg =
    let typed = stripped (map (λ g. g.question) pkg.artifacts.gap_candidates) in
    if nonempty typed then typed else stripped pkg.open_questions

abbrev typed_candidate : GapCandidate → Candidate
typed_candidate g =
    let task_key = before "-gap-" (strip g.gap_id) in
    record {
      gap_id = strip g.gap_id;
      question = strip g.question;
      task_key = task_key;
      question_ids = question_ids_for_task task_key;
    }

unfoldable pub typed_candidates : List GapCandidate → List Candidate
typed_candidates [] = []
typed_candidates (g ∷ gs) =
    let rest = typed_candidates gs in if has_text g.question then typed_candidate g ∷ rest else rest

abbrev pub plain_candidate : String → Candidate
plain_candidate question = record {
  gap_id = "";
  question = question;
  task_key = "";
  question_ids = [];
}

abbrev pub some_candidates : List Candidate → Bool
some_candidates [] = false
some_candidates (c ∷ cs) = true

-- `_extract_typed_gap_candidates`
unfoldable pub extract_typed_gap_candidates : Package → List Candidate
extract_typed_gap_candidates pkg =
    let typed = typed_candidates pkg.artifacts.gap_candidates in
    if some_candidates typed then typed else map plain_candidate (stripped pkg.open_questions)

-- The names of the departments whose package was rejected.
unfoldable pub rejected_departments : Dict Envelope → List String
rejected_departments [] = []
rejected_departments ((dept, pkg) ∷ rest) =
    let others = rejected_departments rest in
    if pkg.decision == "rejected" then dept ∷ others else others

unfoldable pub blocked_tasks : Dict String → List String
blocked_tasks [] = []
blocked_tasks ((task_key, status) ∷ rest) =
    let others = blocked_tasks rest in if status == "blocked" then task_key ∷ others else others

-- `unresolved_by_department`
unfoldable pub unresolved_by_department : Dict Envelope → Dict (List String)
unresolved_by_department [] = []
unresolved_by_department ((dept, pkg) ∷ rest) =
    let others = unresolved_by_department rest in
    let gaps = extract_typed_gaps pkg.raw_package in
    if nonempty gaps then (dept, gaps) ∷ others else others

unfoldable pub unresolved_candidates_by_department : Dict Envelope → Dict (List Candidate)
unresolved_candidates_by_department [] = []
unresolved_candidates_by_department ((dept, pkg) ∷ rest) =
    let others = unresolved_candidates_by_department rest in
    let candidates = extract_typed_gap_candidates pkg.raw_package in
    if some_candidates candidates then (dept, candidates) ∷ others else others

abbrev pub public_evidence_departments : List String
public_evidence_departments = "CompanyDepartment" ∷ "MarketDepartment" ∷ "BuyerDepartment" ∷ []

-- The items of the departments that work with public evidence, in one list.
unfoldable pub public_items {ℓ} : {A : Type ℓ} → Dict (List A) → List A
public_items [] = []
public_items ((dept, items) ∷ rest) =
    let others = public_items rest in
    if str_mem dept public_evidence_departments then items ++ others else others

abbrev is_unresolved : AnswerStatus → Bool
is_unresolved pending = true
is_unresolved blocked = true
is_unresolved _ = false

-- `unresolved_matrix`
unfoldable pub unresolved_matrix : Dict MatrixEntry → List String
unresolved_matrix [] = []
unresolved_matrix ((question_id, entry) ∷ rest) =
    let others = unresolved_matrix rest in
    if is_unresolved entry.status then question_id ∷ others else others

pub record Resolution : Type 0 where
  pub bucket : Bucket
  pub rationale : String
  pub rejected_departments : List String
  pub blocked_tasks : List String
  pub unresolved_by_department : Dict (List String)
  pub meeting_critical_public_gaps : List String
  pub meeting_critical_public_gap_candidates : List Candidate
  pub unresolved_contact_gaps : List String
  pub unresolved_matrix_questions : List String

-- The bucket and its rationale, in the order of priority.
unfoldable pub choose : Bool → Bool → Bool → Bool → Bucket × String
choose failed public_gaps contact_gaps open_questions =
    if failed
    then (blocking_failure, "One or more department outputs were rejected or blocked tasks remain.")
    else if public_gaps
    then (
      auto_close_required, "Meeting-critical public evidence gaps remain after the first round.",
    )
    else if contact_gaps && not public_gaps
    then (
      customer_confirmation_required,
      "Only contact-discovery gaps remain and require customer-side confirmation.",
    )
    else if open_questions
    then (
      user_decision_required,
      "Some meeting questions remain unanswered and require user prioritization.",
    )
    else (not_meeting_critical, "No meeting-critical blockers were detected.")

-- `ResolutionController.classify`
unfoldable pub classify : Dict Envelope → Dict MatrixEntry → Dict String → Resolution
classify packages matrix statuses =
    let rejected = rejected_departments packages in
    let blocked = blocked_tasks statuses in
    let unresolved = unresolved_by_department packages in
    let public_gaps = public_items unresolved in
    let contact_gaps = get_or "ContactDepartment" [] unresolved in
    let open_questions = unresolved_matrix matrix in
    let chosen =
      choose (nonempty rejected || nonempty blocked) (nonempty public_gaps) (nonempty contact_gaps)
        (nonempty open_questions) in
    record {
      bucket = chosen.0;
      rationale = chosen.1;
      rejected_departments = rejected;
      blocked_tasks = blocked;
      unresolved_by_department = unresolved;
      meeting_critical_public_gaps = public_gaps;
      meeting_critical_public_gap_candidates =
          public_items (unresolved_candidates_by_department packages);
      unresolved_contact_gaps = contact_gaps;
      unresolved_matrix_questions = open_questions;
    }

-- The decision of a `ResolutionPlan`.
pub data PlanDecision : Type 0 where
  resolve_now defer request_user_selection accept_gap : PlanDecision

-- The decision of `build_resolution_plan`.
unfoldable pub plan_decision : Bucket → List String → PlanDecision
plan_decision user_decision_required remaining_public_gaps = request_user_selection
plan_decision customer_confirmation_required remaining_public_gaps = accept_gap
plan_decision blocking_failure remaining_public_gaps = resolve_now
plan_decision auto_close_required remaining_public_gaps = resolve_now
plan_decision not_meeting_critical remaining_public_gaps =
    if nonempty remaining_public_gaps then resolve_now else defer

-- The statuses of `determine_final_status`.
pub data FinalStatus : Type 0 where
  meeting_ready discovery_ready_not_execution_ready blocked_not_meeting_ready : FinalStatus
  needs_user_selection : FinalStatus

abbrev pub is_user_decision : Bucket → Bool
is_user_decision user_decision_required = true
is_user_decision _ = false

unfoldable pub determine_final_status : Bool → Bucket → List String → Bool → FinalStatus
determine_final_status readiness_usable bucket remaining_public_gaps discovery_ready =
    if is_user_decision bucket
    then needs_user_selection
    else if nonempty remaining_public_gaps
    then blocked_not_meeting_ready
    else if readiness_usable
    then meeting_ready
    else if discovery_ready
    then discovery_ready_not_execution_ready
    else blocked_not_meeting_ready
