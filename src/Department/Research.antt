-- ===== src/Department/Research.antt =====
-- src/agents/lead.py: the tool `run_research`, with its guards in the order of the code.
use multi_agent_intel_pipeli.Prelude.{
  ℕ, ◌+◌, String, Bool, true, false, not, ◌&&◌, List, [], ◌∷◌, ◌++◌, map, Option, none, some, ◌==◌,
  leb, if◌then◌else◌, lookup, insert, get_or, Dict, is_some, all, str_mem, concat, nonempty,
  decimal, take,
}
use multi_agent_intel_pipeli.Value.{Fields, keys}
use multi_agent_intel_pipeli.Contracts.{
  blocked_by_dependency, closed_unresolved, blocked, degraded, medium, low, runtime,
  TaskDecisionArtifact,
}
use multi_agent_intel_pipeli.Contracts.Artifacts.{
  TaskArtifact, TaskReviewArtifact, Report, from_worker_report,
}
use multi_agent_intel_pipeli.Contracts.RunState.{
  DepartmentRunState, record_task_artifact, record_decision_artifact, latest_artifact,
  latest_review, latest_decision, is_dependency_satisfied,
}
use multi_agent_intel_pipeli.Critic.Review.{ContractViolation}
use multi_agent_intel_pipeli.TaskRouter.{Assignment}
use multi_agent_intel_pipeli.Department.{
  Department, Session, ingest_worker_report, find_assignment, record_error,
}
use multi_agent_intel_pipeli.Department.Payload.{restore}

-- What the worker does when it is called: it reports, and the schema check finds violations in the
-- reported payload; or it raises an exception.
pub data Answer : Type 0 where
  report : Report → List ContractViolation → Answer
  failure : (exc : String) → Answer

-- The JSON that the tool returns.
pub data Reply : Type 0 where
  unknown_task : Reply
  blocked_by : (dep : String) → Reply
  still_blocked : (open_questions : List String) → Reply
  retry_limit_reached : (open_questions : List String) → Reply
  already_completed :
      (facts : List String) (open_questions : List String) (payload_keys : List String) → Reply
  research_failed : (exc : String) → Reply
  research_complete :
      (attempt : ℕ) (facts : List String) (open_questions : List String)
      (payload_keys : List String)
      → Reply

-- The keys of the department's own tasks.
abbrev pub local_keys : List Assignment → List String
local_keys assignments = map (λ a. a.task_key) assignments

-- The first dependency within the department that has produced nothing yet.
unfoldable pub first_unsatisfied : DepartmentRunState → List String → List String → Option String
first_unsatisfied s local [] = none
first_unsatisfied s local (dep ∷ deps) =
    if str_mem dep local && not (is_dependency_satisfied s dep)
    then some dep
    else first_unsatisfied s local deps

unfoldable pub block_task : Department → String → String → DepartmentRunState → DepartmentRunState
block_task d task_key dep s =
    let attempt = get_or task_key 0 s.attempts + 1 in
    record_decision_artifact
      (record {
        task_key = task_key;
        attempt = attempt;
        outcome = blocked_by_dependency;
        task_status = blocked;
        decided_by = runtime;
        confidence = medium;
        open_questions = [];
        reason = concat ("Dependency " ∷ dep ∷ " not satisfied" ∷ []);
      })
      (record_task_artifact
        (record {
          task_key = task_key;
          attempt = attempt;
          worker = d.researcher_name;
          facts = [];
          payload = Fields.end;
          queries_used = [];
          sources = [];
          open_questions = concat ("Blocked: dependency " ∷ dep ∷ " not satisfied" ∷ []) ∷ [];
          strategy_notes = "";
          objective = "";
          contract_violations = [];
          needs_contract_review = false;
          evidence_packages = [];
        })
        (record s { attempts = insert task_key attempt s.attempts }))

-- `list(missing_points or issues or rejected_points)`
abbrev retry_questions : TaskReviewArtifact → List String
retry_questions r =
    if nonempty r.missing_points
    then r.missing_points
    else if nonempty r.issues
    then r.issues
    else r.rejected_points

unfoldable pub close_task :
    Department → String → ℕ → TaskReviewArtifact → DepartmentRunState → DepartmentRunState
close_task d task_key attempt review s =
    record_decision_artifact
      (record {
        task_key = task_key;
        attempt = attempt;
        outcome = closed_unresolved;
        task_status = degraded;
        decided_by = runtime;
        confidence = low;
        open_questions = retry_questions review;
        reason = concat (
            "Retry limit reached ("
            ∷ decimal d.max_task_retries
            ∷ "); research closed unresolved."
            ∷ []);
      })
      s

is_high : ContractViolation → Bool
is_high v = v.severity == "high"

-- The artifact of a report, with the violations that the schema check found.
unfoldable pub checked_artifact : Report → ℕ → List ContractViolation → TaskArtifact
unfolding is_high from_worker_report
checked_artifact r attempt violations = record (from_worker_report r attempt) {
  contract_violations = violations;
  needs_contract_review = nonempty violations && all is_high violations;
}

-- `d.pop(key, None)`
unfoldable pub remove_key {ℓ} : {V : Type ℓ} → String → Dict V → Dict V
remove_key k [] = []
remove_key k ((j, v) ∷ m) = let rest = remove_key k m in if j == k then rest else (j, v) ∷ rest

-- Calls the worker. The attempt counts even where the worker fails.
unfoldable pub execute : String → Answer → Session → Session × Reply
execute task_key answer s =
    let attempt = get_or task_key 0 s.run.attempts + 1 in
    let counted = record (s.run) { attempts = insert task_key attempt s.run.attempts } in
    elim answer [
      | failure exc ↦
          (record s { run = record_error "run_research" task_key exc counted }, research_failed exc)
      | report r violations ↦
          let artifact = checked_artifact r attempt violations in
          let recorded = record_task_artifact artifact counted in
          (
            record {
              run = record recorded {
                current_payload = restore recorded.current_payload r.payload;
                revision_requests = remove_key task_key recorded.revision_requests;
              };
              memory = s.memory ++ ingest_worker_report r ∷ [];
            },
            research_complete attempt (take 5 artifact.facts) (take 3 artifact.open_questions)
                (keys artifact.payload),
          )
    ]

abbrev pub was_blocked : Option TaskDecisionArtifact → Bool
was_blocked none = false
was_blocked (some decision) = elim decision.outcome [ blocked_by_dependency ↦ true | _ ↦ false ]

abbrev stored_questions : Option TaskArtifact → List String
stored_questions none = []
stored_questions (some artifact) = take 3 artifact.open_questions

abbrev completed : Option TaskArtifact → Reply
completed none = already_completed [] [] []
completed (some artifact) =
    already_completed (take 5 artifact.facts) (take 3 artifact.open_questions)
      (keys artifact.payload)

-- A task that has an artifact and no revision request, by its latest review.
unfoldable pub rerun_reviewed :
    Department → String → Answer → Session → Option TaskReviewArtifact → Session × Reply
rerun_reviewed d task_key answer s none = (s, completed (latest_artifact s.run task_key))
rerun_reviewed d task_key answer s (some review) =
    let current = get_or task_key 0 s.run.attempts in
    let closed = close_task d task_key current review s.run in
    if review.approved
    then (s, completed (latest_artifact s.run task_key))
    else if leb d.max_task_retries current
    then (record s { run = closed }, retry_limit_reached (take 5 (retry_questions review)))
    else execute task_key answer s

unfoldable pub rerun : Department → Assignment → String → Answer → Session → Session × Reply
rerun d a task_key answer s =
    if was_blocked (latest_decision s.run task_key)
    then (if all (is_dependency_satisfied s.run) a.depends_on
        then execute task_key answer s
        else (s, still_blocked (stored_questions (latest_artifact s.run task_key))))
    else rerun_reviewed d task_key answer s (latest_review s.run task_key)

unfoldable pub has_result : DepartmentRunState → String → Bool
has_result s task_key =
    is_some (lookup task_key s.task_artifacts)
    && not (is_some (lookup task_key s.revision_requests))

-- By the first dependency within the department that is not satisfied.
unfoldable pub guarded :
    Department → Assignment → String → Answer → Session → Option String → Session × Reply
guarded d a task_key answer s (some dep) =
    (record s { run = block_task d task_key dep s.run }, blocked_by dep)
guarded d a task_key answer s none =
    if has_result s.run task_key then rerun d a task_key answer s else execute task_key answer s

unfoldable pub assigned :
    Department → String → Answer → Session → Option Assignment → Session × Reply
assigned d task_key answer s none = (s, unknown_task)
assigned d task_key answer s (some a) =
    guarded d a task_key answer s (first_unsatisfied s.run (local_keys d.assignments) a.depends_on)

unfoldable pub run_research : Department → String → Answer → Session → Session × Reply
run_research d task_key answer s =
    assigned d task_key answer s (find_assignment task_key d.assignments)
