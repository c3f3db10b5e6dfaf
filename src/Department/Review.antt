-- ===== src/Department/Review.antt =====
-- src/agents/lead.py: the tools `review_research`, `suggest_refined_queries` and `judge_decision`.
use multi_agent_intel_pipeli.Prelude.{
  String, false, List, [], ◌∷◌, ◌++◌, Option, none, some, insert, get_or, concat, length, take,
}
use multi_agent_intel_pipeli.Contracts.{closed_unresolved, degraded, low}
use multi_agent_intel_pipeli.Contracts.Artifacts.{
  TaskArtifact, TaskReviewArtifact, text, from_critic_review, from_judge_result, artifact_view,
}
use multi_agent_intel_pipeli.Contracts.RunState.{
  DepartmentRunState, query_override, record_review_artifact, record_decision_artifact,
  latest_artifact, latest_review, record_coding_support,
}
use multi_agent_intel_pipeli.Critic.Review.{WorkerReport, Review, review, weak}
use multi_agent_intel_pipeli.Judge.{Decision, decide}
use multi_agent_intel_pipeli.TaskRouter.{Assignment}
use multi_agent_intel_pipeli.Department.{
  Department, Session, mark_critic_review, find_assignment, record_error,
}

-- The JSON that `review_research` returns.
pub data ReviewReply : Type 0 where
  unknown_task : ReviewReply
  no_result : ReviewReply
  review_failed : (exc : String) → ReviewReply
  reviewed : TaskReviewArtifact → ReviewReply

-- `artifact.to_dict()`, as the critic reads it: the dict has neither `field_issues` nor `usage`.
unfoldable pub report_of : TaskArtifact → WorkerReport
report_of artifact = record {
  field_issues = [];
  contract_violations = artifact.contract_violations;
  queries_used = artifact.queries_used;
  search_calls = 0;
}

-- The critic's review of an artifact; `none` is an exception.
unfoldable pub critic_review : Department → Assignment → String → TaskArtifact → Option Review
critic_review d a task_key artifact =
    review task_key a.objective (d.validation_rules task_key) artifact.payload
      (some (report_of artifact)) d.critic_memory

unfoldable pub store_review :
    Department → String → TaskArtifact → Review → Session → Session × ReviewReply
store_review d task_key artifact r s =
    let review_artifact = from_critic_review r task_key artifact.attempt d.critic_name in
    (
      record {
        run = record_review_artifact review_artifact s.run;
        memory = s.memory ++ mark_critic_review task_key r.approved r.issues ∷ [];
      },
      reviewed review_artifact,
    )

-- `exc` is the text of the exception, where the critic raises one.
unfoldable pub after_review :
    Department → String → String → TaskArtifact → Session → Option Review → Session × ReviewReply
after_review d task_key exc artifact s none =
    (record s { run = record_error "review_research" task_key exc s.run }, review_failed exc)
after_review d task_key exc artifact s (some r) = store_review d task_key artifact r s

unfoldable pub review_latest :
    Department
    → Assignment
    → String
    → String
    → Session
    → Option TaskArtifact
    → Session × ReviewReply
review_latest d a task_key exc s none = (s, no_result)
review_latest d a task_key exc s (some artifact) =
    after_review d task_key exc artifact s (critic_review d a task_key artifact)

unfoldable pub review_assigned :
    Department → String → String → Session → Option Assignment → Session × ReviewReply
review_assigned d task_key exc s none = (s, ReviewReply.unknown_task)
review_assigned d task_key exc s (some a) =
    review_latest d a task_key exc s (latest_artifact s.run task_key)

unfoldable pub review_research : Department → String → String → Session → Session × ReviewReply
review_research d task_key exc s =
    review_assigned d task_key exc s (find_assignment task_key d.assignments)

-- What the coding specialist answers: query overrides that are valid, or an exception of its own or
-- of their check.
pub data Support : Type 0 where
  overrides : List String → Support
  failure : (exc : String) → Support

review_issues : Option TaskReviewArtifact → List String
review_issues none = []
review_issues (some r) = take 5 r.issues

unfoldable pub support_task : Department → String → Session → Support → Session
unfolding review_issues record_coding_support record_error
support_task d task_key s (failure exc) = record s {
  run = record_error "suggest_refined_queries" task_key exc s.run;
}
support_task d task_key s (overrides qs) =
    let supported =
      record_coding_support task_key qs
        (record (s.run) { query_overrides = insert task_key qs s.run.query_overrides }) in
    record s {
      run = record supported {
        strategy_changes =
            supported.strategy_changes
            ++ query_override task_key (get_or task_key 0 supported.attempts) d.coding_name
                (review_issues (latest_review s.run task_key)) (length qs)
              ∷ [];
      };
    }

unfoldable pub support_assigned :
    Department → String → Support → Session → Option Assignment → Session
support_assigned d task_key support s none = s
support_assigned d task_key support s (some a) = support_task d task_key s support

unfoldable pub suggest_refined_queries : Department → String → Support → Session → Session
suggest_refined_queries d task_key support s =
    support_assigned d task_key support s (find_assignment task_key d.assignments)

-- The review that stands in where the critic made none.
unfoldable pub fallback_review : String → TaskArtifact → TaskReviewArtifact
fallback_review task_key artifact = record {
  task_key = task_key;
  attempt = artifact.attempt;
  approved = false;
  reviewer = "runtime_fallback";
  core_passed = 0;
  core_total = 0;
  supporting_passed = 0;
  supporting_total = 0;
  accepted_points = [];
  rejected_points = [];
  missing_points = artifact.open_questions;
  issues = "No Critic review existed before judge_decision." ∷ [];
  evidence_strength = weak;
  method_issue = false;
  feedback_to_worker =
      text "Judge fallback review generated because no Critic review was stored." ∷ [];
  revision_instructions = [];
  coding_brief = none;
}

unfoldable pub unresolved : String → List String → Decision
unresolved reason questions = record {
  decision = closed_unresolved;
  task_status = degraded;
  reason = reason;
  open_questions = questions;
  confidence = low;
}

-- Judges a review of an artifact and stores the decision.
unfoldable pub judge_review :
    String → TaskArtifact → TaskReviewArtifact → DepartmentRunState → DepartmentRunState × Decision
judge_review task_key artifact r s =
    let result = decide task_key (some (artifact_view r)) (some r.issues) in
    (record_decision_artifact (from_judge_result result task_key artifact.attempt) s, result)

unfoldable pub judge_artifact :
    String
    → TaskArtifact
    → Option TaskReviewArtifact
    → DepartmentRunState
    → DepartmentRunState × Decision
judge_artifact task_key artifact none s =
    judge_review task_key artifact (fallback_review task_key artifact)
      (record_review_artifact (fallback_review task_key artifact) s)
judge_artifact task_key artifact (some r) s = judge_review task_key artifact r s

-- Judges the latest artifact by the latest review; without an artifact the task is closed at once.
unfoldable pub judged :
    String
    → DepartmentRunState
    → Option TaskArtifact
    → Option TaskReviewArtifact
    → DepartmentRunState × Decision
judged task_key s none r =
    let early =
      unresolved "Judge cannot accept a task before a TaskArtifact exists." (
        concat ("Run run_research(task_key='" ∷ task_key ∷ "') before judge_decision." ∷ [])
        ∷ []) in
    (
      record_decision_artifact (from_judge_result early task_key (get_or task_key 0 s.attempts)) s,
      early,
    )
judged task_key s (some artifact) r = judge_artifact task_key artifact r s

unfoldable pub judge_assigned :
    String → DepartmentRunState → Option Assignment → DepartmentRunState × Decision
judge_assigned task_key s none =
    (s, unresolved "" (concat ("Unknown task_key: " ∷ task_key ∷ []) ∷ []))
judge_assigned task_key s (some a) =
    judged task_key s (latest_artifact s task_key) (latest_review s task_key)

unfoldable pub judge_decision :
    Department → String → DepartmentRunState → DepartmentRunState × Decision
judge_decision d task_key s = judge_assigned task_key s (find_assignment task_key d.assignments)
