-- ===== src/Department/Fallback.antt =====
-- src/agents/lead.py: the package of a chat that ends without `finalize_package`, which only reads
-- the artifacts of the run. The texts for a reader that are fixed for a department are left out.
use multi_agent_intel_pipeli.Prelude.{
  String, List, [], ◌∷◌, ◌++◌, map, Option, none, some, concat, take,
}
use multi_agent_intel_pipeli.Value.{Value, Fields}
use multi_agent_intel_pipeli.Models.{EvidencePacket, GapCandidate, AnswerMatrixUpdate}
use multi_agent_intel_pipeli.Contracts.{degraded, Confidence, TaskDecisionArtifact}
use multi_agent_intel_pipeli.Contracts.Artifacts.{TaskArtifact, TaskReviewArtifact}
use multi_agent_intel_pipeli.Contracts.RunState.{
  DepartmentRunState, latest_artifact, latest_review, latest_decision,
}
use multi_agent_intel_pipeli.Critic.Review.{Review, review}
use multi_agent_intel_pipeli.Judge.{critic_view, decide}
use multi_agent_intel_pipeli.TaskRouter.{Assignment}
use multi_agent_intel_pipeli.Department.{Department}
use multi_agent_intel_pipeli.Department.SafeText.{
  safe_prompt_text, safe_output_value, safe_output_fields,
}
use multi_agent_intel_pipeli.Department.Goods.{fill_scope}
use multi_agent_intel_pipeli.Department.Package.{
  Assembled, nothing_assembled, add_task, confidence_of,
}
use multi_agent_intel_pipeli.Department.Settle.{TaskSummary, Settled, dedup}
use multi_agent_intel_pipeli.Department.Finalize.{
  Closing, FinalPackage, ChatState, dedup_model_dump, safe_summary, first_section,
}

-- The fields of `DepartmentPackage` that the fallback sets.
pub record FallbackPackage : Type 0 where
  pub department : String
  pub target_section : String
  pub summary : String
  pub section_payload : Fields
  pub completed_tasks : List TaskSummary
  pub accepted_points : List String
  pub open_questions : List String
  pub sources : List Value
  pub confidence : Confidence
  pub evidence_packages : List EvidencePacket
  pub gap_candidates : List GapCandidate
  pub answer_matrix_updates : List AnswerMatrixUpdate

-- A stored decision stands, also without an artifact.
unfoldable pub fallback_decided :
    Assignment
    → DepartmentRunState
    → TaskDecisionArtifact
    → Option TaskReviewArtifact
    → Option TaskArtifact
    → Settled
fallback_decided a s decision r artifact = record {
  run = s;
  status = decision.task_status;
  accepted_points = elim r [ none ↦ [] | some review ↦ review.accepted_points ];
  open_points = decision.open_questions ++ elim artifact [ none ↦ [] | some x ↦ x.open_questions ];
  sources = elim artifact [ none ↦ [] | some x ↦ x.sources ];
  summary = a.objective;
}

-- The judge's decision on a new review, which is not stored.
unfoldable pub fallback_judged : Assignment → DepartmentRunState → TaskArtifact → Review → Settled
fallback_judged a s artifact r =
    let result = decide a.task_key (some (critic_view r)) none in
    record {
      run = s;
      status = result.task_status;
      accepted_points = r.accepted_points;
      open_points = dedup (result.open_questions ++ (artifact.open_questions ++ r.missing_points));
      sources = artifact.sources;
      summary = a.objective;
    }

-- `none` is the critic's exception.
unfoldable pub fallback_reviewed :
    Department → Assignment → DepartmentRunState → TaskArtifact → Option Settled
fallback_reviewed d a s artifact =
    elim (review a.task_key a.objective (d.validation_rules a.task_key) artifact.payload none []) [
      | none ↦ none
      | some r ↦ some (fallback_judged a s artifact r)
    ]

unfoldable pub fallback_unresearched : Assignment → DepartmentRunState → Settled
fallback_unresearched a s = record {
  run = s;
  status = degraded;
  accepted_points = [];
  open_points = "Research did not complete within max_round." ∷ [];
  sources = [];
  summary = a.objective;
}

unfoldable pub fallback_task :
    Department
    → Assignment
    → DepartmentRunState
    → Option TaskDecisionArtifact
    → Option TaskReviewArtifact
    → Option TaskArtifact
    → Option Settled
fallback_task d a s (some decision) r artifact = some (fallback_decided a s decision r artifact)
fallback_task d a s none r (some artifact) = fallback_reviewed d a s artifact
fallback_task d a s none r none = some (fallback_unresearched a s)

abbrev pub add_fallback :
    String → Assignment → Option TaskArtifact → Option Settled → Option Assembled → Option Assembled
add_fallback department a artifact none later = none
add_fallback department a artifact (some t) none = none
add_fallback department a artifact (some t) (some later) =
    some (add_task department a artifact t later)

-- The loop over the assignments.
unfoldable pub fallback_all : Department → List Assignment → DepartmentRunState → Option Assembled
fallback_all d [] s = some nothing_assembled
fallback_all d (a ∷ as') s =
    add_fallback s.department a (latest_artifact s a.task_key)
      (fallback_task d a s (latest_decision s a.task_key) (latest_review s a.task_key)
        (latest_artifact s a.task_key))
      (fallback_all d as' s)

module _ (d : Department) (env : Closing) where
  -- The package of a payload and what the loop assembled.
  unfoldable pub fallback_of : DepartmentRunState → Fields → Assembled → FallbackPackage
  fallback_of s payload all_tasks =
      let department = safe_prompt_text s.department in
      record {
        department = department;
        target_section = safe_prompt_text (first_section d.assignments);
        summary =
            concat (department ∷ " package degraded — max_round reached before finalization." ∷ []);
        section_payload = safe_output_fields payload;
        completed_tasks = map safe_summary all_tasks.task_summaries;
        accepted_points = map safe_prompt_text (dedup all_tasks.accepted_points);
        open_questions = map safe_prompt_text (dedup all_tasks.open_questions);
        sources = map safe_output_value (take 12 all_tasks.sources);
        confidence = confidence_of all_tasks.task_summaries;
        evidence_packages = dedup_model_dump env.packet_json all_tasks.evidence_packages;
        gap_candidates = dedup_model_dump env.gap_json all_tasks.gap_candidates;
        answer_matrix_updates = dedup_model_dump env.update_json all_tasks.answer_matrix_updates;
      }

  abbrev with_payload : DepartmentRunState → Fields → DepartmentRunState
  with_payload s payload = record s { current_payload = payload }

  unfoldable pub fallback_with :
      DepartmentRunState
      → Option Fields
      → Option Assembled
      → Option (DepartmentRunState × FallbackPackage)
  fallback_with s payload none = none
  fallback_with s none (some all_tasks) = none
  fallback_with s (some payload) (some all_tasks) =
      some (with_payload s payload, fallback_of s payload all_tasks)

  -- `_build_fallback_package`; `none` is an exception.
  unfoldable pub build_fallback_package :
      DepartmentRunState → Option (DepartmentRunState × FallbackPackage)
  unfolding fallback_with
  build_fallback_package s =
      fallback_with s (fill_scope env.python s.current_payload) (fallback_all d d.assignments s)

-- What a department's run returns as its package.
pub data RunPackage : Type 0 where
  submitted : FinalPackage → RunPackage
  fallen_back : FallbackPackage → RunPackage

abbrev pub fall_back :
    Option (DepartmentRunState × FallbackPackage) → Option (DepartmentRunState × RunPackage)
fall_back none = none
fall_back (some (s, pkg)) = some (s, fallen_back pkg)

-- The end of `run`, after the chat: its package, or else the fallback.
unfoldable pub end_run : Department → Closing → ChatState → Option (DepartmentRunState × RunPackage)
end_run d env c = elim c.completed_package [
  | some pkg ↦ some (c.session.run, submitted pkg)
  | none ↦ fall_back (build_fallback_package d env c.session.run)
]
