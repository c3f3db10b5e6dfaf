-- ===== src/Finalization.antt =====
-- src/pipeline_runner.py, the status that a run ends with: the helper's status, which the gate's
-- assessment overrules unless the user must select.
mod Tests
use multi_agent_intel_pipeli.Prelude.{
  String, Bool, true, false, not, ◌&&◌, List, ◌≡◌, sym, ◌∙◌, arith, if◌then◌else◌, nonempty,
}
use multi_agent_intel_pipeli.Readiness.{RunStatus, GateInput, Assessment, evaluate}
use multi_agent_intel_pipeli.Readiness.Verdict.{evaluate-meeting_ready_iff}
use multi_agent_intel_pipeli.Resolution.{
  Bucket, FinalStatus, meeting_ready, discovery_ready_not_execution_ready,
  blocked_not_meeting_ready, needs_user_selection, is_user_decision, determine_final_status,
}

abbrev of_run_status : RunStatus → FinalStatus
of_run_status RunStatus.meeting_ready = meeting_ready
of_run_status RunStatus.discovery_ready_not_execution_ready = discovery_ready_not_execution_ready
of_run_status RunStatus.blocked_not_meeting_ready = blocked_not_meeting_ready

abbrev needs_selection : FinalStatus → Bool
needs_selection needs_user_selection = true
needs_selection _ = false

unfoldable overrule : FinalStatus → Assessment → FinalStatus
overrule status assessment =
    if not (needs_selection status) && not assessment.meeting_ready
    then of_run_status assessment.run_status
    else status

-- The status at the end of a run. The gate reads the same readiness as the helper.
unfoldable final_status : Bucket → List String → GateInput → FinalStatus
final_status bucket remaining_public_gaps i =
    overrule
      (determine_final_status i.readiness_usable bucket remaining_public_gaps i.discovery_ready)
      (evaluate i)

abbrev is_ready : FinalStatus → Bool
is_ready meeting_ready = true
is_ready _ = false

evaluate-status :
    (i : GateInput) → is_ready (of_run_status (evaluate i).run_status) ≡ (evaluate i).meeting_ready
unfolding evaluate
evaluate-status i = ground arith

evaluate-usable : (i : GateInput) → (evaluate i).meeting_ready ≡ true → i.readiness_usable ≡ true
evaluate-usable i h = ground (arith, sym (evaluate-meeting_ready_iff i) ∙ h)

-- A run ends as meeting-ready exactly when the gate finds it meeting-ready, the user has nothing to
-- decide and no public gap remains.
final_status-meeting_ready :
    (bucket : Bucket) (remaining_public_gaps : List String) (i : GateInput)
    → is_ready (final_status bucket remaining_public_gaps i) ≡ (
        (evaluate i).meeting_ready
        && not (is_user_decision bucket)
        && not (nonempty remaining_public_gaps))
unfolding final_status overrule determine_final_status
final_status-meeting_ready bucket remaining_public_gaps i =
    ground (arith, evaluate-status i, evaluate-usable i)
