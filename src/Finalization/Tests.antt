-- ===== src/Finalization/Tests.antt =====
-- The final status at the gate's samples.
use multi_agent_intel_pipeli.Prelude.{◌≡◌, true, not, ◌&&◌, []}
use multi_agent_intel_pipeli.Readiness.{evaluate}
use multi_agent_intel_pipeli.Readiness.Samples.{waiting}
use multi_agent_intel_pipeli.Resolution.{auto_close_required, is_user_decision}
use multi_agent_intel_pipeli.Finalization.{final_status, is_ready, final_status-meeting_ready}

final_status-meeting_ready_example :
    is_ready (final_status auto_close_required [] waiting)
    ≡ ((evaluate waiting).meeting_ready && not (is_user_decision auto_close_required) && true)
final_status-meeting_ready_example = final_status-meeting_ready auto_close_required [] waiting
