-- ===== src/Readiness/Tests.antt =====
-- The gate's theorems at the samples.
use multi_agent_intel_pipeli.Prelude.{◌≡◌, refl, not, ◌&&◌, [], any, strip, ◌∷◌}
use multi_agent_intel_pipeli.Readiness.{
  evaluate, is_internal_hard, is_public_hard, own_checks, check_gaps, check_core, core_open,
  answered_or_partial, add_reasons,
}
use multi_agent_intel_pipeli.Readiness.Verdict.{
  own_problem, given_problem, package_met, evaluate-meeting_ready_iff, evaluate-discovery_ready,
}
use multi_agent_intel_pipeli.Readiness.Samples.{waiting}

waiting_reasons : (evaluate waiting).blocked_reasons ≡ "The inventory list is missing." ∷ []
unfolding evaluate own_checks check_gaps check_core core_open answered_or_partial add_reasons strip
waiting_reasons = refl

evaluate-meeting_ready_iff_example : (evaluate waiting).meeting_ready ≡ (
    waiting.readiness_usable
    && package_met waiting
    && not (own_problem waiting)
    && not (given_problem waiting))
evaluate-meeting_ready_iff_example = evaluate-meeting_ready_iff waiting

evaluate-discovery_ready_example : (evaluate waiting).discovery_ready ≡ (
    waiting.discovery_ready
    && not (own_problem waiting)
    && not (any is_public_hard waiting.blockers)
    && any is_internal_hard waiting.blockers)
evaluate-discovery_ready_example = (evaluate-discovery_ready waiting).0
