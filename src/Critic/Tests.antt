-- ===== src/Critic/Tests.antt =====
-- Runs of the critic on the sample, and the critic's theorems at it.
use multi_agent_intel_pipeli.Prelude.{
  split_dots, strip, ◌≡◌, ◌↔◌, refl, true, false, some, [], ◌∷◌, all, length, keep,
}
use multi_agent_intel_pipeli.Value.{truthy, iterate, get}
use multi_agent_intel_pipeli.Critic.Tally.{is_core, tally_rules, tally_rule}
use multi_agent_intel_pipeli.Critic.Review.{review, has_unhashable_type, sources_of, assemble}
use multi_agent_intel_pipeli.Critic.{evaluate_rule}
use multi_agent_intel_pipeli.Critic.Counts.{passes, review-counts}
use multi_agent_intel_pipeli.Critic.Approval.{review-approved_iff}
use multi_agent_intel_pipeli.Critic.Samples.{
  name_rule, sample_rules, sample_payload, sample_report, review_by,
}

review_rejects : (review_by sample_rules).approved ≡ false
unfolding assemble tally_rules tally_rule evaluate_rule split_dots get strip
review_rejects = refl

review_approves : (review_by (name_rule ∷ [])).approved ≡ true
unfolding assemble tally_rules tally_rule evaluate_rule split_dots get strip
review_approves = refl

review-counts_example : (review_by sample_rules).core_total ≡ length (keep is_core sample_rules)
unfolding review iterate sources_of truthy has_unhashable_type
review-counts_example =
    (review-counts "company_fundamentals" "Profile Acme" sample_rules sample_payload
      (some sample_report) [] (review_by sample_rules) refl).2

review-approved_iff_example : ((review_by (name_rule ∷ [])).approved ≡ true) ↔ (
    (all (passes "company_fundamentals" sample_payload) (name_rule ∷ []) ≡ true)
    × (truthy (sources_of sample_payload) ≡ true))
unfolding review iterate sources_of truthy has_unhashable_type
review-approved_iff_example =
    review-approved_iff "company_fundamentals" "Profile Acme" (name_rule ∷ []) sample_payload
      (some sample_report) [] (review_by (name_rule ∷ [])) refl refl
