-- ===== src/Judge/Tests.antt =====
-- The judge's theorems at the critic's sample.
use multi_agent_intel_pipeli.Prelude.{◌≡◌, ◌↔◌, ◌≤◌, refl, false, some, none, [], any, length}
use multi_agent_intel_pipeli.Value.{truthy, iterate}
use multi_agent_intel_pipeli.Contracts.{Outcome}
use multi_agent_intel_pipeli.Critic.Tally.{is_core}
use multi_agent_intel_pipeli.Critic.Review.{review, has_unhashable_type, sources_of}
use multi_agent_intel_pipeli.Critic.Counts.{core_fails}
use multi_agent_intel_pipeli.Critic.Samples.{sample_rules, sample_payload, sample_report, review_by}
use multi_agent_intel_pipeli.Judge.{critic_view, decide}
use multi_agent_intel_pipeli.Judge.Verdict.{decide-coherent, decide-review}

decide-coherent_example :
    length (decide "Company" (some (critic_view (review_by sample_rules))) none).open_questions ≤ 5
decide-coherent_example =
    (decide-coherent "Company" (some (critic_view (review_by sample_rules))) none).2

decide-review_example :
    ((decide "Company" (some (critic_view (review_by sample_rules))) none).decision
      ≡ Outcome.accepted)
    ↔ (any (core_fails "company_fundamentals" sample_payload) sample_rules ≡ false)
unfolding review iterate sources_of truthy has_unhashable_type is_core
decide-review_example =
    (decide-review "company_fundamentals" "Profile Acme" sample_rules sample_payload
      (some sample_report) [] "Company" none (review_by sample_rules) refl refl).0
