-- ===== src/Judge/Verdict.antt =====
-- What the judge decides about a payload that the critic reviewed.
use multi_agent_intel_pipeli.Prelude.{
  ℕ, ◌+◌, ◌≤◌, ◌<◌, or_default, sym, ◌∙◌, String, List, [], Option, some, none, ◌≡◌, ◌↔◌, true,
  false, any, any-length, arith, length, length-take-le, keep, ltb, if◌then◌else◌,
}
use multi_agent_intel_pipeli.Value.{Fields}
use multi_agent_intel_pipeli.Contracts.{
  Outcome, accepted_with_gaps, closed_unresolved, is_terminal_outcome, outcome_to_task_status, high,
  medium, low,
}
use multi_agent_intel_pipeli.Critic.{Rule}
use multi_agent_intel_pipeli.Critic.Memory.{RoleMemory}
use multi_agent_intel_pipeli.Critic.Tally.{is_core}
use multi_agent_intel_pipeli.Critic.Review.{Review, WorkerReport, review}
use multi_agent_intel_pipeli.Critic.Counts.{
  core_passes, core_fails, supporting_passes, core-split, review-counts,
}
use multi_agent_intel_pipeli.Judge.{ReviewView, critic_view, decide}

-- Every decision of the judge ends its task, the status that it reports is the one that the contract
-- gives its outcome, it carries five open questions at most, and none if the outcome is accepted.
pub decide-coherent :
    (section : String) (r : Option ReviewView) (issues : Option (List String))
    → (is_terminal_outcome (decide section r issues).decision ≡ true)
      × ((decide section r issues).task_status
          ≡ outcome_to_task_status (decide section r issues).decision)
      × (length (decide section r issues).open_questions ≤ 5)
      × ((decide section r issues).decision ≡ Outcome.accepted
          → (decide section r issues).open_questions ≡ [])
unfolding decide is_terminal_outcome outcome_to_task_status
decide-coherent section none issues = ground (arith, length-take-le 5 (or_default [] issues))
decide-coherent section (some r) issues = ground (arith, length-take-le 5 r.failed_rule_messages)

-- Without the messages of failed rules no question is left open.
pub decide-no_messages :
    (section : String) (r : ReviewView) (issues : Option (List String))
    → r.failed_rule_messages ≡ []
    → (decide section (some r) issues).open_questions ≡ []
unfolding decide
decide-no_messages section r issues h = ground arith

-- By the two counts of core rules, and that of the supporting rules that pass.
pub decide-by_counts :
    (section : String) (r : ReviewView) (issues : Option (List String))
    (passed failed supporting : ℕ)
    → r.core_passed ≡ passed
    → r.core_total ≡ passed + failed
    → r.supporting_passed ≡ supporting
    → 0 < r.core_total
    → (((decide section (some r) issues).decision ≡ Outcome.accepted) ↔ (failed ≡ 0))
      × (((decide section (some r) issues).decision ≡ closed_unresolved) ↔ (passed ≡ 0))
      × (((decide section (some r) issues).decision ≡ accepted_with_gaps)
          ↔ ((0 < passed) × (0 < failed)))
      × ((decide section (some r) issues).confidence
          ≡ (if ltb 0 failed then low else if ltb 0 supporting then high else medium))
unfolding decide
decide-by_counts section r issues passed failed supporting p t s h = ground (arith, s)

module _ (task_key objective : String) (rules : List Rule) (payload : Fields)
    (report : Option WorkerReport) (role_memory : List RoleMemory) (section : String)
    (issues : Option (List String)) where
  -- Where the contract has a core rule, the judge's decision on the critic's review is the payload's
  -- own quality: accepted exactly when no core rule fails, closed as unresolved exactly when none
  -- passes, and accepted with gaps exactly when some pass and some fail. The supporting rules have
  -- no part in it, so that a payload on which none of them passes can be accepted; they only set the
  -- confidence, which is low if a core rule fails and otherwise high exactly when a supporting rule
  -- passes, and medium if none does.
  pub decide-review :
      (r : Review)
      → review task_key objective rules payload report role_memory ≡ some r
      → any is_core rules ≡ true
      → (((decide section (some (critic_view r)) issues).decision ≡ Outcome.accepted)
          ↔ (any (core_fails task_key payload) rules ≡ false))
        × (((decide section (some (critic_view r)) issues).decision ≡ closed_unresolved)
            ↔ (any (core_passes task_key payload) rules ≡ false))
        × (((decide section (some (critic_view r)) issues).decision ≡ accepted_with_gaps) ↔ (
            (any (core_passes task_key payload) rules ≡ true)
            × (any (core_fails task_key payload) rules ≡ true)))
        × ((decide section (some (critic_view r)) issues).confidence ≡ (
            if any (core_fails task_key payload) rules
            then low
            else if any (supporting_passes task_key payload) rules
            then high
            else medium))
  unfolding critic_view
  decide-review r h core =
      let counts = review-counts task_key objective rules payload report role_memory r h in
      let split = core-split task_key payload rules in
      let by_counts =
        decide-by_counts section (critic_view r) issues
          (length (keep (core_passes task_key payload) rules))
          (length (keep (core_fails task_key payload) rules))
          (length (keep (supporting_passes task_key payload) rules)) counts.3 (counts.2 ∙ sym split)
          counts.5 (ground (arith, any-length is_core rules, counts.2)) in
      rw
        (
          any-length (core_passes task_key payload) rules,
          any-length (core_fails task_key payload) rules,
          any-length (supporting_passes task_key payload) rules,
        )
        (ground (arith, by_counts))
