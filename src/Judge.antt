-- ===== src/Judge.antt =====
-- src/agents/judge.py: `JudgeAgent.decide`, the gate that turns a review into a decision.
pub mod Verdict
mod Tests
use multi_agent_intel_pipeli.Prelude.{
  ℕ, String, List, [], ◌∷◌, Option, none, some, eqb, ltb, ◌&&◌, if◌then◌else◌, concat, decimal,
  nonempty, or_default, take,
}
use multi_agent_intel_pipeli.Contracts.{
  Outcome, accepted_with_gaps, closed_unresolved, TaskStatus, degraded, Confidence, high, medium,
  low,
}
use multi_agent_intel_pipeli.Critic.Review.{Review}

-- What `decide` reads of a review's dict, with its defaults for a key that the dict lacks.
pub record ReviewView : Type 0 where
  pub core_passed : ℕ
  pub core_total : ℕ
  pub supporting_passed : ℕ
  pub supporting_total : ℕ
  pub issues : List String
  pub failed_rule_messages : List String

-- The dict of the critic.
unfoldable pub critic_view : Review → ReviewView
critic_view r = record {
  core_passed = r.core_passed;
  core_total = r.core_total;
  supporting_passed = r.supporting_passed;
  supporting_total = r.supporting_total;
  issues = r.issues;
  failed_rule_messages = r.failed_rule_messages;
}

-- The dict that `decide` returns.
pub record Decision : Type 0 where
  pub decision : Outcome
  pub task_status : TaskStatus
  pub reason : String
  pub open_questions : List String
  pub confidence : Confidence

accept : String → Confidence → Decision
accept reason confidence = record {
  decision = Outcome.accepted;
  task_status = TaskStatus.accepted;
  reason = reason;
  open_questions = [];
  confidence = confidence;
}

degrade : Outcome → String → List String → Decision
degrade outcome reason questions = record {
  decision = outcome;
  task_status = degraded;
  reason = reason;
  open_questions = take 5 questions;
  confidence = low;
}

-- The path without a review: the presence of issues alone decides.
decide_legacy : String → List String → Decision
unfolding accept degrade
decide_legacy section issues =
    if nonempty issues
    then degrade accepted_with_gaps
        (concat (section ∷ ": issues exist but output is retained as degraded." ∷ [])) issues
    else accept "No unresolved issues." medium

-- The gate over a review.
decide_review : String → ReviewView → Decision
unfolding accept degrade
decide_review section r =
    if eqb r.core_total 0
    then (if nonempty r.issues
        then degrade accepted_with_gaps
            (concat (section ∷ ": no core rules but issues exist." ∷ [])) r.failed_rule_messages
        else accept "No core rules defined and no issues found." medium)
    else if eqb r.core_passed 0
    then degrade closed_unresolved
        (concat (section ∷ ": no core rules passed — task produced no usable evidence." ∷ []))
        r.failed_rule_messages
    else if ltb r.core_passed r.core_total
    then degrade accepted_with_gaps
        (concat (
          section
          ∷ ": "
          ∷ decimal r.core_passed
          ∷ "/"
          ∷ decimal r.core_total
          ∷ " core rules passed. Output is usable but incomplete."
          ∷ []))
        r.failed_rule_messages
    else if ltb 0 r.supporting_total && eqb r.supporting_passed 0
    then accept (concat (section ∷ ": all core rules passed; no supporting evidence present." ∷ []))
        medium
    else accept (concat (section ∷ ": all core rules passed." ∷ []))
        (if ltb 0 r.supporting_passed then high else medium)

unfoldable pub decide : String → Option ReviewView → Option (List String) → Decision
unfolding decide_legacy decide_review
decide section (some critic_review) critic_issues = decide_review section critic_review
decide section none critic_issues = decide_legacy section (or_default [] critic_issues)
