-- ===== src/Critic/Tally.antt =====
-- src/agents/critic.py: the loop of `CriticAgent.review` over the rules, and the variables it writes.
use multi_agent_intel_pipeli.Prelude.{
  ℕ, ◌+◌, String, Bool, List, [], ◌∷◌, ◌++◌, ◌==◌, if◌then◌else◌, concat, or_default,
}
use multi_agent_intel_pipeli.Value.{Fields}
use multi_agent_intel_pipeli.Critic.{Rule, evaluate_rule}

-- The variables that the loop over the rules writes.
pub record Tally : Type 0 where
  pub accepted_points : List String
  pub rejected_points : List String
  pub missing_points : List String
  pub issues : List String
  pub core_passed : ℕ
  pub core_total : ℕ
  pub supporting_passed : ℕ
  pub supporting_total : ℕ
  pub failed_rule_messages : List String

abbrev pub no_rules : Tally
no_rules = record {
  accepted_points = [];
  rejected_points = [];
  missing_points = [];
  issues = [];
  core_passed = 0;
  core_total = 0;
  supporting_passed = 0;
  supporting_total = 0;
  failed_rule_messages = [];
}

unfoldable pub rule_name : Rule → String
rule_name rule = or_default (or_default "unknown" rule.check) rule.field

unfoldable pub is_core : Rule → Bool
is_core rule = or_default "supporting" rule.class == "core"

unfoldable pub failure_msg : String → Rule → String
unfolding rule_name
failure_msg task_key rule =
    or_default (concat ("Rule '" ∷ rule_name rule ∷ "' not satisfied for " ∷ task_key ∷ "." ∷ []))
      rule.message

-- The counts of one rule's class.
count_rule : Bool → Bool → Tally → Tally
count_rule core passed t =
    if core
    then record t {
      core_total = t.core_total + 1;
      core_passed = (if passed then t.core_passed + 1 else t.core_passed);
    }
    else record t {
      supporting_total = t.supporting_total + 1;
      supporting_passed = (if passed then t.supporting_passed + 1 else t.supporting_passed);
    }

-- The points and the messages of one rule.
note_rule : Bool → Bool → String → String → Tally → Tally
note_rule core passed name message t =
    if passed then record t { accepted_points = t.accepted_points ++ name ∷ [] } else record t {
      rejected_points = t.rejected_points ++ name ∷ [];
      missing_points = t.missing_points ++ name ∷ [];
      issues = t.issues ++ message ∷ [];
      failed_rule_messages =
          (if core then t.failed_rule_messages ++ message ∷ [] else t.failed_rule_messages);
    }

unfoldable pub tally_rule : String → Fields → Tally → Rule → Tally
unfolding count_rule note_rule is_core rule_name failure_msg
tally_rule task_key payload t rule =
    let passed = evaluate_rule rule payload in
    let core = is_core rule in
    note_rule core passed (rule_name rule) (failure_msg task_key rule) (count_rule core passed t)

unfoldable pub tally_rules : String → Fields → Tally → List Rule → Tally
tally_rules task_key payload t [] = t
tally_rules task_key payload t (rule ∷ rules) =
    tally_rules task_key payload (tally_rule task_key payload t rule) rules
