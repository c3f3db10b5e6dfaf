-- ===== src/Critic/Review.antt =====
-- src/agents/critic.py: `CriticAgent.review`, from the loop over the rules to the review that it
-- returns.
use multi_agent_intel_pipeli.Prelude.{
  any, ℕ, String, Bool, true, false, not, ◌&&◌, List, [], ◌∷◌, ◌++◌, map, Option, none, some, ◌==◌,
  ltb, leb, if◌then◌else◌, concat, dedup_safe, or_default, nonempty, length, keep, take, str_mem,
}
use multi_agent_intel_pipeli.Value.{Value, str, list, nil, obj, Fields, find, truthy, iterate}
use mathlib.Core.List.{flat_map}
use multi_agent_intel_pipeli.Critic.{Rule}
use multi_agent_intel_pipeli.Critic.Tally.{Tally, no_rules, tally_rules}
use multi_agent_intel_pipeli.Critic.Memory.{RoleMemory, Guidance, select_critic_memory_guidance}

-- contracts.py: `ContractViolation`.
pub record ContractViolation : Type 0 where
  pub field_path : String
  pub violation_type : String
  pub severity : String
  pub message : String

-- The parts of a worker's report that the critic reads.
pub record WorkerReport : Type 0 where
  pub field_issues : List String
  pub contract_violations : List ContractViolation
  pub queries_used : List String
  pub search_calls : ℕ

-- `report or {}`, with the defaults that the critic reads from an empty report.
abbrev empty_report : WorkerReport
empty_report = record {
  field_issues = [];
  contract_violations = [];
  queries_used = [];
  search_calls = 0;
}

violation_issue : ContractViolation → String
violation_issue cv =
    if cv.severity == "high"
    then concat ("Contract violation (" ∷ cv.violation_type ∷ "): " ∷ cv.message ∷ [])
    else concat ("Contract note (" ∷ cv.violation_type ∷ "): " ∷ cv.message ∷ [])

report_issues : WorkerReport → List String
unfolding violation_issue
report_issues report =
    map (λ fi. concat ("Worker field issue: " ∷ fi ∷ [])) report.field_issues
    ++ map violation_issue report.contract_violations

-- `payload.get("sources", [])`
unfoldable pub sources_of : Fields → Value
unfolding find
sources_of payload = or_default (list nil) (find "sources" payload)

-- `s.get("source_type") not in {"owned", "first_party"}`, for a source that is a dict.
external_type : Option Value → Bool
external_type (some (str s)) = not (str_mem s ("owned" ∷ "first_party" ∷ []))
external_type _ = true

-- A list or a dict is no member of a set: Python raises `TypeError`.
unhashable : Option Value → Bool
unhashable (some (list xs)) = true
unhashable (some (obj fs)) = true
unhashable _ = false

unfoldable pub has_unhashable_type : Value → Bool
unfolding unhashable find
has_unhashable_type (obj fs) = unhashable (find "source_type" fs)
has_unhashable_type _ = false

is_external : Value → Bool
unfolding external_type find
is_external (obj fs) = external_type (find "source_type" fs)
is_external _ = false

pub data Strength : Type 0 where
  strong moderate weak : Strength

abbrev pub is_weak : Strength → Bool
is_weak weak = true
is_weak _ = false

unfoldable pub strength_of : Bool → ℕ → Strength
strength_of has_sources external =
    if leb 2 external then strong else if has_sources then moderate else weak

-- An entry of `feedback_to_worker`; its `status` is always "revise".
pub record Feedback : Type 0 where
  pub point : String
  pub guidance : String

feedback_for : String → Feedback
feedback_for point = record {
  point = point;
  guidance = concat (
      "Rework the missing or weak point '" ∷ point
      ∷ "' so it directly satisfies the task objective." ∷ []);
}

-- The fields that earlier accepted tasks covered, each once, ten at most.
field_targets : List Guidance → List String
field_targets guidance = take 10 (dedup_safe (flat_map (λ g. g.heuristic.accepted_fields) guidance))

join_comma : List String → String
join_comma [] = ""
join_comma (x ∷ []) = x
join_comma (x ∷ y ∷ ys) = concat (x ∷ ", " ∷ join_comma (y ∷ ys) ∷ [])

revision_instructions_of : List String → List Guidance → List String
unfolding field_targets join_comma
revision_instructions_of issues guidance =
    let targets = field_targets guidance in
    if nonempty issues
    then "Keep already accepted points stable."
      ∷ "Revise only the rejected or missing points."
      ∷ "Downgrade unsupported claims if stronger evidence cannot be found."
      ∷ (if nonempty guidance && nonempty targets
          then concat (
              "Use prior accepted-task coverage as process guidance for fields: "
              ∷ join_comma targets
              ∷ [])
            ∷ []
          else [])
    else []

pub record CodingBrief : Type 0 where
  pub task_key : String
  pub objective : String
  pub rejected_points : List String
  pub missing_points : List String
  pub issues : List String
  pub method_issue : Bool
  pub research_gap : String

pub record Review : Type 0 where
  pub approved : Bool
  pub issues : List String
  pub accepted_points : List String
  pub rejected_points : List String
  pub missing_points : List String
  pub evidence_strength : Strength
  pub method_issue : Bool
  pub core_passed : ℕ
  pub core_total : ℕ
  pub supporting_passed : ℕ
  pub supporting_total : ℕ
  pub failed_rule_messages : List String
  pub revision_instructions : List String
  pub feedback_to_worker : List Feedback
  pub memory_guidance : List Guidance
  pub role_memory_used : Bool
  pub coding_brief : CodingBrief

-- `report` is true as soon as the dict holds a key; a worker's report always does.
method_issue_of : Option WorkerReport → Tally → ℕ → Bool
method_issue_of none t external = false
method_issue_of (some r) t external =
    nonempty t.rejected_points
    && ltb 0 r.search_calls
    && not (ltb 0 external)
    && nonempty r.queries_used

unfoldable pub approved_of : List Rule → Tally → Strength → List String → Bool
approved_of rules t strength issues =
    if nonempty rules
    then not (nonempty t.rejected_points) && not (is_weak strength)
    else not (nonempty issues)

research_gap_of : Bool → String
research_gap_of method_issue =
    if method_issue
    then "The search and evidence path needs to be improved before the same worker retries the open points."
    else "Direct worker revision should be sufficient."

module _ (task_key objective : String) (rules : List Rule) (payload : Fields)
    (report : Option WorkerReport) (role_memory : List RoleMemory) where
  -- The review, from the loop's variables and the sources as a list.
  unfoldable pub assemble : Tally → Bool → List Value → Review
  unfolding report_issues is_external strength_of method_issue_of approved_of research_gap_of
      feedback_for revision_instructions_of
  assemble t has_sources sources =
      let external = length (keep is_external sources) in
      let strength = strength_of has_sources external in
      let issues =
        t.issues
        ++ (if has_sources then [] else "No supporting source recorded." ∷ [])
        ++ report_issues (or_default empty_report report) in
      let missing =
        dedup_safe (t.missing_points ++ (if has_sources then [] else "supporting_sources" ∷ [])) in
      let guidance = select_critic_memory_guidance task_key role_memory in
      let method_issue = method_issue_of report t external in
      record {
        approved = approved_of rules t strength issues;
        issues = issues;
        accepted_points = t.accepted_points;
        rejected_points = t.rejected_points;
        missing_points = missing;
        evidence_strength = strength;
        method_issue = method_issue;
        core_passed = t.core_passed;
        core_total = t.core_total;
        supporting_passed = t.supporting_passed;
        supporting_total = t.supporting_total;
        failed_rule_messages = t.failed_rule_messages;
        revision_instructions = revision_instructions_of issues guidance;
        feedback_to_worker = map feedback_for t.rejected_points;
        memory_guidance = guidance;
        role_memory_used = nonempty guidance;
        coding_brief = record {
          task_key = task_key;
          objective = objective;
          rejected_points = t.rejected_points;
          missing_points = missing;
          issues = issues;
          method_issue = method_issue;
          research_gap = research_gap_of method_issue;
        };
      }

  -- `none` is the `TypeError` of a `sources` entry that is no sequence, or of a source whose type
  -- cannot be looked up in a set.
  unfoldable pub review : Option Review
  review =
      let t = tally_rules task_key payload no_rules rules in
      let sources = sources_of payload in
      elim (iterate sources) [
        | none ↦ none
        | some xs ↦
            if any has_unhashable_type xs then none else some (assemble t (truthy sources) xs)
      ]
