-- ===== src/PolicyGate.antt =====
-- src/orchestration/department_knowledge.py: the gate on a department's package by its policy, and
-- `DepartmentPolicy` of src/orchestration/contracts.py.
pub mod Passed
mod Tests
use multi_agent_intel_pipeli.Prelude.{
  ℕ, ◌+◌, String, Bool, true, false, not, ◌&&◌, ◌||◌, List, [], ◌∷◌, ◌++◌, none, ◌==◌, ltb, leb,
  if◌then◌else◌, Dict, get_or, any, keep, length, nonempty, str_mem, strip, contains, concat, join,
  decimal, split_dots,
}
use multi_agent_intel_pipeli.Value.{
  Value, null, str, list, obj, Fields, end, field, Items, nil, cons, get,
}
use multi_agent_intel_pipeli.Python.{Python, text_or, text_default, flag_or}

-- `DepartmentPolicy`. A required number below zero asks for nothing, as zero does.
pub record DepartmentPolicy : Type 0 where
  pub department : String
  pub required_fields : List String
  pub source_priority : List String
  pub min_evidence_rules : Dict ℕ
  pub gate_rules : Fields
  pub blocker_templates : Dict String

-- One entry of `blockers`; its severity is always hard.
pub record GateBlocker : Type 0 where
  pub blocker_id : String
  pub field_key : String
  pub availability : String
  pub reason : String
  pub owner : String
  pub next_step : String

-- The dict that the gate returns.
pub record GateResult : Type 0 where
  pub department : String
  pub passed : Bool
  pub missing_required_fields : List String
  pub accepted_tasks : ℕ
  pub completed_tasks : ℕ
  pub total_tasks : ℕ
  pub total_sources : ℕ
  pub primary_sources : ℕ
  pub source_priority : List String
  pub blockers : List GateBlocker

-- _PLACEHOLDERS
abbrev placeholders : List String
placeholders = "" ∷ "n/v" ∷ "n/a" ∷ "unknown" ∷ "none" ∷ "null" ∷ []

-- _PRIMARY_SOURCE_HINTS
abbrev primary_source_hints : List String
primary_source_hints =
    "primary" ∷ "annual report" ∷ "geschäftsbericht" ∷ "geschaeftsbericht" ∷ "10-k" ∷ "20-f"
    ∷ "filing" ∷ "sec" ∷ "bundesanzeiger" ∷ "unternehmensregister" ∷ "register" ∷ []

abbrev step_into : String → Value → Value
step_into token (obj fs) = get token fs
step_into token _ = null

walk_fields : List String → Value → Value
walk_fields [] current = current
walk_fields (token ∷ tokens) current = walk_fields tokens (step_into token current)

-- `_field_value`
unfoldable pub field_value : Fields → String → Value
unfolding walk_fields get
field_value payload dotted_field = walk_fields (split_dots dotted_field) (obj payload)

abbrev pub is_source : Value → Bool
is_source (obj fs) = true
is_source _ = false

-- What the code reads of the finished package.
pub record PackageView : Type 0 where
  pub section_payload : Fields
  -- The `status` of each completed task.
  pub statuses : List String
  pub sources : List Value
  pub open_questions : List String

module _ (py : Python) where
  abbrev present_text : String → Bool
  present_text s = not (str_mem (py.lower (strip s)) placeholders)

  unfoldable mutual
    -- `_is_present`
    pub is_present : Value → Bool
    is_present null = false
    is_present (str s) = present_text s
    is_present (list xs) = any_present xs
    is_present (obj fs) = any_field_present fs
    is_present _ = true

    pub any_present : Items → Bool
    any_present nil = false
    any_present (cons x xs) = is_present x || any_present xs

    pub any_field_present : Fields → Bool
    any_field_present end = false
    any_field_present (field k v fs) = is_present v || any_field_present fs

  source_text : String → Fields → String
  source_text key source = py.lower (strip (text_or py "" key source))

  is_primary_dict : Fields → Bool
  unfolding source_text
  is_primary_dict source =
      if source_text "source_type" source == "primary"
      then true
      else any
          (λ token. contains token (
            concat (
              source_text "title" source
              ∷ " "
              ∷ source_text "url" source
              ∷ " "
              ∷ source_text "summary" source
              ∷ [])))
          primary_source_hints

  -- `isinstance(item, dict) and _is_primary_source(item)`
  unfoldable pub is_primary_source : Value → Bool
  unfolding is_primary_dict
  is_primary_source (obj fs) = is_primary_dict fs
  is_primary_source _ = false

  missing_blockers :
      (availability owner next_step prefix template : String) → ℕ → List String → List GateBlocker
  missing_blockers availability owner next_step prefix template idx [] = []
  missing_blockers availability owner next_step prefix template idx (name ∷ names) =
      record {
        blocker_id = concat (prefix ∷ "_missing_field_" ∷ decimal idx ∷ []);
        field_key = name;
        availability = availability;
        reason = py.format template (("field", name) ∷ []);
        owner = owner;
        next_step = next_step;
      }
      ∷ missing_blockers availability owner next_step prefix template (idx + 1) names

  module _ (department : String) (policy : DepartmentPolicy) where
    -- One entry of `evidence_checks`, under its key and its key among the templates.
    check_evidence : (availability owner next_step key template_key : String) → ℕ → List GateBlocker
    check_evidence availability owner next_step key template_key actual =
        let required = get_or key 0 policy.min_evidence_rules in
        let template =
          get_or template_key "Minimum threshold not met for '{field}' ({actual}/{required})."
            policy.blocker_templates in
        if leb required 0 || leb required actual
        then []
        else record {
          blocker_id = concat (py.lower department ∷ "_" ∷ key ∷ []);
          field_key = key;
          availability = availability;
          reason =
              py.format template
                (("field", key) ∷ ("actual", decimal actual) ∷ ("required", decimal required) ∷ []);
          owner = owner;
          next_step = next_step;
        }
          ∷ []

    check_accepted : (availability owner next_step : String) → ℕ → List GateBlocker
    check_accepted availability owner next_step accepted =
        if flag_or true "require_any_accepted_task" policy.gate_rules && ltb accepted 1
        then record {
          blocker_id = concat (py.lower department ∷ "_accepted_task" ∷ []);
          field_key = "accepted_tasks";
          availability = availability;
          reason =
              get_or "no_accepted_task" "No task reached accepted status." policy.blocker_templates;
          owner = owner;
          next_step = next_step;
        }
          ∷ []
        else []

    abbrev pub missing_fields : Fields → List String
    missing_fields payload =
        keep (λ name. not (is_present (field_value payload name))) policy.required_fields

    abbrev pub count_accepted : List String → ℕ
    count_accepted statuses = length (keep (λ s. py.lower s == "accepted") statuses)

    abbrev pub count_completed : List String → ℕ
    count_completed statuses = length (
        keep (λ s. str_mem (py.lower s) ("accepted" ∷ "degraded" ∷ "blocked" ∷ "skipped" ∷ []))
          statuses)

    -- The availability that a blocker names.
    availability_of : List String → String
    availability_of open_questions =
        let said = py.lower (join " " open_questions) in
        if department == "ContactDepartment"
          && (contains "keine freien quellen" said || contains "no public" said)
        then "internal_customer"
        else text_or py "public" "missing_field_availability" policy.gate_rules

    -- `evaluate_department_policy_gate`
    unfoldable pub evaluate_department_policy_gate : PackageView → GateResult
    unfolding missing_blockers check_evidence check_accepted availability_of
    evaluate_department_policy_gate view =
        let missing = missing_fields view.section_payload in
        let availability = availability_of view.open_questions in
        let owner =
          text_or py (concat (department ∷ " Lead" ∷ [])) "missing_field_owner" policy.gate_rules in
        let next_step =
          text_default py "Run targeted follow-up to close mandatory department fields."
            "missing_field_next_step" policy.gate_rules in
        let accepted = count_accepted view.statuses in
        let completed = count_completed view.statuses in
        let total = length (keep is_source view.sources) in
        let primary = length (keep is_primary_source view.sources) in
        let blockers =
          missing_blockers availability owner next_step (py.lower department)
            (get_or "missing_required_field" "Required field '{field}' is missing or placeholder."
              policy.blocker_templates)
            1 missing
          ++ (check_evidence availability owner next_step "min_sources" "insufficient_sources" total
              ++ (check_evidence availability owner next_step "min_primary_sources"
                    "insufficient_primary_sources" primary
                  ++ (check_evidence availability owner next_step "min_completed_tasks"
                        "insufficient_completed_tasks" completed
                      ++ check_accepted availability owner next_step accepted))) in
        record {
          department = department;
          passed = not (nonempty blockers);
          missing_required_fields = missing;
          accepted_tasks = accepted;
          completed_tasks = completed;
          total_tasks = length view.statuses;
          total_sources = total;
          primary_sources = primary;
          source_priority = policy.source_priority;
          blockers = blockers;
        }
