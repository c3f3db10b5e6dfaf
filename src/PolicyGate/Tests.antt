-- ===== src/PolicyGate/Tests.antt =====
-- The gate's theorem at a package without sources.
use multi_agent_intel_pipeli.Prelude.{◌≡◌, [], ◌∷◌}
use multi_agent_intel_pipeli.Value.{str, end, field}
use multi_agent_intel_pipeli.Python.{Python}
use multi_agent_intel_pipeli.PolicyGate.{
  DepartmentPolicy, PackageView, evaluate_department_policy_gate,
}
use multi_agent_intel_pipeli.PolicyGate.Passed.{fulfilled, evaluate_department_policy_gate-passed}

abbrev python : Python
python = record { lower = λ s. s; text = λ v. ""; format = λ template fields. template }

abbrev policy : DepartmentPolicy
policy = record {
  department = "MarketDepartment";
  required_fields = "market.size" ∷ [];
  source_priority = "primary" ∷ [];
  min_evidence_rules = ("min_sources", 2) ∷ [];
  gate_rules = end;
  blocker_templates = [];
}

abbrev sample : PackageView
sample = record {
  section_payload = field "market" (str "n/v") end;
  statuses = "accepted" ∷ [];
  sources = [];
  open_questions = [];
}

evaluate_department_policy_gate-passed_example :
    (evaluate_department_policy_gate python "MarketDepartment" policy sample).passed
    ≡ fulfilled python "MarketDepartment" policy sample
evaluate_department_policy_gate-passed_example =
    evaluate_department_policy_gate-passed python "MarketDepartment" policy sample
