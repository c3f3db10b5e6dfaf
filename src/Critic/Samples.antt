-- ===== src/Critic/Samples.antt =====
-- A task's contract and a payload that the tests share: the core rule on the name passes, the core
-- rule on the products fails.
use multi_agent_intel_pipeli.Prelude.{String, true, List, [], ◌∷◌, some, none}
use multi_agent_intel_pipeli.Value.{str, list, obj, Fields, end, field, nil, cons}
use multi_agent_intel_pipeli.Critic.{Rule}
use multi_agent_intel_pipeli.Critic.Tally.{tally_rules, no_rules}
use multi_agent_intel_pipeli.Critic.Review.{WorkerReport, Review, assemble}

abbrev rule : String → String → Rule
rule name path = record {
  check = some name;
  field = some path;
  sub_field = none;
  value = none;
  class = some "core";
  message = none;
}

abbrev pub name_rule : Rule
name_rule = rule "non_placeholder" "company_name"

abbrev pub sample_rules : List Rule
sample_rules = name_rule ∷ rule "min_items" "products" ∷ []

abbrev sources : Fields → Fields
sources fs =
    field "sources" (list (cons (obj (field "url" (str "https://example.org") end)) nil)) fs

abbrev pub sample_payload : Fields
sample_payload = field "company_name" (str "Acme") (sources end)

abbrev pub sample_report : WorkerReport
sample_report = record {
  field_issues = [];
  contract_violations = [];
  queries_used = "acme" ∷ [];
  search_calls = 0;
}

-- The review of the payload by a contract.
abbrev pub review_by : List Rule → Review
review_by rules =
    assemble "company_fundamentals" "Profile Acme" rules sample_payload (some sample_report) []
      (tally_rules "company_fundamentals" sample_payload no_rules rules) true
      (obj (field "url" (str "https://example.org") end) ∷ [])
