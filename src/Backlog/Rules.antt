-- ===== src/Backlog/Rules.antt =====
-- src/app/use_cases.py: the rules of the standard tasks' contracts.
use multi_agent_intel_pipeli.Prelude.{ℕ, String, List, [], ◌∷◌, Option, none, some}
use multi_agent_intel_pipeli.Critic.{Rule}

abbrev core : String → String → Option ℕ → String → Rule
core name path value message = record {
  check = some name;
  field = some path;
  sub_field = none;
  value = value;
  class = some "core";
  message = some message;
}

abbrev supporting : String → String → Option ℕ → String → Rule
supporting name path value message = record {
  check = some name;
  field = some path;
  sub_field = none;
  value = value;
  class = some "supporting";
  message = some message;
}

-- With the field of each item that the check reads.
abbrev nested : String → Rule → Rule
nested sub_field rule = record rule { sub_field = some sub_field }

abbrev pub company_fundamentals : List Rule
company_fundamentals =
    core "non_placeholder" "company_name" none "Company name is not identified"
    ∷ core "non_placeholder" "website" none "Company website is not verified"
    ∷ core "non_placeholder" "industry" none "Industry classification is missing"
    ∷ core "non_placeholder" "description" none "Business description is absent"
    ∷ core "min_items" "products_and_services" (some 2) "Fewer than 2 products or services listed"
    ∷ supporting "non_placeholder" "headquarters" none "Headquarters location is missing"
    ∷ supporting "non_placeholder" "revenue" none "Revenue figure is missing"
    ∷ []

abbrev pub economic_commercial_situation : List Rule
economic_commercial_situation =
    core "non_placeholder" "economic_situation.assessment" none "Economic assessment is missing"
    ∷ core "min_items" "economic_situation.recent_events" (some 1)
        "No recent commercial events recorded"
    ∷ core "non_placeholder" "economic_situation.financial_pressure" none
        "Financial pressure assessment is missing"
    ∷ supporting "min_items" "economic_situation.inventory_signals" (some 1)
        "No inventory signals found"
    ∷ supporting "non_placeholder" "economic_situation.revenue_trend" none
        "Revenue trend is missing"
    ∷ []

abbrev pub financial_deep_dive : List Rule
financial_deep_dive =
    core "non_placeholder" "financial_deep_dive.assessment" none
      "Financial deep-dive assessment is missing"
    ∷ core "min_items" "financial_deep_dive.key_financials" (some 2)
        "Too few financial datapoints extracted"
    ∷ supporting "min_items" "financial_deep_dive.inventory_positions" (some 1)
        "No inventory positions extracted"
    ∷ supporting "min_items" "financial_deep_dive.balance_sheet_signals" (some 1)
        "No balance-sheet signals extracted"
    ∷ []

abbrev pub market_situation : List Rule
market_situation =
    core "non_placeholder" "industry_name" none "Industry name is missing"
    ∷ core "non_placeholder" "assessment" none "Market assessment is missing"
    ∷ core "non_placeholder" "demand_outlook" none "Demand outlook is not assessed"
    ∷ core "non_placeholder" "trend_direction" none "Market trend direction is missing"
    ∷ core "min_items" "key_trends" (some 2) "Fewer than 2 market trends identified"
    ∷ supporting "non_placeholder" "growth_rate" none "Growth rate is missing"
    ∷ supporting "non_placeholder" "market_size" none "Market size is missing"
    ∷ []

abbrev pub peer_companies : List Rule
peer_companies =
    core "non_placeholder" "target_company" none "Target company is not confirmed"
    ∷ core "non_placeholder" "peer_competitors.assessment" none
        "Peer landscape assessment is missing"
    ∷ core "min_items" "peer_competitors.companies" (some 3)
        "Fewer than 3 peer companies identified"
    ∷ nested "relevance" (
        core "nested_field_non_placeholder" "peer_competitors.companies" (some 2)
          "Fewer than 2 peers have a relevance explanation")
    ∷ []

abbrev pub product_asset_scope : List Rule
product_asset_scope =
    core "min_items" "product_asset_scope" (some 2)
      "Fewer than 2 product or asset scope items identified"
    ∷ core "non_placeholder" "goods_classification" none "Goods classification is missing"
    ∷ []

abbrev pub transaction_event_intelligence : List Rule
transaction_event_intelligence =
    core "non_placeholder" "transaction_event_intelligence.assessment" none
      "Transaction/event assessment is missing"
    ∷ supporting "min_items" "transaction_event_intelligence.strategic_events" (some 1)
        "No strategic events captured"
    ∷ []

abbrev pub monetization_redeployment : List Rule
monetization_redeployment =
    core "non_placeholder" "target_company" none "Target company is not confirmed"
    ∷ core "min_items" "downstream_buyers.companies" (some 1) "No downstream buyers identified"
    ∷ core "non_placeholder" "downstream_buyers.assessment" none
        "Downstream buyer assessment is missing"
    ∷ core "min_items" "monetization_paths" (some 1) "No monetization paths defined"
    ∷ core "min_items" "redeployment_paths" (some 1) "No redeployment paths defined"
    ∷ nested "relevance" (
        core "nested_field_non_placeholder" "downstream_buyers.companies" (some 1)
          "No downstream buyer has a relevance explanation")
    ∷ []

abbrev pub contact_discovery : List Rule
contact_discovery =
    core "min_items" "contacts" (some 3) "Fewer than 3 contacts identified at buyer firms"
    ∷ core "non_placeholder" "coverage_quality" none "Coverage quality not assessed"
    ∷ nested "firma" (
        core "nested_field_non_placeholder" "contacts" (some 2)
          "Fewer than 2 contacts have a verified company name")
    ∷ []

abbrev pub target_company_contacts : List Rule
target_company_contacts =
    core "min_items" "target_company_contacts" (some 2) "Too few target-company contacts identified"
    ∷ core "non_placeholder" "target_company_summary" none
        "No target-company contact summary provided"
    ∷ nested "rolle_titel" (
        supporting "nested_field_non_placeholder" "target_company_contacts" (some 1)
          "No target-company contact has a role title")
    ∷ []

abbrev pub contact_qualification : List Rule
contact_qualification =
    core "min_items" "prioritized_contacts" (some 1) "No contacts qualified and prioritized"
    ∷ core "non_placeholder" "narrative_summary" none "No qualification narrative provided"
    ∷ nested "senioritaet" (
        core "nested_field_non_placeholder" "prioritized_contacts" (some 1)
          "No prioritized contact has seniority assessed")
    ∷ nested "suggested_outreach_angle" (
        core "nested_field_non_placeholder" "prioritized_contacts" (some 1)
          "No prioritized contact has an outreach angle")
    ∷ []

abbrev pub liquisto_opportunity_assessment : List Rule
liquisto_opportunity_assessment =
    core "non_placeholder" "opportunity_assessment_summary" none "Opportunity assessment is missing"
    ∷ core "min_items" "recommended_engagement_paths" (some 1)
        "No recommended engagement paths identified"
    ∷ supporting "min_items" "liquisto_service_relevance" (some 1)
        "No service relevance assessments provided"
    ∷ []

abbrev pub negotiation_relevance : List Rule
negotiation_relevance =
    core "min_items" "next_steps" (some 1) "No next steps defined"
    ∷ core "min_items" "key_risks" (some 1) "No key risks identified"
    ∷ []
