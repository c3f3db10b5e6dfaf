-- ===== src/Backlog.antt =====
-- src/app/use_cases.py: STANDARD_TASK_BACKLOG, its tasks in the order of the source. The objectives,
-- which are texts for the models, are left out.
pub mod Rules
pub mod Standard
mod Tests
use multi_agent_intel_pipeli.Prelude.{
  String, List, [], ◌∷◌, Option, none, some, ◌==◌, if◌then◌else◌,
}
use multi_agent_intel_pipeli.Critic.{Rule}
use multi_agent_intel_pipeli.Backlog.Rules

-- One task's contract.
pub record TaskContract : Type 0 where
  pub task_key : String
  pub label : String
  pub assignee : String
  pub target_section : String
  pub depends_on : List String
  pub run_condition : Option String
  pub output_schema_key : String
  pub validation_rules : List Rule

abbrev company_fundamentals : TaskContract
company_fundamentals = record {
  task_key = "company_fundamentals";
  label = "Company fundamentals";
  assignee = "CompanyDepartment";
  target_section = "company_profile";
  depends_on = [];
  run_condition = none;
  output_schema_key = "CompanyFundamentals";
  validation_rules = Rules.company_fundamentals;
}

abbrev economic_commercial_situation : TaskContract
economic_commercial_situation = record {
  task_key = "economic_commercial_situation";
  label = "Economic and commercial situation";
  assignee = "CompanyDepartment";
  target_section = "company_profile";
  depends_on = "company_fundamentals" ∷ [];
  run_condition = none;
  output_schema_key = "EconomicSituation";
  validation_rules = Rules.economic_commercial_situation;
}

abbrev financial_deep_dive : TaskContract
financial_deep_dive = record {
  task_key = "financial_deep_dive";
  label = "Financial deep dive";
  assignee = "CompanyDepartment";
  target_section = "company_profile";
  depends_on = "company_fundamentals" ∷ [];
  run_condition = none;
  output_schema_key = "FinancialDeepDiveResult";
  validation_rules = Rules.financial_deep_dive;
}

abbrev market_situation : TaskContract
market_situation = record {
  task_key = "market_situation";
  label = "Market situation";
  assignee = "MarketDepartment";
  target_section = "industry_analysis";
  depends_on = [];
  run_condition = none;
  output_schema_key = "MarketSituation";
  validation_rules = Rules.market_situation;
}

abbrev pub peer_companies : TaskContract
peer_companies = record {
  task_key = "peer_companies";
  label = "Peer companies";
  assignee = "BuyerDepartment";
  target_section = "market_network";
  depends_on = "market_situation" ∷ [];
  run_condition = none;
  output_schema_key = "PeerCompanies";
  validation_rules = Rules.peer_companies;
}

abbrev product_asset_scope : TaskContract
product_asset_scope = record {
  task_key = "product_asset_scope";
  label = "Product and asset scope";
  assignee = "CompanyDepartment";
  target_section = "company_profile";
  depends_on = "company_fundamentals" ∷ [];
  run_condition = none;
  output_schema_key = "ProductAssetScope";
  validation_rules = Rules.product_asset_scope;
}

abbrev transaction_event_intelligence : TaskContract
transaction_event_intelligence = record {
  task_key = "transaction_event_intelligence";
  label = "Transaction and event intelligence";
  assignee = "CompanyDepartment";
  target_section = "company_profile";
  depends_on = "company_fundamentals" ∷ [];
  run_condition = none;
  output_schema_key = "TransactionEventIntelligenceResult";
  validation_rules = Rules.transaction_event_intelligence;
}

abbrev monetization_redeployment : TaskContract
monetization_redeployment = record {
  task_key = "monetization_redeployment";
  label = "Monetization and redeployment landscape";
  assignee = "BuyerDepartment";
  target_section = "market_network";
  depends_on = "peer_companies" ∷ [];
  run_condition = none;
  output_schema_key = "MonetizationRedeployment";
  validation_rules = Rules.monetization_redeployment;
}

abbrev contact_discovery : TaskContract
contact_discovery = record {
  task_key = "contact_discovery";
  label = "Contact discovery at prioritized buyer firms";
  assignee = "ContactDepartment";
  target_section = "contact_intelligence";
  depends_on = "peer_companies" ∷ "monetization_redeployment" ∷ [];
  run_condition = some "buyer_department_has_prioritized_firms";
  output_schema_key = "ContactDiscoveryResult";
  validation_rules = Rules.contact_discovery;
}

abbrev target_company_contacts : TaskContract
target_company_contacts = record {
  task_key = "target_company_contacts";
  label = "Target-company contacts";
  assignee = "ContactDepartment";
  target_section = "contact_intelligence";
  depends_on = "company_fundamentals" ∷ [];
  run_condition = none;
  output_schema_key = "TargetCompanyContactsResult";
  validation_rules = Rules.target_company_contacts;
}

abbrev contact_qualification : TaskContract
contact_qualification = record {
  task_key = "contact_qualification";
  label = "Contact qualification and outreach angles";
  assignee = "ContactDepartment";
  target_section = "contact_intelligence";
  depends_on = "contact_discovery" ∷ [];
  run_condition = some "contact_discovery_completed";
  output_schema_key = "ContactQualificationResult";
  validation_rules = Rules.contact_qualification;
}

abbrev liquisto_opportunity_assessment : TaskContract
liquisto_opportunity_assessment = record {
  task_key = "liquisto_opportunity_assessment";
  label = "Liquisto opportunity assessment";
  assignee = "SynthesisDepartment";
  target_section = "synthesis";
  depends_on =
      "company_fundamentals" ∷ "market_situation" ∷ "peer_companies" ∷ "monetization_redeployment"
      ∷ [];
  run_condition = none;
  output_schema_key = "OpportunityAssessment";
  validation_rules = Rules.liquisto_opportunity_assessment;
}

abbrev negotiation_relevance : TaskContract
negotiation_relevance = record {
  task_key = "negotiation_relevance";
  label = "Negotiation relevance";
  assignee = "SynthesisDepartment";
  target_section = "synthesis";
  depends_on = "liquisto_opportunity_assessment" ∷ [];
  run_condition = none;
  output_schema_key = "NegotiationRelevance";
  validation_rules = Rules.negotiation_relevance;
}

abbrev pub standard_task_backlog : List TaskContract
standard_task_backlog =
    company_fundamentals ∷ economic_commercial_situation ∷ financial_deep_dive ∷ market_situation
    ∷ peer_companies ∷ product_asset_scope ∷ transaction_event_intelligence
    ∷ monetization_redeployment ∷ contact_discovery ∷ target_company_contacts
    ∷ contact_qualification ∷ liquisto_opportunity_assessment ∷ negotiation_relevance ∷ []

-- `_TASK_CONTRACT_BY_KEY.get(task_key)`, on a backlog whose keys are distinct.
unfoldable pub find_contract : String → List TaskContract → Option TaskContract
find_contract task_key [] = none
find_contract task_key (c ∷ cs) =
    if c.task_key == task_key then some c else find_contract task_key cs

unfoldable pub get_task_contract : String → Option TaskContract
get_task_contract task_key = find_contract task_key standard_task_backlog

abbrev rules_of : Option TaskContract → List Rule
rules_of none = []
rules_of (some c) = c.validation_rules

unfoldable pub get_task_validation_rules : String → List Rule
get_task_validation_rules task_key = rules_of (get_task_contract task_key)
