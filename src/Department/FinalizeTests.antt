-- ===== src/Department/FinalizeTests.antt =====
-- The theorems on `finalize_package` and its escaping at the sample department.
use multi_agent_intel_pipeli.Prelude.{
  ◌≡◌, refl, true, List, [], ◌∷◌, none, lookup, get_or, insert, length, ◌+◌,
}
use multi_agent_intel_pipeli.Value.{field, str, end, iterate, find, truthy, get}
use multi_agent_intel_pipeli.Contracts.Artifacts.{lead_accepted}
use multi_agent_intel_pipeli.Supervisor.{set_field}
use multi_agent_intel_pipeli.Contracts.RunState.{
  DepartmentRunState, append_to, record_decision_artifact, latest_artifact, latest_review,
  latest_decision,
}
use multi_agent_intel_pipeli.PolicyGate.{DepartmentPolicy}
use multi_agent_intel_pipeli.Department.Research.{failure, report}
use multi_agent_intel_pipeli.Department.Goods.{classify_goods, fill_scope}
use multi_agent_intel_pipeli.Department.SafeText.{
  is_inert, every, texts_fields, safe_output_fields, safe_output_fields-inert,
}
use multi_agent_intel_pipeli.Department.Settle.{settle_task, settle_reviewed, settle_decided}
use multi_agent_intel_pipeli.Department.Finalize.{
  Closing, ChatState, finalize_package, finalize_by, is_incomplete, incomplete_tasks,
  assemble_package, settle_all, closed_payload, submit_settled, submit_package,
}
use multi_agent_intel_pipeli.Department.Chat.{Call, research, judge, finalize, chat}
use multi_agent_intel_pipeli.Department.Steps.{IsConsistent}
use multi_agent_intel_pipeli.Department.Registry.{chat-IsConsistent, fresh_state-IsConsistent}
use multi_agent_intel_pipeli.Department.Fallback.{build_fallback_package}
use multi_agent_intel_pipeli.Department.FallbackStatus.{IsFallback, build_fallback_package-statuses}
use multi_agent_intel_pipeli.Critic.Tally.{is_core}
use multi_agent_intel_pipeli.Department.Settled.{Submitted, finalize_package-reported}
use multi_agent_intel_pipeli.Department.Recovery.{retry, finalize_package-recovers}
use multi_agent_intel_pipeli.Department.Samples.{
  department, report_on, approving, blocked_decision, session, reviewed_by, start, unblocked,
}

abbrev policy : DepartmentPolicy
policy = record {
  department = "CompanyDepartment";
  required_fields = "name" ∷ [];
  source_priority = "primary" ∷ [];
  min_evidence_rules = ("min_sources", 1) ∷ [];
  gate_rules = end;
  blocker_templates = [];
}

abbrev closing : Closing
closing = record {
  lead_name = "CompanyLead";
  policy = policy;
  python = record { lower = λ s. s; text = λ v. ""; format = λ template fields. template };
  packet_json = λ p. p.packet_id;
  gap_json = λ g. g.gap_id;
  update_json = λ u. u.field_key;
}

abbrev chat_of : DepartmentRunState → ChatState
chat_of run = record {
  session = session run;
  blocked_finalize_attempts = 0;
  completed_package = none;
}

-- The first task is approved, the second was blocked.
abbrev finished : ChatState
finished = chat_of (record (reviewed_by 1 approving) {
  decision_artifacts = ("financial_deep_dive", blocked_decision ∷ []) ∷ [];
})

finalize_package-reported_example :
    (incomplete_tasks finished.session.run department.assignments ≡ [])
    × Submitted department closing "" finished
        (finalize_package department closing "" (failure "offline") finished).0
unfolding finalize_package finalize_by incomplete_tasks is_incomplete latest_artifact latest_review
    latest_decision lookup assemble_package settle_all settle_task settle_reviewed settle_decided
    closed_payload classify_goods fill_scope submit_settled submit_package get_or
    record_decision_artifact append_to insert lead_accepted iterate find truthy get set_field
finalize_package-reported_example =
    finalize_package-reported department closing "" (failure "offline") finished refl

finalize_package-recovers_example :
    let done =
      retry department closing "" report_on
        (λ k. [])
        (length (incomplete_tasks start.run department.assignments) + 1)
        (chat_of start.run) in
    (incomplete_tasks done.session.run department.assignments ≡ [])
    × (finalize_package department closing "" (failure "offline") done
        ≡ assemble_package department closing "" done)
unfolding lookup
finalize_package-recovers_example =
    finalize_package-recovers department closing "" report_on (λ k. []) (λ k. refl)
      (chat_of start.run) (failure "offline") (λ k h. absurd (cc))

-- The package is asked for twice while the second task is open: the first call is turned down, the
-- second researches that task.
abbrev calls : List Call
calls =
    research "company_fundamentals" (report (report_on "company_fundamentals") [])
    ∷ Call.review "company_fundamentals" ""
    ∷ finalize "" (λ k. report (report_on k) [])
    ∷ finalize "" (λ k. report (report_on k) [])
    ∷ judge "company_fundamentals"
    ∷ []

chat-IsConsistent_example :
    IsConsistent (chat department closing (chat_of start.run) calls).session.run
chat-IsConsistent_example =
    chat-IsConsistent department closing (chat_of start.run) calls
      (fresh_state-IsConsistent "CompanyDepartment" end)
      (refl, (tt, (λ k. refl, (λ k. refl, (tt, tt)))))

safe_output_fields-inert_example :
    texts_fields (every is_inert) (safe_output_fields (field "name" (str "<b>Acme & Sons</b>") end))
    ≡ true
safe_output_fields-inert_example =
    safe_output_fields-inert (field "name" (str "<b>Acme & Sons</b>") end)

-- The first task was researched only, the second blocked before.
build_fallback_package-statuses_example :
    IsFallback department unblocked (build_fallback_package department closing unblocked)
unfolding is_core
build_fallback_package-statuses_example =
    build_fallback_package-statuses department unblocked closing (refl, (refl, tt))
