-- ===== src/Department/Tests.antt =====
-- The theorems on a department's tools at the sample.
use multi_agent_intel_pipeli.Prelude.{
  ◌≡◌, ◌↔◌, refl, true, false, some, [], ◌∷◌, all, any, lookup, get_or, arith,
}
use multi_agent_intel_pipeli.Value.{find, end, field, str, truthy, iterate}
use multi_agent_intel_pipeli.Contracts.{Outcome}
use multi_agent_intel_pipeli.Contracts.RunState.{
  latest_artifact, latest_review, latest_decision, is_dependency_satisfied,
}
use multi_agent_intel_pipeli.Critic.Review.{has_unhashable_type, sources_of}
use multi_agent_intel_pipeli.Critic.Review
use multi_agent_intel_pipeli.Critic.Counts.{core_fails}
use multi_agent_intel_pipeli.Critic.Tally.{is_core}
use multi_agent_intel_pipeli.Critic.Samples.{sample_rules, sample_payload}
use multi_agent_intel_pipeli.Department.{find_assignment}
use multi_agent_intel_pipeli.Department.Payload.{restore, is_default, restore_lem}
use multi_agent_intel_pipeli.Department.Research.{
  report, failure, local_keys, run_research, execute, first_unsatisfied, guarded, assigned,
  has_result,
}
use multi_agent_intel_pipeli.Department.Review.{
  report_of, critic_review, store_review, after_review, review_latest, review_assigned,
  review_research, judge_decision,
}
use multi_agent_intel_pipeli.Department.Guards.{
  was_called, dependency_ok, run_research-dependencies, run_research-retry_limit,
}
use multi_agent_intel_pipeli.Department.Reruns.{research_times, run_research-reruns}
use multi_agent_intel_pipeli.Department.Quality.{
  judge_decision-no_questions, review_research-no_method_issue, judge_decision-review_research,
}
use multi_agent_intel_pipeli.Department.Samples.{
  first_task, second_task, department, report_on, artifact_on, review_on, session, start,
  researched, reviewed_by, unblocked,
}

-- The worker lost the size.
restore_lem_example :
    find "size" (restore (field "size" (str "10") end) (field "name" (str "Acme") end))
    ≡ some (str "10")
unfolding find is_default
restore_lem_example =
    restore_lem (field "size" (str "10") end) (field "name" (str "Acme") end) "size" (refl, tt)

run_research-dependencies_example :
    all (dependency_ok start.run (local_keys department.assignments)) first_task.depends_on ≡ true
unfolding run_research find_assignment assigned first_unsatisfied guarded has_result lookup execute
run_research-dependencies_example =
    run_research-dependencies department "company_fundamentals" start first_task refl
      (report (report_on "company_fundamentals") []) refl

run_research-retry_limit_example :
    was_called
      (run_research department "company_fundamentals"
        (failure "offline")
        (session (reviewed_by 2 (record (review_on 2) { approved = false })))).1
    ≡ false
unfolding find_assignment first_unsatisfied has_result lookup latest_decision latest_review get_or
run_research-retry_limit_example =
    (run_research-retry_limit department "company_fundamentals"
      (session (reviewed_by 2 (record (review_on 2) { approved = false }))) first_task refl refl
      refl refl (record (review_on 2) { approved = false }) refl (failure "offline") refl
      (omega arith)).0

run_research-reruns_example :
    get_or "financial_deep_dive" 0
      (research_times department "financial_deep_dive"
        (failure "offline" ∷ report (report_on "financial_deep_dive") [] ∷ failure "late" ∷ [])
        (session unblocked)).run.attempts
    ≡ 3
unfolding find_assignment latest_decision is_dependency_satisfied latest_review latest_artifact
    get_or lookup
run_research-reruns_example =
    (run_research-reruns department "financial_deep_dive" second_task refl
      (failure "offline" ∷ report (report_on "financial_deep_dive") [] ∷ failure "late" ∷ [])
      (session unblocked) refl refl (tt, (refl, (tt, tt)))).0

judge_decision-no_questions_example :
    (judge_decision department "company_fundamentals"
      (reviewed_by 1 (review_on 1))).1.open_questions
    ≡ []
unfolding find_assignment latest_artifact get_or lookup
judge_decision-no_questions_example =
    judge_decision-no_questions department "company_fundamentals" (reviewed_by 1 (review_on 1))
      first_task (artifact_on "company_fundamentals" 1) refl refl

review_research-no_method_issue_example : (review_on 1).method_issue ≡ false
unfolding review_research review_assigned review_latest after_review store_review find_assignment
    latest_artifact get_or lookup critic_review report_of Review.review iterate sources_of truthy
    has_unhashable_type
review_research-no_method_issue_example =
    review_research-no_method_issue department "company_fundamentals" "" (session (researched 1))
      (review_on 1) refl

judge_decision-review_research_example :
    let s' =
      (review_research department "company_fundamentals" "" (session (researched 1))).0.run in
    ((judge_decision department "company_fundamentals" s').1.decision ≡ Outcome.accepted)
    ↔ (any (core_fails "company_fundamentals" sample_payload) sample_rules ≡ false)
unfolding review_research review_assigned review_latest after_review store_review find_assignment
    latest_artifact get_or lookup critic_review report_of Review.review iterate sources_of truthy
    has_unhashable_type is_core
judge_decision-review_research_example =
    (judge_decision-review_research department "company_fundamentals" "" (session (researched 1))
      (review_on 1) refl (artifact_on "company_fundamentals" 1) refl refl).0
