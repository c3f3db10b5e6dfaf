-- ===== src/SpeakerSelector/Tests.antt =====
-- The selectors' theorems at sample agents; ASCII texts without capitals are their own lower case.
use multi_agent_intel_pipeli.Prelude.{
  ◌≡◌, ◌≤◌, refl, String, true, false, [], ◌∷◌, some, get_or, contains, insert, lookup,
}
use multi_agent_intel_pipeli.SpeakerSelector.{
  Message, DepartmentNames, department_selector, department_route, department_roles, role_of,
  department_monitored, count_turn, select,
}
use multi_agent_intel_pipeli.SpeakerSelector.Routing.{
  next_speaker, department_selector-next_speaker,
}
use multi_agent_intel_pipeli.SpeakerSelector.Turns.{converse, converse-loop_guard}

abbrev department_names : DepartmentNames
department_names = record {
  lead_name = "companylead";
  researcher_name = "companyresearcher";
  critic_name = "companycritic";
  judge_name = "companyjudge";
  coding_name = "companycoder";
  executor_name = "companyexecutor";
}

abbrev text : String → Message
text content = record { content = content; tool_calls = false }

abbrev call : Message
call = record { content = ""; tool_calls = true }

lead_calls_critic :
    (department_selector
      (λ s. s)
      department_names
      "companylead"
      (some (text "companycritic, your turn"))
      []).1
    ≡ "critic"
unfolding department_selector select department_route department_roles role_of count_turn get_or
    insert lookup contains
lead_calls_critic = refl

department_selector-next_speaker_example :
    (department_selector
      (λ s. s)
      department_names
      "companycritic"
      (some (text "looks good"))
      (("critic", 2) ∷ [])).1
    ≡ next_speaker true
        (department_route (λ s. s) department_names)
        (role_of (department_roles department_names) "companycritic")
        (text "looks good")
department_selector-next_speaker_example =
    department_selector-next_speaker (λ s. s) department_names "companycritic" (text "looks good")
      (("critic", 2) ∷ [])

converse-loop_guard_example :
    get_or "critic" 0
      (converse department_monitored true
        (department_route (λ s. s) department_names)
        (text "companycritic, your turn" ∷ text "looks good" ∷ call ∷ [])
        ([], "lead")).0
    ≤ 1
converse-loop_guard_example =
    (converse-loop_guard department_monitored true (department_route (λ s. s) department_names) refl
        refl (text "companycritic, your turn" ∷ text "looks good" ∷ call ∷ [])).1
      "critic"
