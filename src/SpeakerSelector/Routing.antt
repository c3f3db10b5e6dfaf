-- ===== src/SpeakerSelector/Routing.antt =====
-- The speaker that a selector picks, described without the counters.
use multi_agent_intel_pipeli.Prelude.{
  ℕ, ◌≡◌, refl, String, Bool, true, false, not, ◌&&◌, some, ◌==◌, arith, if◌then◌else◌, eq_iff,
  Dict, str_mem, contains, nonempty_text, List,
}
use multi_agent_intel_pipeli.SpeakerSelector.{
  Message, DepartmentNames, SynthesisNames, select, count_turn, department_roles, role_of,
  department_selector, department_route, synthesis_selector, synthesis_route, synthesis_roles,
}

-- The executor after a tool call, the lead after everyone else but itself, and whom the lead
-- addresses unless it ends the chat.
abbrev pub next_speaker : Bool → (String → String) → String → Message → String
next_speaker has_executor route last_role m =
    if m.tool_calls && has_executor
    then "executor"
    else if last_role == "lead" && not (contains "TERMINATE" m.content)
    then route m.content
    else "lead"

module _ (monitored : List String) (last_role : String) (turns : Dict ℕ)
    (unmonitored : str_mem "lead" monitored ≡ false) (is_lead : (last_role == "lead") ≡ true) where
  count_turn-lead : (count_turn monitored last_role turns).1 ≡ false
  unfolding count_turn
  count_turn-lead = rw ((eq_iff last_role "lead").0 is_lead, unmonitored) refl

  lead_not_executor : (last_role == "executor") ≡ false
  lead_not_executor = rw ((eq_iff last_role "lead").0 is_lead) refl

select-next_speaker :
    (monitored : List String) (has_executor : Bool) (route : String → String) (last_role : String)
    (m : Message) (turns : Dict ℕ)
    → str_mem "lead" monitored ≡ false
    → (select monitored has_executor route last_role (some m) turns).1
      ≡ next_speaker has_executor route last_role m
unfolding select
select-next_speaker monitored has_executor route last_role m turns h = ground (
  arith,
  count_turn-lead monitored last_role turns h,
  lead_not_executor monitored last_role turns h,
)

-- The speaker that a department's selector picks depends on the last message and its speaker only,
-- never on the counters of text turns: the executor after a tool call, the lead after everyone else
-- but itself, and whom the lead addresses unless it ends the chat.
pub department_selector-next_speaker :
    (lower : String → String) (n : DepartmentNames) (speaker : String) (m : Message)
    (turns : Dict ℕ)
    → (department_selector lower n speaker (some m) turns).1
      ≡ next_speaker
          (nonempty_text n.executor_name)
          (department_route lower n)
          (role_of (department_roles n) speaker)
          m
unfolding department_selector
department_selector-next_speaker lower n speaker m turns = select-next_speaker _ _ _ _ m turns refl

-- The speaker that the synthesis' selector picks depends on the last message and its speaker only,
-- never on the counters of text turns: the executor after a tool call, the lead after everyone else
-- but itself, and whom the lead addresses unless it ends the chat.
pub synthesis_selector-next_speaker :
    (lower : String → String) (n : SynthesisNames) (speaker : String) (m : Message) (turns : Dict ℕ)
    → (synthesis_selector lower n speaker (some m) turns).1
      ≡ next_speaker
          (nonempty_text n.executor_name)
          (synthesis_route lower n)
          (role_of (synthesis_roles n) speaker)
          m
unfolding synthesis_selector
synthesis_selector-next_speaker lower n speaker m turns = select-next_speaker _ _ _ _ m turns refl
