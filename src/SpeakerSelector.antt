-- ===== src/SpeakerSelector.antt =====
-- src/orchestration/speaker_selector.py: which agent of a group chat speaks next. The counters of
-- text turns are the state; a speaker is known by its role. `str.lower` is an argument, since what
-- it does beyond ASCII is a table of Unicode.
pub mod Routing
pub mod Turns
mod Tests
use multi_agent_intel_pipeli.Prelude.{
  ℕ, ◌+◌, String, Bool, true, false, ◌&&◌, ◌||◌, List, [], ◌∷◌, Option, none, some, ◌==◌, leb,
  if◌then◌else◌, Dict, insert, get_or, str_mem, contains, nonempty_text,
}

-- A message: `str(last_msg.get("content") or "")` and whether it has tool calls.
pub record Message : Type 0 where
  pub content : String
  pub tool_calls : Bool

-- `_MAX_TEXT_TURNS`
abbrev pub max_text_turns : ℕ
max_text_turns = 3

-- The agents' names of a department, and the texts after `lower()` of a message that address an
-- agent, each with the role that it calls.
pub record DepartmentNames : Type 0 where
  pub lead_name : String
  pub researcher_name : String
  pub critic_name : String
  pub judge_name : String
  pub coding_name : String
  pub executor_name : String

pub record SynthesisNames : Type 0 where
  pub lead_name : String
  pub analyst_name : String
  pub critic_name : String
  pub judge_name : String
  pub executor_name : String

-- `if executor_name: name_to_role[executor_name] = "executor"`
abbrev add_executor : String → Dict String → Dict String
add_executor executor_name names =
    if nonempty_text executor_name then insert executor_name "executor" names else names

-- `name_to_role` of `build_department_selector`
unfoldable pub department_roles : DepartmentNames → Dict String
department_roles n = add_executor n.executor_name (
    insert n.coding_name "coding" (
      insert n.judge_name "judge" (
        insert n.critic_name "critic"
          (insert n.researcher_name "researcher" (insert n.lead_name "lead" [])))))

-- `name_to_role` of `build_synthesis_selector`
unfoldable pub synthesis_roles : SynthesisNames → Dict String
synthesis_roles n = add_executor n.executor_name (
    insert n.judge_name "judge" (
      insert n.critic_name "critic"
        (insert n.analyst_name "analyst" (insert n.lead_name "lead" []))))

-- `name_to_role.get(last_speaker.name, "lead")`
unfoldable pub role_of : Dict String → String → String
role_of roles name = get_or name "lead" roles

-- `for r in (...): text_turns[r] = 0`
unfoldable pub reset : List String → Dict ℕ → Dict ℕ
reset [] turns = turns
reset (r ∷ rs) turns = reset rs (insert r 0 turns)

-- Guardrail 3: the counters after a text turn, and whether the loop guard sends the chat back to
-- the lead.
unfoldable pub count_turn : List String → String → Dict ℕ → Dict ℕ × Bool
count_turn monitored last_role turns =
    let n = get_or last_role 0 turns + 1 in
    if str_mem last_role monitored
    then (if leb max_text_turns n
        then (insert last_role 0 (insert last_role n turns), true)
        else (insert last_role n turns, false))
    else (reset monitored turns, false)

-- `_selector`: the counters and the role that speaks next. `monitored` are the roles of guardrail 3,
-- `has_executor` says that an executor is there, `route` reads whom the lead addresses.
unfoldable pub select :
    List String → Bool → (String → String) → String → Option Message → Dict ℕ → Dict ℕ × String
select monitored has_executor route last_role none turns = (turns, "lead")
select monitored has_executor route last_role (some m) turns =
    let counted = count_turn monitored last_role turns in
    if m.tool_calls && has_executor
    then (insert last_role 0 turns, "executor")
    else if last_role == "executor"
    then (turns, "lead")
    else (
      counted.0,
      if counted.1
          then "lead"
          else if contains "TERMINATE" m.content
          then "lead"
          else if last_role == "lead"
          then route m.content
          else "lead",
    )

-- The roles whose text turns the selectors count.
abbrev pub department_monitored : List String
department_monitored = "researcher" ∷ "critic" ∷ "judge" ∷ "coding" ∷ []

abbrev pub synthesis_monitored : List String
synthesis_monitored = "analyst" ∷ "critic" ∷ "judge" ∷ []

-- Whom the lead of a department addresses.
unfoldable pub department_route : (String → String) → DepartmentNames → String → String
department_route lower n content =
    let low = lower content in
    if contains (lower n.researcher_name) low || contains "run_research" low
    then "researcher"
    else if contains (lower n.critic_name) low || contains "review_research" low
    then "critic"
    else if contains (lower n.judge_name) low || contains "judge_decision" low
    then "judge"
    else if contains (lower n.coding_name) low || contains "suggest_refined" low
    then "coding"
    else "researcher"

-- Whom the lead of the synthesis addresses.
unfoldable pub synthesis_route : (String → String) → SynthesisNames → String → String
synthesis_route lower n content =
    let low = lower content in
    if contains (lower n.analyst_name) low || contains "read_report_segment" low
    then "analyst"
    else if contains (lower n.critic_name) low || contains "review" low || contains "critique" low
    then "critic"
    else if contains (lower n.judge_name) low || contains "judge" low || contains "reject" low
    then "judge"
    else "analyst"

-- The selector that `build_department_selector` returns.
unfoldable pub department_selector :
    (String → String) → DepartmentNames → String → Option Message → Dict ℕ → Dict ℕ × String
department_selector lower n speaker m turns =
    select department_monitored (nonempty_text n.executor_name) (department_route lower n)
      (role_of (department_roles n) speaker) m turns

-- The selector that `build_synthesis_selector` returns.
unfoldable pub synthesis_selector :
    (String → String) → SynthesisNames → String → Option Message → Dict ℕ → Dict ℕ × String
synthesis_selector lower n speaker m turns =
    select synthesis_monitored (nonempty_text n.executor_name) (synthesis_route lower n)
      (role_of (synthesis_roles n) speaker) m turns
