-- ===== src/Supervisor/Submissions.antt =====
-- src/agents/supervisor.py: `accept_department_package`, the supervisor's decision on a package,
-- and what the gate makes of it.
use multi_agent_intel_pipeli.Prelude.{
  ℕ, ◌+◌, ◌∙◌, ap, String, Bool, true, false, not, ◌&&◌, ◌||◌, List, [], ◌∷◌, Option, some, ◌==◌,
  ltb, eqb, ◌≡◌, refl, arith, if◌then◌else◌, keep, all, length, nonempty, concat, decimal, str_mem,
  lookup, eq_iff, nonempty-length, ◌≤◌,
}
use multi_agent_intel_pipeli.Value.{
  Value, str, list, obj, Fields, end, field, find, has_items, has_fields, truthy,
}
use multi_agent_intel_pipeli.Supervisor.{Package, Acceptance, Run, apply_acceptance_gate}
use multi_agent_intel_pipeli.Supervisor.Gate.{
  visible, admits, shows_payload, known_decisions, apply_acceptance_gate-visible,
}

-- What the supervisor reads of a package: the section's payload, the statuses of the completed
-- tasks, whether the department's policy gate passed, and the severities of its blockers.
pub record Submission : Type 0 where
  pub section_payload : Fields
  pub task_statuses : List String
  pub policy_gate_passed : Bool
  pub blocker_severities : List String

is_filled : Value → Bool
is_filled (str s) = not (s == "n/v") && truthy (str s)
is_filled v = truthy v

-- A value of a nested dict that is neither an assessment nor sources.
has_inner : Fields → Bool
unfolding is_filled
has_inner end = false
has_inner (field k v fs) =
    (not (k == "assessment" || k == "sources") && is_filled v) || has_inner fs

has_companies : Option Value → Bool
has_companies (some (list xs)) = has_items xs
has_companies _ = false

is_substantive : Value → Bool
unfolding has_inner has_companies
is_substantive (str s) = not (s == "" || s == "n/v")
is_substantive (list xs) = has_items xs
is_substantive (obj fs) = has_companies (find "companies" fs) || has_inner fs
is_substantive _ = false

-- The payload holds something beyond its sources.
unfoldable pub substantive : Fields → Bool
unfolding is_substantive
substantive end = false
substantive (field k v fs) = (not (k == "sources") && is_substantive v) || substantive fs

unfoldable pub count_status : String → List String → ℕ
count_status status statuses = length (keep (λ s. s == status) statuses)

-- The policy gate failed, and every blocker is hard.
unfoldable pub all_hard : Submission → Bool
all_hard s =
    not s.policy_gate_passed
    && nonempty s.blocker_severities
    && all (λ severity. severity == "hard") s.blocker_severities

-- The payload has content.
abbrev pub has_content : Submission → Bool
has_content s = has_fields s.section_payload && substantive s.section_payload

-- There are tasks, and all of them were rejected.
abbrev pub all_tasks_rejected : Submission → Bool
all_tasks_rejected s =
    let total = length s.task_statuses in
    eqb (count_status "rejected" s.task_statuses) total && ltb 0 total

-- By whether the package is complete, whether it has hard blockers only, and whether it is usable.
choose_decision : Bool → Bool → Bool → String
choose_decision complete hard usable =
    if complete
    then "accepted"
    else if hard
    then "rejected"
    else if usable
    then "accepted_with_gaps"
    else "rejected"

unfoldable pub admission_decision : Submission → String
unfolding choose_decision
admission_decision s =
    choose_decision
      (has_content s
        && nonempty s.task_statuses
        && not (all_tasks_rejected s)
        && ltb 0 (count_status "accepted" s.task_statuses)
        && s.policy_gate_passed)
      (all_hard s) (has_content s && not (all_tasks_rejected s))

admission_reason : String → Submission → String
admission_reason department s =
    let total = length s.task_statuses in
    let accepted = count_status "accepted" s.task_statuses in
    let blockers = decimal (length s.blocker_severities) in
    let counts = concat ("(" ∷ decimal accepted ∷ "/" ∷ decimal total ∷ " tasks accepted)." ∷ []) in
    let all_rejected = eqb (count_status "rejected" s.task_statuses) total && ltb 0 total in
    if admission_decision s == "accepted"
    then concat (department ∷ " package accepted for synthesis " ∷ counts ∷ [])
    else if all_hard s
    then concat (
        department ∷ " package rejected — all " ∷ blockers
        ∷ " policy gate blocker(s) are hard severity." ∷ [])
    else if admission_decision s == "accepted_with_gaps"
    then (if s.policy_gate_passed
        then concat (department ∷ " package accepted with gaps " ∷ counts ∷ [])
        else concat (
            department ∷ " package accepted with policy gaps (" ∷ blockers
            ∷ " blocker(s) on department gate)." ∷ []))
    else if all_rejected
    then concat (department ∷ " package rejected — all tasks failed." ∷ [])
    else if has_fields s.section_payload && not (substantive s.section_payload)
    then concat (
        department ∷ " package rejected — payload structure present but lacks substantive content."
        ∷ [])
    else concat (department ∷ " package rejected — incomplete." ∷ [])

-- The decision and the reason of `accept_department_package`.
unfoldable pub accept_department_package : String → Submission → Acceptance
unfolding admission_reason
accept_department_package department s = record {
  decision = some (admission_decision s);
  reason = some (admission_reason department s);
}

accepted_not_rejected :
    (status : String) → (status == "accepted") ≡ true → (status == "rejected") ≡ false
accepted_not_rejected status h = rw ((eq_iff status "accepted").0 h) refl

counts-le :
    (statuses : List String)
    → count_status "accepted" statuses + count_status "rejected" statuses ≤ length statuses
unfolding count_status
counts-le [] = omega arith
counts-le (status ∷ statuses) = ground (arith, counts-le statuses, accepted_not_rejected status)

choose_decision-lem :
    (complete hard usable : Bool)
    → ((choose_decision complete hard usable == "accepted") ≡ complete)
      × ((choose_decision complete hard usable == "rejected")
          ≡ (not complete && (hard || not usable)))
      × (str_mem (choose_decision complete hard usable) known_decisions ≡ true)
unfolding choose_decision
choose_decision-lem true hard usable = (refl, refl, refl)
choose_decision-lem false true usable = (refl, refl, refl)
choose_decision-lem false false true = (refl, refl, refl)
choose_decision-lem false false false = (refl, refl, refl)

all_hard-failed : (s : Submission) → all_hard s ≡ true → s.policy_gate_passed ≡ false
unfolding all_hard
all_hard-failed s h = ground (arith, h)

-- A package is accepted exactly when it has content, at least one of its tasks is accepted and the
-- department's policy gate has passed. It is rejected exactly when it has no content, all its tasks
-- were rejected, or the policy gate failed on hard blockers only. Otherwise it is accepted with gaps.
pub admission_decision-lem :
    (s : Submission)
    → ((admission_decision s == "accepted") ≡ (
        has_content s && ltb 0 (count_status "accepted" s.task_statuses) && s.policy_gate_passed))
      × ((admission_decision s == "rejected")
          ≡ (not (has_content s) || all_tasks_rejected s || all_hard s))
      × (str_mem (admission_decision s) known_decisions ≡ true)
unfolding admission_decision
admission_decision-lem s =
    let counts = counts-le s.task_statuses in
    let (accepted, rejected, known) =
      choose_decision-lem
        (has_content s
          && nonempty s.task_statuses
          && not (all_tasks_rejected s)
          && ltb 0 (count_status "accepted" s.task_statuses)
          && s.policy_gate_passed)
        (all_hard s) (has_content s && not (all_tasks_rejected s)) in
    (
      accepted ∙ ground (arith, counts, nonempty-length s.task_statuses),
      rejected ∙ ground (arith, counts, all_hard-failed s),
      known,
    )

-- Whatever a department submits, the gate on the supervisor's acceptance shows the department
-- downstream exactly when it admits a payload, exactly when the section shows one, and exactly when
-- the acceptance is no rejection.
pub accept_department_package-visible :
    (department target_section : String) (s : Submission) (pkg : Package) (run : Run)
    → let after =
        apply_acceptance_gate
          (accept_department_package department s)
          department
          target_section
          s.section_payload
          pkg
          run in
      let seen = visible (lookup department after.department_packages) in
      (seen ≡ admits (lookup department after.department_packages))
      × (seen ≡ shows_payload (lookup target_section after.sections))
      × (seen ≡ not (not (has_content s) || all_tasks_rejected s || all_hard s))
unfolding accept_department_package
accept_department_package-visible department target_section s pkg run =
    let (accepted, rejected, known) = admission_decision-lem s in
    let (admitted, shown, seen) =
      apply_acceptance_gate-visible (accept_department_package department s) department
        target_section s.section_payload pkg run known in
    (admitted, shown, seen ∙ ap not rejected)
