-- ===== src/Backlog/Standard.antt =====
-- src/app/use_cases.py: the contracts of the standard tasks, for the critic and the answer matrix.
use multi_agent_intel_pipeli.Prelude.{
  String, Bool, ◌||◌, not, ◌&&◌, [], ◌∷◌, eqb, any, all, nonempty, is_some, or_default, lookup,
  str_mem,
}
use multi_agent_intel_pipeli.Critic.{Rule}
use multi_agent_intel_pipeli.Critic.Tally.{is_core}
use multi_agent_intel_pipeli.AnswerMatrix.{question_ids_for_task, build_initial_answer_matrix}
use multi_agent_intel_pipeli.Backlog.{TaskContract, standard_task_backlog, find_contract}

-- The check is one that `evaluate_rule` knows, and asks for something.
abbrev pub is_known : Rule → Bool
is_known rule =
    str_mem (or_default "" rule.check)
      ("non_placeholder" ∷ "min_items" ∷ "min_length" ∷ "nested_field_non_placeholder" ∷ [])
    && not (eqb (or_default 1 rule.value) 0)

-- The question is in the matrix that a run starts with.
abbrev pub in_matrix : String → Bool
in_matrix q = is_some (lookup q build_initial_answer_matrix)

-- A contract has a core rule if it has any, and all its checks are known.
abbrev is_sound : TaskContract → Bool
is_sound c =
    (any is_core c.validation_rules || not (nonempty c.validation_rules))
    && all is_known c.validation_rules

abbrev is_linked : TaskContract → Bool
is_linked c =
    all (λ dep. is_some (find_contract dep standard_task_backlog)) c.depends_on
    && nonempty (question_ids_for_task c.task_key)
    && all in_matrix (question_ids_for_task c.task_key)
