-- ===== src/AnswerMatrix/Tests.antt =====
-- The answer matrix's theorems at the initial matrix.
use multi_agent_intel_pipeli.Prelude.{◌≡◌, refl, [], ◌∷◌, none, str_mem, if◌then◌else◌}
use multi_agent_intel_pipeli.Models.{answered, AnswerMatrixUpdate}
use multi_agent_intel_pipeli.TaskRouter.{Assignment}
use multi_agent_intel_pipeli.AnswerMatrix.{
  build_initial_answer_matrix, matrix_status_for_task_status, apply_updates, question_ids_for_task,
}
use multi_agent_intel_pipeli.AnswerMatrix.Writes.{
  build_initial_answer_matrix-IsTidy, status_of, IsTidy, update_answer_matrix_from_task-status,
  writes-IsTidy,
}

abbrev market_task : Assignment
market_task = record {
  task_key = "market_situation";
  assignee = "MarketDepartment";
  target_section = "industry_analysis";
  label = "Market";
  objective = "";
  model_name = "m";
  allowed_tools = [];
  depends_on = [];
  run_condition = none;
  output_schema_key = "";
  industry_hint = "n/v";
  question_ids = question_ids_for_task "market_situation";
}

abbrev peer_update : AnswerMatrixUpdate
peer_update = record {
  field_key = "q_peer_companies";
  answer = "Three peers.";
  status = answered;
  evidence_packet_ids = "p1" ∷ "p1" ∷ [];
  notes = "";
}

update_answer_matrix_from_task-status_example :
    status_of "q_market_situation"
      (update_answer_matrix_from_task-status market_task "accepted" build_initial_answer_matrix
        refl).0
    ≡ (if str_mem "q_market_situation" market_task.question_ids
        then matrix_status_for_task_status "accepted"
        else status_of "q_market_situation" build_initial_answer_matrix)
update_answer_matrix_from_task-status_example =
    (update_answer_matrix_from_task-status market_task "accepted" build_initial_answer_matrix
        refl).2
      "q_market_situation"

writes-IsTidy_example : IsTidy (apply_updates (peer_update ∷ []) build_initial_answer_matrix)
writes-IsTidy_example =
    (writes-IsTidy market_task "accepted" (peer_update ∷ []) build_initial_answer_matrix refl
      build_initial_answer_matrix-IsTidy).0
