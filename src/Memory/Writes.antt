-- ===== src/Memory/Writes.antt =====
-- src/memory/short_term_store.py: what the departments write to the memory.
use multi_agent_intel_pipeli.Prelude.{
  String, Bool, not, ◌&&◌, List, [], ◌∷◌, ◌++◌, Option, none, some, if◌then◌else◌, Dict, lookup,
  insert, get_or, strip, nonempty, nonempty_text,
}
use multi_agent_intel_pipeli.Value.{Value, ℤ, pos}
use multi_agent_intel_pipeli.Value.Int.{◌+ℤ◌}
use multi_agent_intel_pipeli.Models.{EvidencePacket}
use multi_agent_intel_pipeli.Python.{Python}
use multi_agent_intel_pipeli.Memory.{ShortTermMemoryStore, Workspace, has_entry}
use multi_agent_intel_pipeli.Memory.Snapshot.{legacy_gap_candidates}

-- A worker's report as the store reads it, with the defaults in place of entries that it lacks;
-- `raw` is the report itself.
pub record IngestedReport : Type 0 where
  pub raw : Value
  pub task_key : String
  pub section : String
  pub payload : Value
  pub facts : List Value
  pub market_signals : List Value
  pub buyer_hypotheses : List Value
  pub open_questions : List Value
  pub next_actions : List Value
  pub sources : List Value
  pub evidence_packages : List EvidencePacket
  pub usage : Dict ℤ

-- A critic's review that has entries, as the store reads it.
pub record StoredReview : Type 0 where
  pub raw : Value
  pub accepted_points : List Value
  pub rejected_points : List Value

abbrev empty_workspace : Workspace
empty_workspace = record {
  task_outputs = [];
  task_statuses = [];
  critic_approvals = [];
  critic_reviews = [];
  accepted_points = [];
  open_points = [];
  revision_history = [];
  worker_reports = [];
  facts = [];
  sources = [];
  open_questions = [];
}

-- `open_department_workspace`
unfoldable pub open_department_workspace : String → ShortTermMemoryStore → ShortTermMemoryStore
open_department_workspace department s = record s {
  department_workspaces = insert department empty_workspace s.department_workspaces;
}

-- `d.setdefault(key, value)`
abbrev set_missing {ℓ} : {V : Type ℓ} → String → V → Dict V → Dict V
set_missing key value d = if has_entry key d then d else insert key value d

-- `d.setdefault(key, []).append(value)`
abbrev append_at {ℓ} : {V : Type ℓ} → String → V → Dict (List V) → Dict (List V)
append_at key value d = insert key (get_or key [] d ++ value ∷ []) d

-- The usage of a report, under the keys that the totals have.
unfoldable pub add_known_usage : Dict ℤ → Dict ℤ → Dict ℤ
add_known_usage totals [] = totals
add_known_usage totals ((k, v) ∷ usage) =
    add_known_usage
      (if has_entry k totals then insert k (get_or k (pos 0) totals +ℤ v) totals else totals) usage

-- A write to the department's workspace, where one is named and open.
abbrev in_workspace : (Workspace → Workspace) → Option String → Dict Workspace → Dict Workspace
in_workspace write none d = d
in_workspace write (some department) d =
    if nonempty_text department
    then elim (lookup department d) [ none ↦ d | some ws ↦ insert department (write ws) d ]
    else d

abbrev review_status : Bool → String
review_status approved = if approved then "accepted" else "pending"

-- The entries of a review in the memory or a workspace.
abbrev review_entries :
    String → Option StoredReview → (StoredReview → Value) → Dict Value → Dict Value
review_entries task_key none entry d = d
review_entries task_key (some r) entry d = insert task_key (entry r) d

abbrev review_lists :
    String
    → Option StoredReview
    → (StoredReview → List Value)
    → Dict (List Value)
    → Dict (List Value)
review_lists task_key none entry d = d
review_lists task_key (some r) entry d = insert task_key (entry r) d

abbrev review_history : String → Option StoredReview → Dict (List Value) → Dict (List Value)
review_history task_key none d = d
review_history task_key (some r) d = append_at task_key r.raw d

module _ (py : Python) where
  ingest_in_workspace : IngestedReport → Workspace → Workspace
  ingest_in_workspace report ws =
      let task_key = strip report.task_key in
      let named = nonempty_text task_key in
      record ws {
        task_outputs =
            if named then insert task_key report.payload ws.task_outputs else ws.task_outputs;
        task_statuses =
            if named then set_missing task_key "pending" ws.task_statuses else ws.task_statuses;
        worker_reports = ws.worker_reports ++ report.raw ∷ [];
        facts = ws.facts ++ report.facts;
        sources = ws.sources ++ report.sources;
        open_questions = ws.open_questions ++ report.open_questions;
      }

  -- `ingest_worker_report`
  unfoldable pub ingest_worker_report :
      IngestedReport → Option String → ShortTermMemoryStore → ShortTermMemoryStore
  unfolding ingest_in_workspace
  ingest_worker_report report department s =
      let task_key = strip report.task_key in
      let section = strip report.section in
      let named = nonempty_text task_key in
      record s {
        task_outputs =
            if named then insert task_key report.payload s.task_outputs else s.task_outputs;
        task_statuses =
            if named then set_missing task_key "pending" s.task_statuses else s.task_statuses;
        section_outputs =
            if nonempty_text section
            then insert section report.payload s.section_outputs
            else s.section_outputs;
        worker_reports = s.worker_reports ++ report.raw ∷ [];
        facts = s.facts ++ report.facts;
        market_signals = s.market_signals ++ report.market_signals;
        buyer_hypotheses = s.buyer_hypotheses ++ report.buyer_hypotheses;
        open_questions = s.open_questions ++ report.open_questions;
        gap_candidates = s.gap_candidates ++ legacy_gap_candidates py report.open_questions;
        next_actions = s.next_actions ++ report.next_actions;
        sources = s.sources ++ report.sources;
        evidence_packets = s.evidence_packets ++ report.evidence_packages;
        usage_totals = add_known_usage s.usage_totals report.usage;
        department_workspaces =
            in_workspace (ingest_in_workspace report) department s.department_workspaces;
      }

  review_in_workspace : String → Bool → Option StoredReview → Workspace → Workspace
  review_in_workspace task_key approved review ws = record ws {
    critic_approvals = insert task_key approved ws.critic_approvals;
    task_statuses = insert task_key (review_status approved) ws.task_statuses;
    critic_reviews = review_entries task_key review (λ r. r.raw) ws.critic_reviews;
    accepted_points = review_lists task_key review (λ r. r.accepted_points) ws.accepted_points;
    open_points = review_lists task_key review (λ r. r.rejected_points) ws.open_points;
    revision_history = review_history task_key review ws.revision_history;
  }

  -- `mark_critic_review`
  unfoldable pub mark_critic_review :
      String
      → Bool
      → (issues : List Value) → Option StoredReview
      → Option String
      → ShortTermMemoryStore
      → ShortTermMemoryStore
  unfolding review_in_workspace
  mark_critic_review task_key approved issues review department s =
      let raised = nonempty issues && not approved in
      record s {
        critic_approvals = insert task_key approved s.critic_approvals;
        task_statuses = insert task_key (review_status approved) s.task_statuses;
        critic_reviews = review_entries task_key review (λ r. r.raw) s.critic_reviews;
        accepted_points = review_lists task_key review (λ r. r.accepted_points) s.accepted_points;
        open_points = review_lists task_key review (λ r. r.rejected_points) s.open_points;
        revision_history = review_history task_key review s.revision_history;
        open_questions = if raised then s.open_questions ++ issues else s.open_questions;
        gap_candidates =
            if raised
            then s.gap_candidates ++ legacy_gap_candidates py issues
            else s.gap_candidates;
        department_workspaces =
            in_workspace (review_in_workspace task_key approved review) department
              s.department_workspaces;
      }

-- `store_department_package`
unfoldable pub store_department_package :
    String → Value → ShortTermMemoryStore → ShortTermMemoryStore
store_department_package department pkg s = record s {
  department_packages = insert department pkg s.department_packages;
}

-- `append_department_conversation`
unfoldable pub append_department_conversation :
    String → List Value → ShortTermMemoryStore → ShortTermMemoryStore
append_department_conversation department conversation s = record s {
  department_conversations =
      insert department (get_or department [] s.department_conversations ++ conversation)
        s.department_conversations;
}

-- `record_department_run_state`
unfoldable pub record_department_run_state :
    String → Value → ShortTermMemoryStore → ShortTermMemoryStore
record_department_run_state department run_state s = record s {
  department_run_states = insert department run_state s.department_run_states;
}

-- `record_follow_up`
unfoldable pub record_follow_up : Value → ShortTermMemoryStore → ShortTermMemoryStore
record_follow_up answer s = record s { follow_up_sessions = s.follow_up_sessions ++ answer ∷ [] }
