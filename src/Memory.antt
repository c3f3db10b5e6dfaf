-- ===== src/Memory.antt =====
-- src/memory/short_term_store.py: the memory of a run, a department's working set of it, and the
-- merge of what a working set adds.
pub mod Merge
pub mod WorkingSet
pub mod Snapshot
pub mod Writes
pub mod Reviewed
pub mod Parallel
pub mod Reload
mod ReloadTests
mod Tests
use multi_agent_intel_pipeli.Prelude.{
  ℕ, zero, suc, String, Bool, true, false, not, ◌&&◌, List, [], ◌∷◌, ◌++◌, map, Option, none, some,
  ◌==◌, if◌then◌else◌, Dict, lookup, insert, get_or, is_some, keep, length, str_mem, or_default,
}
use multi_agent_intel_pipeli.Value.{Value, bool, int, str, list, obj, end, field, nil, ℤ, pos, find}
use multi_agent_intel_pipeli.Value.Int.{◌+ℤ◌, ◌-ℤ◌}
use multi_agent_intel_pipeli.Models.{
  EvidencePacket, GapCandidate, AnswerMatrixUpdate, ResolutionDecision, ResolutionPlan,
  MeetingAction,
}

-- An entry of `department_workspaces`.
pub record Workspace : Type 0 where
  pub task_outputs : Dict Value
  pub task_statuses : Dict String
  pub critic_approvals : Dict Bool
  pub critic_reviews : Dict Value
  pub accepted_points : Dict (List Value)
  pub open_points : Dict (List Value)
  pub revision_history : Dict (List Value)
  pub worker_reports : List Value
  pub facts : List Value
  pub sources : List Value
  pub open_questions : List Value

-- `ShortTermMemoryStore`. The assessment and the briefing, which it only carries, are the dicts that
-- they dump to.
pub record ShortTermMemoryStore : Type 0 where
  pub facts : List Value
  pub sources : List Value
  pub market_signals : List Value
  pub buyer_hypotheses : List Value
  pub open_questions : List Value
  pub gap_candidates : List GapCandidate
  pub next_actions : List Value
  pub rejected_claims : List Value
  pub task_outputs : Dict Value
  pub task_statuses : Dict String
  pub section_outputs : Dict Value
  pub critic_approvals : Dict Bool
  pub critic_reviews : Dict Value
  pub accepted_points : Dict (List Value)
  pub open_points : Dict (List Value)
  pub revision_history : Dict (List Value)
  pub worker_reports : List Value
  pub department_packages : Dict Value
  pub department_conversations : Dict (List Value)
  pub department_workspaces : Dict Workspace
  pub department_run_states : Dict Value
  pub follow_up_sessions : List Value
  pub answer_matrix_updates : List AnswerMatrixUpdate
  pub resolution_decisions : List ResolutionDecision
  pub resolution_plans : List ResolutionPlan
  pub meeting_readiness_assessment : Value
  pub meeting_actions : List MeetingAction
  pub final_briefing : Option Value
  pub evidence_packets : List EvidencePacket
  pub usage_totals : Dict ℤ

-- The keys of `usage_totals`, all at zero.
abbrev pub no_usage : Dict ℤ
no_usage =
    ("llm_calls", pos 0)
    ∷ ("prompt_tokens", pos 0)
    ∷ ("completion_tokens", pos 0)
    ∷ ("total_tokens", pos 0)
    ∷ ("search_calls", pos 0)
    ∷ ("page_fetches", pos 0)
    ∷ []

-- `MeetingReadinessAssessment()`
abbrev pub fresh_assessment : Value
fresh_assessment = obj (
    field "run_status" (str "running") (
      field "meeting_ready" (bool false) (
        field "discovery_ready" (bool false) (
          field "blocked_reasons" (list nil) (
            field "blockers" (list nil) (
              field "minimum_package"
                (obj (
                  field "required_verified_decision_makers" (int (pos 1)) (
                    field "verified_decision_makers" (int (pos 0)) (
                      field "required_hard_financial_inventory_signals" (int (pos 2)) (
                        field "hard_financial_inventory_signals" (int (pos 0))
                          (field "met" (bool false) end))))))
                (field "unresolved_gaps" (list nil) (field "confidence" (str "low") end))))))))

-- `ShortTermMemoryStore()`
abbrev pub empty_store : ShortTermMemoryStore
empty_store = record {
  facts = [];
  sources = [];
  market_signals = [];
  buyer_hypotheses = [];
  open_questions = [];
  gap_candidates = [];
  next_actions = [];
  rejected_claims = [];
  task_outputs = [];
  task_statuses = [];
  section_outputs = [];
  critic_approvals = [];
  critic_reviews = [];
  accepted_points = [];
  open_points = [];
  revision_history = [];
  worker_reports = [];
  department_packages = [];
  department_conversations = [];
  department_workspaces = [];
  department_run_states = [];
  follow_up_sessions = [];
  answer_matrix_updates = [];
  resolution_decisions = [];
  resolution_plans = [];
  meeting_readiness_assessment = fresh_assessment;
  meeting_actions = [];
  final_briefing = none;
  evidence_packets = [];
  usage_totals = no_usage;
}

-- `create_working_set`. The copies that it makes are the values themselves.
unfoldable pub create_working_set : ShortTermMemoryStore → ShortTermMemoryStore
create_working_set s = record empty_store {
  facts = s.facts;
  sources = s.sources;
  market_signals = s.market_signals;
  buyer_hypotheses = s.buyer_hypotheses;
  open_questions = s.open_questions;
  gap_candidates = s.gap_candidates;
  evidence_packets = s.evidence_packets;
  next_actions = s.next_actions;
  task_statuses = s.task_statuses;
  section_outputs = s.section_outputs;
}

-- `[x for x in xs if key(x) not in {key(y) for y in baseline}]`
abbrev pub new_items {ℓ} : {A : Type ℓ} → (A → String) → List A → List A → List A
new_items key xs baseline = keep (λ x. not (str_mem (key x) (map key baseline))) xs

abbrev pub has_entry {ℓ} : {V : Type ℓ} → String → Dict V → Bool
has_entry k m = is_some (lookup k m)

-- The entries of `xs` under keys that `baseline` lacks, in their order.
unfoldable pub new_entries {ℓ} : {V : Type ℓ} → Dict V → Dict V → Dict V
new_entries [] baseline = []
new_entries ((k, v) ∷ xs) baseline =
    let rest = new_entries xs baseline in if has_entry k baseline then rest else (k, v) ∷ rest

abbrev is_status : String → Option String → Bool
is_status v none = false
is_status v (some w) = v == w

-- The statuses that are new or other than in `baseline`.
unfoldable pub changed_statuses : Dict String → Dict String → Dict String
changed_statuses [] baseline = []
changed_statuses ((k, v) ∷ xs) baseline =
    let rest = changed_statuses xs baseline in
    if is_status v (lookup k baseline) then rest else (k, v) ∷ rest

-- `xs[n:]`
unfoldable pub drop {ℓ} : {A : Type ℓ} → ℕ → List A → List A
drop n [] = []
drop zero xs = xs
drop (suc n) (x ∷ xs) = drop n xs

-- `{k: self.get(k, 0) - baseline.get(k, 0) for k in self}`, written over the zeros of a new store.
unfoldable pub usage_delta : Dict ℤ → Dict ℤ → Dict ℤ → Dict ℤ
usage_delta [] baseline acc = acc
usage_delta ((k, v) ∷ xs) baseline acc =
    usage_delta xs baseline (insert k (v -ℤ get_or k (pos 0) baseline) acc)

abbrev is_dict : Value → Bool
is_dict (obj fs) = true
is_dict _ = false

-- `target.update(source)`
unfoldable pub update {ℓ} : {V : Type ℓ} → Dict V → Dict V → Dict V
update target [] = target
update target ((k, v) ∷ source) = update (insert k v target) source

-- The status that a merge leaves under a key: a pending one gives way to any other.
abbrev pub merged_status : Option String → String → String
merged_status none value = value
merged_status (some current) value =
    if value == "pending" && not (current == "pending") then current else value

-- The merge of `task_statuses`.
unfoldable pub merge_statuses : Dict String → Dict String → Dict String
merge_statuses target [] = target
merge_statuses target ((k, v) ∷ source) =
    merge_statuses (insert k (merged_status (lookup k target) v) target) source

-- `self.revision_history.setdefault(k, []).extend(v)` for each entry.
unfoldable pub extend_histories : Dict (List Value) → Dict (List Value) → Dict (List Value)
extend_histories target [] = target
extend_histories target ((k, v) ∷ source) =
    extend_histories (insert k (get_or k [] target ++ v) target) source

-- The additive merge of `usage_totals`.
unfoldable pub add_usage : Dict ℤ → Dict ℤ → Dict ℤ
add_usage target [] = target
add_usage target ((k, v) ∷ source) =
    add_usage (insert k (get_or k (pos 0) target +ℤ v) target) source

abbrev or_else_briefing : Option Value → Option Value → Option Value
or_else_briefing none current = current
or_else_briefing (some briefing) current = some briefing

-- `merge_from`
unfoldable pub merge_from : ShortTermMemoryStore → ShortTermMemoryStore → ShortTermMemoryStore
merge_from s other = record s {
  facts = s.facts ++ other.facts;
  sources = s.sources ++ other.sources;
  market_signals = s.market_signals ++ other.market_signals;
  buyer_hypotheses = s.buyer_hypotheses ++ other.buyer_hypotheses;
  open_questions = s.open_questions ++ other.open_questions;
  gap_candidates = s.gap_candidates ++ other.gap_candidates;
  evidence_packets = s.evidence_packets ++ other.evidence_packets;
  next_actions = s.next_actions ++ other.next_actions;
  rejected_claims = s.rejected_claims ++ other.rejected_claims;
  worker_reports = s.worker_reports ++ other.worker_reports;
  follow_up_sessions = s.follow_up_sessions ++ other.follow_up_sessions;
  answer_matrix_updates = s.answer_matrix_updates ++ other.answer_matrix_updates;
  resolution_decisions = s.resolution_decisions ++ other.resolution_decisions;
  resolution_plans = s.resolution_plans ++ other.resolution_plans;
  meeting_actions = s.meeting_actions ++ other.meeting_actions;
  final_briefing = or_else_briefing other.final_briefing s.final_briefing;
  meeting_readiness_assessment = other.meeting_readiness_assessment;
  task_statuses = merge_statuses s.task_statuses other.task_statuses;
  task_outputs = update s.task_outputs other.task_outputs;
  critic_approvals = update s.critic_approvals other.critic_approvals;
  critic_reviews = update s.critic_reviews other.critic_reviews;
  accepted_points = update s.accepted_points other.accepted_points;
  open_points = update s.open_points other.open_points;
  department_packages = update s.department_packages other.department_packages;
  department_run_states = update s.department_run_states other.department_run_states;
  department_conversations = update s.department_conversations other.department_conversations;
  department_workspaces = update s.department_workspaces other.department_workspaces;
  section_outputs = update s.section_outputs other.section_outputs;
  revision_history = extend_histories s.revision_history other.revision_history;
  usage_totals = add_usage s.usage_totals other.usage_totals;
}

-- The texts by which Python compares items: `_stable_item_key`, and the hash of a source's `url`.
pub record Keys : Type 0 where
  pub item : Value → String
  pub url : Value → String

module _ (keys : Keys) where
  -- `s.get("url", "")`
  unfoldable pub url_of : Value → String
  url_of (obj fs) = keys.url (or_default (str "") (find "url" fs))
  url_of _ = keys.url (str "")

  -- `delta_from`: what the working set has and its baseline has not.
  unfoldable pub delta_from : ShortTermMemoryStore → ShortTermMemoryStore → ShortTermMemoryStore
  unfolding usage_delta url_of
  delta_from s baseline = record empty_store {
    facts = new_items keys.item s.facts baseline.facts;
    sources = new_items url_of (keep is_dict s.sources) (keep is_dict baseline.sources);
    market_signals = new_items keys.item s.market_signals baseline.market_signals;
    buyer_hypotheses = new_items keys.item s.buyer_hypotheses baseline.buyer_hypotheses;
    open_questions = new_items keys.item s.open_questions baseline.open_questions;
    gap_candidates = new_items (λ g. g.gap_id) s.gap_candidates baseline.gap_candidates;
    evidence_packets = new_items (λ p. p.packet_id) s.evidence_packets baseline.evidence_packets;
    next_actions = new_items keys.item s.next_actions baseline.next_actions;
    rejected_claims = s.rejected_claims;
    worker_reports = drop (length baseline.worker_reports) s.worker_reports;
    task_outputs = new_entries s.task_outputs baseline.task_outputs;
    task_statuses = changed_statuses s.task_statuses baseline.task_statuses;
    section_outputs = new_entries s.section_outputs baseline.section_outputs;
    critic_approvals = new_entries s.critic_approvals baseline.critic_approvals;
    critic_reviews = new_entries s.critic_reviews baseline.critic_reviews;
    accepted_points = new_entries s.accepted_points baseline.accepted_points;
    open_points = new_entries s.open_points baseline.open_points;
    revision_history = new_entries s.revision_history baseline.revision_history;
    department_packages = s.department_packages;
    department_conversations = s.department_conversations;
    department_workspaces = s.department_workspaces;
    department_run_states = s.department_run_states;
    usage_totals = usage_delta s.usage_totals baseline.usage_totals no_usage;
  }
