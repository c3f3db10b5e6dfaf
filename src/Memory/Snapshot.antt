-- ===== src/Memory/Snapshot.antt =====
-- src/memory/short_term_store.py: `snapshot`, the dict that a run's memory is saved as, and
-- `from_snapshot`, which loads it.
use multi_agent_intel_pipeli.Prelude.{
  ℕ, ◌+◌, String, Bool, List, [], ◌∷◌, map, Option, none, some, ◌≡◌, if◌then◌else◌, Dict, str_mem,
  nonempty_text, strip, concat, decimal, or_default,
}
use multi_agent_intel_pipeli.Value.{Value, obj, ℤ, find, truthy}
use multi_agent_intel_pipeli.Models.{
  EvidencePacket, GapSeverity, GapCandidate, AnswerMatrixUpdate, ResolutionDecision, ResolutionPlan,
  MeetingAction,
}
use multi_agent_intel_pipeli.Python.{Python}
use multi_agent_intel_pipeli.Memory.{Workspace, ShortTermMemoryStore, Keys, fresh_assessment}

-- The dict of `snapshot`: `none` is a key that a loaded dict lacks. What pydantic dumps is a value.
pub record SavedRun : Type 0 where
  pub facts : Option (List Value)
  pub sources : Option (List Value)
  pub market_signals : Option (List Value)
  pub buyer_hypotheses : Option (List Value)
  pub open_questions : Option (List Value)
  pub gap_candidates : Option (List Value)
  pub evidence_packets : Option (List Value)
  pub next_actions : Option (List Value)
  pub rejected_claims : Option (List Value)
  pub task_outputs : Option (Dict Value)
  pub task_statuses : Option (Dict String)
  pub section_outputs : Option (Dict Value)
  pub critic_approvals : Option (Dict Bool)
  pub critic_reviews : Option (Dict Value)
  pub accepted_points : Option (Dict (List Value))
  pub open_points : Option (Dict (List Value))
  pub revision_history : Option (Dict (List Value))
  pub worker_reports : Option (List Value)
  pub department_packages : Option (Dict Value)
  pub department_conversations : Option (Dict (List Value))
  pub department_workspaces : Option (Dict Workspace)
  pub department_run_states : Option (Dict Value)
  pub follow_up_sessions : Option (List Value)
  pub answer_matrix_updates : Option (List Value)
  pub resolution_decisions : Option (List Value)
  pub resolution_plans : Option (List Value)
  pub meeting_readiness_assessment : Option Value
  pub meeting_actions : Option (List Value)
  pub final_briefing : Option Value
  pub usage_totals : Option (Dict ℤ)

-- `model_dump(mode="json")` and `model_validate` of one pydantic class.
pub record Codec (A : Type 0) : Type 0 where
  pub dump : A → Value
  pub load : Value → A

pub record Codecs : Type 0 where
  pub gap : Codec GapCandidate
  pub packet : Codec EvidencePacket
  pub matrix_update : Codec AnswerMatrixUpdate
  pub decision : Codec ResolutionDecision
  pub plan : Codec ResolutionPlan
  pub action : Codec MeetingAction

-- What pydantic promises of a class: loading a dump gives the value back.
abbrev pub Reloads : {A : Type 0} → Codec A → Type 0
Reloads {A} c = (a : A) → c.load (c.dump a) ≡ a

pub record AllReload (c : Codecs) : Type 0 where
  pub gap : Reloads c.gap
  pub packet : Reloads c.packet
  pub matrix_update : Reloads c.matrix_update
  pub decision : Reloads c.decision
  pub plan : Reloads c.plan
  pub action : Reloads c.action

module _ (key : Value → String) where
  -- `dedup_safe` on values, beside the keys that were seen.
  unfoldable pub dedup_from : List String → List Value → List Value
  dedup_from seen [] = []
  dedup_from seen (x ∷ xs) =
      let fresh = x ∷ dedup_from (key x ∷ seen) xs in
      let skip = dedup_from seen xs in if str_mem (key x) seen then skip else fresh

module _ (url : Value → Option String) where
  -- The loop over the sources: one for each `url`, and all that have none.
  unfoldable pub unique_from : List String → List Value → List Value
  unique_from seen [] = []
  unique_from seen (x ∷ xs) = elim (url x) [
    | none ↦ x ∷ unique_from seen xs
    | some u ↦
        let fresh = x ∷ unique_from (u ∷ seen) xs in
        let skip = unique_from seen xs in if str_mem u seen then skip else fresh
  ]

unfoldable pub dedup_values : (Value → String) → List Value → List Value
unfolding dedup_from
dedup_values key xs = dedup_from key [] xs

unfoldable pub unique_sources : (Value → Option String) → List Value → List Value
unfolding unique_from
unique_sources url xs = unique_from url [] xs

module _ (py : Python) where
  legacy_from : ℕ → List Value → List GapCandidate
  legacy_from idx [] = []
  legacy_from idx (question ∷ questions) =
      let rest = legacy_from (idx + 1) questions in
      let q = strip (py.text question) in
      if nonempty_text q
      then record {
        gap_id = concat ("legacy-gap-" ∷ decimal idx ∷ []);
        question = q;
        severity = GapSeverity.medium;
        owner = "unspecified";
        resolution_hint = "n/v";
        evidence_packet_ids = [];
        legacy_origin = "legacy_open_questions";
      }
        ∷ rest
      else rest

  -- `_legacy_open_questions_to_gap_candidates`
  unfoldable pub legacy_gap_candidates : List Value → List GapCandidate
  unfolding legacy_from
  legacy_gap_candidates questions = legacy_from 1 questions

-- A source's url where it has one: `_url` where it is true.
unfoldable pub source_url : Keys → Value → Option String
source_url keys (obj fs) = elim (find "url" fs) [
  | none ↦ none
  | some v ↦ if truthy v then some (keys.url v) else none
]
source_url keys _ = none

-- `data.get("final_briefing")`, where it is true.
unfoldable pub loaded_briefing : Option Value → Option Value
loaded_briefing none = none
loaded_briefing (some v) = if truthy v then some v else none

module _ (py : Python) (keys : Keys) (c : Codecs) where
  -- `snapshot`
  unfoldable pub snapshot : ShortTermMemoryStore → SavedRun
  unfolding source_url
  snapshot s = record {
    facts = some (dedup_values keys.item s.facts);
    sources = some (unique_sources (source_url keys) s.sources);
    market_signals = some (dedup_values keys.item s.market_signals);
    buyer_hypotheses = some (dedup_values keys.item s.buyer_hypotheses);
    open_questions = some (dedup_values keys.item s.open_questions);
    gap_candidates = some (map c.gap.dump s.gap_candidates);
    evidence_packets = some (map c.packet.dump s.evidence_packets);
    next_actions = some (dedup_values keys.item s.next_actions);
    rejected_claims = some (dedup_values keys.item s.rejected_claims);
    task_outputs = some s.task_outputs;
    task_statuses = some s.task_statuses;
    section_outputs = some s.section_outputs;
    critic_approvals = some s.critic_approvals;
    critic_reviews = some s.critic_reviews;
    accepted_points = some s.accepted_points;
    open_points = some s.open_points;
    revision_history = some s.revision_history;
    worker_reports = some s.worker_reports;
    department_packages = some s.department_packages;
    department_conversations = some s.department_conversations;
    department_workspaces = some s.department_workspaces;
    department_run_states = some s.department_run_states;
    follow_up_sessions = some s.follow_up_sessions;
    answer_matrix_updates = some (map c.matrix_update.dump s.answer_matrix_updates);
    resolution_decisions = some (map c.decision.dump s.resolution_decisions);
    resolution_plans = some (map c.plan.dump s.resolution_plans);
    meeting_readiness_assessment = some s.meeting_readiness_assessment;
    meeting_actions = some (map c.action.dump s.meeting_actions);
    final_briefing = s.final_briefing;
    usage_totals = some s.usage_totals;
  }

  gaps_or_legacy : Option (List Value) → List Value → List GapCandidate
  gaps_or_legacy none questions = legacy_gap_candidates py questions
  gaps_or_legacy (some gaps) questions = map c.gap.load gaps

  -- `from_snapshot`
  unfoldable pub from_snapshot : SavedRun → ShortTermMemoryStore
  unfolding gaps_or_legacy loaded_briefing
  from_snapshot saved = record {
    facts = or_default [] saved.facts;
    sources = or_default [] saved.sources;
    market_signals = or_default [] saved.market_signals;
    buyer_hypotheses = or_default [] saved.buyer_hypotheses;
    open_questions = or_default [] saved.open_questions;
    gap_candidates = gaps_or_legacy saved.gap_candidates (or_default [] saved.open_questions);
    evidence_packets = map c.packet.load (or_default [] saved.evidence_packets);
    next_actions = or_default [] saved.next_actions;
    rejected_claims = or_default [] saved.rejected_claims;
    task_outputs = or_default [] saved.task_outputs;
    task_statuses = or_default [] saved.task_statuses;
    section_outputs = or_default [] saved.section_outputs;
    critic_approvals = or_default [] saved.critic_approvals;
    critic_reviews = or_default [] saved.critic_reviews;
    accepted_points = or_default [] saved.accepted_points;
    open_points = or_default [] saved.open_points;
    revision_history = or_default [] saved.revision_history;
    worker_reports = or_default [] saved.worker_reports;
    department_packages = or_default [] saved.department_packages;
    department_conversations = or_default [] saved.department_conversations;
    department_workspaces = or_default [] saved.department_workspaces;
    department_run_states = or_default [] saved.department_run_states;
    follow_up_sessions = or_default [] saved.follow_up_sessions;
    answer_matrix_updates = map c.matrix_update.load (or_default [] saved.answer_matrix_updates);
    resolution_decisions = map c.decision.load (or_default [] saved.resolution_decisions);
    resolution_plans = map c.plan.load (or_default [] saved.resolution_plans);
    meeting_readiness_assessment = or_default fresh_assessment saved.meeting_readiness_assessment;
    meeting_actions = map c.action.load (or_default [] saved.meeting_actions);
    final_briefing = loaded_briefing saved.final_briefing;
    usage_totals = or_default [] saved.usage_totals;
  }
