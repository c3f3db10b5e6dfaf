-- ===== src/Memory/ReloadTests.antt =====
-- The theorem on saving and loading a run's memory, with a JSON form of the typed artifacts that
-- loads what it dumps.
use multi_agent_intel_pipeli.Prelude.{ℕ, zero, suc, String, List, [], ◌∷◌, ◌≡◌, refl}
use multi_agent_intel_pipeli.Value.{
  Value, str, int, list, obj, pos, Fields, end, field, Items, nil, cons, get, find,
}
use multi_agent_intel_pipeli.Models.{
  Level, ClaimType, GapSeverity, AnswerStatus, ResolutionChoice, ActionType, EvidencePacket,
  GapCandidate, AnswerMatrixUpdate, ResolutionDecision, ResolutionPlan, MeetingAction,
}
use multi_agent_intel_pipeli.Python.{Python}
use multi_agent_intel_pipeli.Memory.{ShortTermMemoryStore, Keys, empty_store}
use multi_agent_intel_pipeli.Memory.Snapshot.{
  Codecs, AllReload, snapshot, from_snapshot, dedup_values, unique_sources,
}
use multi_agent_intel_pipeli.Memory.Reload.{from_snapshot-snapshot}

abbrev at : String → Value → Value
unfolding get find
at k (obj fs) = get k fs
at k v = v

abbrev text : Value → String
text (str s) = s
text v = ""

abbrev dict : Value → Fields
dict (obj fs) = fs
dict v = end

abbrev texts : List String → Items
texts [] = nil
texts (s ∷ ss) = cons (str s) (texts ss)

abbrev strings_of : Items → List String
strings_of nil = []
strings_of (cons v vs) = text v ∷ strings_of vs

abbrev strings : Value → List String
strings (list xs) = strings_of xs
strings v = []

strings-texts : (ss : List String) → strings_of (texts ss) ≡ ss
strings-texts [] = refl
strings-texts (s ∷ ss) = rw (strings-texts ss) refl

abbrev number : Value → ℕ
number (int (pos n)) = n
number v = 0

abbrev num : ℕ → Value
num n = int (pos n)

abbrev level : Level → ℕ
level Level.high = 0
level Level.medium = 1
level Level.low = 2

abbrev to_level : ℕ → Level
to_level zero = Level.high
to_level (suc zero) = Level.medium
to_level (suc (suc n)) = Level.low

level-to : (l : Level) → to_level (level l) ≡ l
level-to Level.high = refl
level-to Level.medium = refl
level-to Level.low = refl

abbrev claim : ClaimType → ℕ
claim ClaimType.fact = 0
claim ClaimType.inference = 1
claim ClaimType.hypothesis = 2
claim ClaimType.gap = 3

abbrev to_claim : ℕ → ClaimType
to_claim zero = ClaimType.fact
to_claim (suc zero) = ClaimType.inference
to_claim (suc (suc zero)) = ClaimType.hypothesis
to_claim (suc (suc (suc n))) = ClaimType.gap

claim-to : (c : ClaimType) → to_claim (claim c) ≡ c
claim-to ClaimType.fact = refl
claim-to ClaimType.inference = refl
claim-to ClaimType.hypothesis = refl
claim-to ClaimType.gap = refl

abbrev severity : GapSeverity → ℕ
severity GapSeverity.critical = 0
severity GapSeverity.high = 1
severity GapSeverity.medium = 2
severity GapSeverity.low = 3

abbrev to_severity : ℕ → GapSeverity
to_severity zero = GapSeverity.critical
to_severity (suc zero) = GapSeverity.high
to_severity (suc (suc zero)) = GapSeverity.medium
to_severity (suc (suc (suc n))) = GapSeverity.low

severity-to : (s : GapSeverity) → to_severity (severity s) ≡ s
severity-to GapSeverity.critical = refl
severity-to GapSeverity.high = refl
severity-to GapSeverity.medium = refl
severity-to GapSeverity.low = refl

abbrev answer : AnswerStatus → ℕ
answer AnswerStatus.answered = 0
answer AnswerStatus.partially_answered = 1
answer AnswerStatus.blocked = 2
answer AnswerStatus.pending = 3

abbrev to_answer : ℕ → AnswerStatus
to_answer zero = AnswerStatus.answered
to_answer (suc zero) = AnswerStatus.partially_answered
to_answer (suc (suc zero)) = AnswerStatus.blocked
to_answer (suc (suc (suc n))) = AnswerStatus.pending

answer-to : (x : AnswerStatus) → to_answer (answer x) ≡ x
answer-to AnswerStatus.answered = refl
answer-to AnswerStatus.partially_answered = refl
answer-to AnswerStatus.blocked = refl
answer-to AnswerStatus.pending = refl

abbrev choice : ResolutionChoice → ℕ
choice ResolutionChoice.resolve_now = 0
choice ResolutionChoice.defer = 1
choice ResolutionChoice.request_user_selection = 2
choice ResolutionChoice.accept_gap = 3

abbrev to_choice : ℕ → ResolutionChoice
to_choice zero = ResolutionChoice.resolve_now
to_choice (suc zero) = ResolutionChoice.defer
to_choice (suc (suc zero)) = ResolutionChoice.request_user_selection
to_choice (suc (suc (suc n))) = ResolutionChoice.accept_gap

choice-to : (x : ResolutionChoice) → to_choice (choice x) ≡ x
choice-to ResolutionChoice.resolve_now = refl
choice-to ResolutionChoice.defer = refl
choice-to ResolutionChoice.request_user_selection = refl
choice-to ResolutionChoice.accept_gap = refl

abbrev action : ActionType → ℕ
action ActionType.prepare_meeting = 0
action ActionType.collect_missing_evidence = 1
action ActionType.ask_user_selection = 2
action ActionType.hold = 3

abbrev to_action : ℕ → ActionType
to_action zero = ActionType.prepare_meeting
to_action (suc zero) = ActionType.collect_missing_evidence
to_action (suc (suc zero)) = ActionType.ask_user_selection
to_action (suc (suc (suc n))) = ActionType.hold

action-to : (x : ActionType) → to_action (action x) ≡ x
action-to ActionType.prepare_meeting = refl
action-to ActionType.collect_missing_evidence = refl
action-to ActionType.ask_user_selection = refl
action-to ActionType.hold = refl

abbrev dump_gap : GapCandidate → Value
dump_gap x = obj (
    field "gap_id" (str x.gap_id) (
      field "question" (str x.question) (
        field "severity" (num (severity x.severity)) (
          field "owner" (str x.owner) (
            field "resolution_hint" (str x.resolution_hint) (
              field "evidence_packet_ids" (list (texts x.evidence_packet_ids))
                (field "legacy_origin" (str x.legacy_origin) end)))))))

abbrev load_gap : Value → GapCandidate
load_gap v = record {
  gap_id = text (at "gap_id" v);
  question = text (at "question" v);
  severity = to_severity (number (at "severity" v));
  owner = text (at "owner" v);
  resolution_hint = text (at "resolution_hint" v);
  evidence_packet_ids = strings (at "evidence_packet_ids" v);
  legacy_origin = text (at "legacy_origin" v);
}

gap-reloads : (x : GapCandidate) → load_gap (dump_gap x) ≡ x
unfolding get find
gap-reloads x = simp (severity-to, strings-texts)

abbrev dump_packet : EvidencePacket → Value
dump_packet x = obj (
    field "packet_id" (str x.packet_id) (
      field "claim" (str x.claim) (
        field "confidence" (num (level x.confidence)) (
          field "claim_type" (num (claim x.claim_type)) (
            field "source_quality" (num (level x.source_quality)) (
              field "source_urls" (list (texts x.source_urls)) (
                field "source_notes" (list (texts x.source_notes))
                  (field "metadata" (obj x.metadata) end))))))))

abbrev load_packet : Value → EvidencePacket
load_packet v = record {
  packet_id = text (at "packet_id" v);
  claim = text (at "claim" v);
  confidence = to_level (number (at "confidence" v));
  claim_type = to_claim (number (at "claim_type" v));
  source_quality = to_level (number (at "source_quality" v));
  source_urls = strings (at "source_urls" v);
  source_notes = strings (at "source_notes" v);
  metadata = dict (at "metadata" v);
}

packet-reloads : (x : EvidencePacket) → load_packet (dump_packet x) ≡ x
unfolding get find
packet-reloads x = simp (level-to, claim-to, level-to, strings-texts)

abbrev dump_update : AnswerMatrixUpdate → Value
dump_update x = obj (
    field "field_key" (str x.field_key) (
      field "answer" (str x.answer) (
        field "status" (num (answer x.status)) (
          field "evidence_packet_ids" (list (texts x.evidence_packet_ids))
            (field "notes" (str x.notes) end)))))

abbrev load_update : Value → AnswerMatrixUpdate
load_update v = record {
  field_key = text (at "field_key" v);
  answer = text (at "answer" v);
  status = to_answer (number (at "status" v));
  evidence_packet_ids = strings (at "evidence_packet_ids" v);
  notes = text (at "notes" v);
}

update-reloads : (x : AnswerMatrixUpdate) → load_update (dump_update x) ≡ x
unfolding get find
update-reloads x = simp (answer-to, strings-texts)

abbrev dump_decision : ResolutionDecision → Value
dump_decision x = obj (
    field "decision" (num (choice x.decision)) (
      field "rationale" (str x.rationale)
        (field "selected_gap_ids" (list (texts x.selected_gap_ids)) end)))

abbrev load_decision : Value → ResolutionDecision
load_decision v = record {
  decision = to_choice (number (at "decision" v));
  rationale = text (at "rationale" v);
  selected_gap_ids = strings (at "selected_gap_ids" v);
}

decision-reloads : (x : ResolutionDecision) → load_decision (dump_decision x) ≡ x
unfolding get find
decision-reloads x = simp (choice-to, strings-texts)

abbrev dump_plan : ResolutionPlan → Value
dump_plan x = obj (
    field "plan_id" (str x.plan_id) (
      field "decision" (dump_decision x.decision)
        (field "steps" (list (texts x.steps)) (field "owner" (str x.owner) end))))

abbrev load_plan : Value → ResolutionPlan
load_plan v = record {
  plan_id = text (at "plan_id" v);
  decision = load_decision (at "decision" v);
  steps = strings (at "steps" v);
  owner = text (at "owner" v);
}

plan-reloads : (x : ResolutionPlan) → load_plan (dump_plan x) ≡ x
unfolding get find
plan-reloads x = simp (choice-to, strings-texts)

abbrev dump_meeting : MeetingAction → Value
dump_meeting x = obj (
    field "action_type" (num (action x.action_type)) (
      field "title" (str x.title)
        (field "description" (str x.description) (field "owner" (str x.owner) end))))

abbrev load_meeting : Value → MeetingAction
load_meeting v = record {
  action_type = to_action (number (at "action_type" v));
  title = text (at "title" v);
  description = text (at "description" v);
  owner = text (at "owner" v);
}

meeting-reloads : (x : MeetingAction) → load_meeting (dump_meeting x) ≡ x
unfolding get find
meeting-reloads x = simp (action-to)

abbrev codecs : Codecs
codecs = record {
  gap = record { dump = dump_gap; load = load_gap };
  packet = record { dump = dump_packet; load = load_packet };
  matrix_update = record { dump = dump_update; load = load_update };
  decision = record { dump = dump_decision; load = load_decision };
  plan = record { dump = dump_plan; load = load_plan };
  action = record { dump = dump_meeting; load = load_meeting };
}

codecs-reload : AllReload codecs
codecs-reload = record {
  gap = gap-reloads;
  packet = packet-reloads;
  matrix_update = update-reloads;
  decision = decision-reloads;
  plan = plan-reloads;
  action = meeting-reloads;
}

abbrev python : Python
python = record { lower = λ s. s; text = text; format = λ template fields. template }

abbrev keys : Keys
keys = record { item = text; url = text }

-- A memory in which a fact stands twice.
abbrev repeated : ShortTermMemoryStore
repeated = record empty_store { facts = str "Acme" ∷ str "Acme" ∷ str "Bolt" ∷ [] }

from_snapshot-snapshot_example :
    let again = from_snapshot python keys codecs (snapshot python keys codecs repeated) in
    (again ≡ record repeated { facts = str "Acme" ∷ str "Bolt" ∷ [] })
    × (snapshot python keys codecs again ≡ snapshot python keys codecs repeated)
unfolding dedup_values unique_sources
from_snapshot-snapshot_example = from_snapshot-snapshot python keys codecs codecs-reload repeated tt
