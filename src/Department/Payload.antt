-- ===== src/Department/Payload.antt =====
-- src/agents/lead.py: the guard of `run_research` against the loss of payload fields.
use multi_agent_intel_pipeli.Prelude.{
  ◌≡◌, refl, arith, eq_iff, Bool-cases, ◌∙◌, inl, inr, String, Bool, true, false, ◌||◌, ◌==◌,
  if◌then◌else◌, Option, none, some, is_some,
}
use multi_agent_intel_pipeli.Value.{Value, null, str, list, nil, Fields, end, field, find}

-- `v in (None, "", "n/v", [])`
unfoldable pub is_default : Value → Bool
is_default null = true
is_default (str s) = s == "" || s == "n/v"
is_default (list nil) = true
is_default _ = false

-- `d.setdefault(k, v)`
unfoldable pub setdefault : String → Value → Fields → Fields
setdefault k v end = field k v end
setdefault k v (field j w fs) =
    let rest = setdefault k v fs in if j == k then field j w fs else field j w rest

-- Puts back each key of the earlier payload that the worker lost, but for the sources and for the
-- default values.
unfoldable pub restore : Fields → Fields → Fields
restore end new_payload = new_payload
restore (field k v fs) new_payload =
    let kept = k == "sources" || is_some (find k new_payload) || is_default v in
    restore fs (if kept then new_payload else setdefault k v new_payload)

find-setdefault :
    (k j : String) (v : Value) (fs : Fields)
    → find j (setdefault k v fs)
      ≡ (if is_some (find j fs) then find j fs else if k == j then some v else none)
unfolding find setdefault
find-setdefault k j v end = ground arith
find-setdefault k j v (field i w fs) =
    ground (arith, eq_iff k j, eq_iff i k, eq_iff i j, find-setdefault k j v fs)

-- What the worker returned is kept.
find-restore_new :
    (old new : Fields) (k : String) (w : Value)
    → find k new ≡ some w
    → find k (restore old new) ≡ some w
unfolding restore
find-restore_new end new k w h = h
find-restore_new (field j v fs) new k w h =
    elim (Bool-cases (j == "sources" || is_some (find j new) || is_default v)) [
      | inl kept ↦ rw kept (find-restore_new fs new k w h)
      | inr lost ↦
          rw lost
            (find-restore_new fs (setdefault j v new) k w (rw (find-setdefault j k v new, h) refl))
    ]

find-restore_old :
    (old : Fields) (k : String) (new : Fields) (v : Value)
    → find k new ≡ none
    → find k old ≡ some v
    → is_default v ≡ false
    → (k == "sources") ≡ false
    → find k (restore old new) ≡ some v
unfolding restore find
find-restore_old end k new v n o d s = absurd (ground arith)
find-restore_old (field j x fs) k new v n o d s = elim (Bool-cases (j == k)) [
  | inl same ↦
      let key : j ≡ k = (eq_iff j k).0 same in
      let value : x ≡ v = ground arith in
      let lost : (j == "sources" || is_some (find j new) || is_default x) ≡ false =
        rw (key, value, s, n, d) refl in
      rw lost (
        find-restore_new fs (setdefault j x new) k v
          (rw (find-setdefault j k x new, n, same, value) refl))
  | inr other ↦
      find-restore_old fs k _ v (ground (arith, find-setdefault j k x new)) (ground arith) d s
]

find-restore-none :
    (old : Fields) (k : String) (new : Fields)
    → find k old ≡ none
    → find k (restore old new) ≡ find k new
unfolding restore find
find-restore-none end k new o = refl
find-restore-none (field j x fs) k new o =
    elim (Bool-cases (j == "sources" || is_some (find j new) || is_default x)) [
      | inl kept ↦ rw kept (find-restore-none fs k new (ground arith))
      | inr lost ↦ rw lost (
          find-restore-none fs k (setdefault j x new) (ground arith)
          ∙ ground (arith, find-setdefault j k x new))
    ]

-- No key stands twice, as in any Python dict.
abbrev pub IsDict : Fields → Type 0
IsDict end = Unit
IsDict (field k v fs) = (find k fs ≡ none) × IsDict fs

-- Sources that were lost stay lost.
find-restore_sources : (old new : Fields) → find "sources" (restore old new) ≡ find "sources" new
unfolding restore
find-restore_sources end new = refl
find-restore_sources (field j x fs) new =
    elim (Bool-cases (j == "sources" || is_some (find j new) || is_default x)) [
      | inl kept ↦ rw kept (find-restore_sources fs new)
      | inr lost ↦ rw lost (
          find-restore_sources fs (setdefault j x new)
          ∙ ground (arith, find-setdefault j "sources" x new))
    ]

-- A default value that was lost stays lost.
find-restore_default :
    (old : Fields) (k : String) (new : Fields) (v : Value)
    → IsDict old
    → find k old ≡ some v
    → is_default v ≡ true
    → find k (restore old new) ≡ find k new
unfolding restore find
find-restore_default end k new v h o d = absurd (ground arith)
find-restore_default (field j x fs) k new v (fresh, h) o d = elim (Bool-cases (j == k)) [
  | inl same ↦
      let key : j ≡ k = (eq_iff j k).0 same in
      let value : x ≡ v = ground arith in
      let kept : (j == "sources" || is_some (find j new) || is_default x) ≡ true =
        rw (value, d) (ground arith) in
      rw kept (find-restore-none fs k new (rw (← key) fresh))
  | inr other ↦ elim (Bool-cases (j == "sources" || is_some (find j new) || is_default x)) [
    | inl kept ↦ rw kept (find-restore_default fs k new v h (ground arith) d)
    | inr lost ↦ rw lost (
        find-restore_default fs k (setdefault j x new) v h (ground arith) d
        ∙ ground (arith, find-setdefault j k x new))
  ]
]

-- What stands under a key after the merge, by what the new and the old payload have there.
abbrev pub merged_value : String → Option Value → Option Value → Option Value
merged_value k (some w) old = some w
merged_value k none none = none
merged_value k none (some v) = if k == "sources" || is_default v then none else some v

restored :
    (old new : Fields) (k : String) (n o : Option Value)
    → IsDict old
    → find k new ≡ n
    → find k old ≡ o
    → find k (restore old new) ≡ merged_value k n o
restored old new k (some w) o h e f = find-restore_new old new k w e
restored old new k none none h e f = find-restore-none old k new f ∙ e
restored old new k none (some v) h e f = elim (Bool-cases (k == "sources")) [
  | inl s ↦
      let key : k ≡ "sources" = (eq_iff k "sources").0 s in
      rw s (rw key (find-restore_sources old new) ∙ e)
  | inr s ↦ elim (Bool-cases (is_default v)) [
    | inl d ↦ rw (s, d) (find-restore_default old k new v h f d ∙ e)
    | inr d ↦ rw (s, d) (find-restore_old old k new v e f d s)
  ]
]

-- If no key stands twice in the earlier payload, the payload after a run of the worker has under each
-- key what the new payload has there. Where the new payload lacks the key, it has what the earlier
-- one had, but nothing if that was a default value or the key is `sources`, and nothing if the
-- earlier payload lacked the key too.
pub restore_lem :
    (old new : Fields) (k : String)
    → IsDict old
    → find k (restore old new) ≡ merged_value k (find k new) (find k old)
restore_lem old new k h = restored old new k (find k new) (find k old) h refl refl
