-- ===== src/Critic/Approval.antt =====
-- When the critic approves a payload.
use text.Mathlib.TextLemmas.{cons≢nil}
use multi_agent_intel_pipeli.Prelude.{
  ◌≡◌, ◌↔◌, refl, String, true, false, not, List, [], ◌∷◌, Option, some, arith, all, map, keep,
  nonempty, eq_iff,
}
use multi_agent_intel_pipeli.Value.{
  Value, str, list, obj, nil, cons, end, field, Fields, truthy, iterate,
}
use multi_agent_intel_pipeli.Critic.{Rule}
use multi_agent_intel_pipeli.Critic.Memory.{RoleMemory}
use multi_agent_intel_pipeli.Critic.Tally.{rule_name}
use multi_agent_intel_pipeli.Critic.Review.{Review, WorkerReport, review, assemble, sources_of}
use multi_agent_intel_pipeli.Critic.Counts.{passes, fails, review-assemble, review-counts}

-- What is false and can be iterated has no items.
iterate_falsy : (v : Value) {xs : List Value} → iterate v ≡ some xs → truthy v ≡ false → xs ≡ []
unfolding iterate truthy
iterate_falsy (str String.[]) h t = ground arith
iterate_falsy (str (String.◌∷◌ c s)) h t =
    absurd (cons≢nil ((eq_iff (String.◌∷◌ c s) "").0 (ground arith)))
iterate_falsy (list nil) h t = ground arith
iterate_falsy (list (cons v vs)) h t = ground arith
iterate_falsy (obj end) h t = ground arith
iterate_falsy (obj (field k v fs)) h t = ground arith
iterate_falsy _ h t = ground arith

nonempty-rejected :
    (task_key : String) (payload : Fields) (rules : List Rule)
    → nonempty (map rule_name (keep (fails task_key payload) rules))
      ≡ not (all (passes task_key payload) rules)
nonempty-rejected task_key payload [] = refl
nonempty-rejected task_key payload (rule ∷ rules) =
    ground (arith, nonempty-rejected task_key payload rules)

module _ (task_key objective : String) (rules : List Rule) (payload : Fields)
    (report : Option WorkerReport) (role_memory : List RoleMemory) where
  -- A payload whose contract has rules is approved exactly when every rule passes and the payload
  -- names a source; the worker's own report and the memory have no part in it.
  pub review-approved_iff :
      (r : Review)
      → review task_key objective rules payload report role_memory ≡ some r
      → nonempty rules ≡ true
      → ((r.approved ≡ true)
          ↔ ((all (passes task_key payload) rules ≡ true) × (truthy (sources_of payload) ≡ true)))
  unfolding assemble
  review-approved_iff r h some_rule =
      let (xs, e, a) = review-assemble task_key objective rules payload report role_memory h in
      let counts = review-counts task_key objective rules payload report role_memory r h in
      ground (
        arith,
        a,
        counts.1,
        nonempty-rejected task_key payload rules,
        iterate_falsy (sources_of payload) e,
      )
