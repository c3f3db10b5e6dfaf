-- ===== src/Critic/Counts.antt =====
-- What the loop over the rules computes, told by comprehensions over the rules.
use mathlib.Core.List.{append_assoc, append-nil}
use multi_agent_intel_pipeli.Prelude.{
  ◌+◌, sym, inl, inr, Option-cases, ◌≡◌, String, Bool, false, not, ◌&&◌, Option, some, List, [],
  ◌∷◌, ◌++◌, map, arith, keep, length,
}
use multi_agent_intel_pipeli.Value.{Value, Fields, iterate, truthy}
use multi_agent_intel_pipeli.Critic.Memory.{RoleMemory}
use multi_agent_intel_pipeli.Critic.Review.{Review, WorkerReport, review, assemble, sources_of}
use multi_agent_intel_pipeli.Critic.{Rule, evaluate_rule}
use multi_agent_intel_pipeli.Critic.Tally.{
  Tally, no_rules, rule_name, is_core, failure_msg, tally_rule, tally_rules,
}

abbrev pub is_supporting : Rule → Bool
is_supporting rule = not (is_core rule)

module _ (task_key : String) (payload : Fields) where
  abbrev pub passes : Rule → Bool
  passes rule = evaluate_rule rule payload

  abbrev pub fails : Rule → Bool
  fails rule = not (evaluate_rule rule payload)

  abbrev pub core_passes : Rule → Bool
  core_passes rule = is_core rule && evaluate_rule rule payload

  abbrev pub core_fails : Rule → Bool
  core_fails rule = is_core rule && not (evaluate_rule rule payload)

  abbrev pub supporting_passes : Rule → Bool
  supporting_passes rule = not (is_core rule) && evaluate_rule rule payload

  -- The tally that the rules add to `t`.
  pub record Adds (t u : Tally) (rules : List Rule) : Type 0 where
    pub accepted : u.accepted_points ≡ t.accepted_points ++ map rule_name (keep passes rules)
    pub rejected : u.rejected_points ≡ t.rejected_points ++ map rule_name (keep fails rules)
    pub core_total : u.core_total ≡ t.core_total + length (keep is_core rules)
    pub core_passed : u.core_passed ≡ t.core_passed + length (keep core_passes rules)
    pub missing : u.missing_points ≡ t.missing_points ++ map rule_name (keep fails rules)
    pub supporting_total :
        u.supporting_total ≡ t.supporting_total + length (keep is_supporting rules)
    pub supporting_passed :
        u.supporting_passed ≡ t.supporting_passed + length (keep supporting_passes rules)
    pub issues : u.issues ≡ t.issues ++ map (failure_msg task_key) (keep fails rules)
    pub failed :
        u.failed_rule_messages
        ≡ t.failed_rule_messages ++ map (failure_msg task_key) (keep core_fails rules)

  Adds-cons :
      (t u : Tally) (rule : Rule) (rules : List Rule)
      → Adds (tally_rule task_key payload t rule) u rules
      → Adds t u (rule ∷ rules)
  unfolding tally_rule
  Adds-cons t u rule rules ih = record {
    accepted = ground (
      arith,
      append_assoc t.accepted_points (rule_name rule ∷ []) (map rule_name (keep passes rules)),
    );
    rejected = ground (
      arith,
      append_assoc t.rejected_points (rule_name rule ∷ []) (map rule_name (keep fails rules)),
    );
    core_total = ground arith;
    core_passed = ground arith;
    missing = ground (
      arith,
      append_assoc t.missing_points (rule_name rule ∷ []) (map rule_name (keep fails rules)),
    );
    supporting_total = ground arith;
    supporting_passed = ground arith;
    issues = ground (
      arith,
      append_assoc t.issues (failure_msg task_key rule ∷ [])
          (map (failure_msg task_key) (keep fails rules)),
    );
    failed = ground (
      arith,
      append_assoc t.failed_rule_messages (failure_msg task_key rule ∷ [])
          (map (failure_msg task_key) (keep core_fails rules)),
    );
  }

  pub tally_rules-Adds :
      (t : Tally) (rules : List Rule) → Adds t (tally_rules task_key payload t rules) rules
  unfolding tally_rules
  tally_rules-Adds t [] = record {
    accepted = sym (append-nil _);
    rejected = sym (append-nil _);
    core_total = omega arith;
    core_passed = omega arith;
    missing = sym (append-nil _);
    supporting_total = omega arith;
    supporting_passed = omega arith;
    issues = sym (append-nil _);
    failed = sym (append-nil _);
  }
  tally_rules-Adds t (rule ∷ rules) =
      Adds-cons t _ rule rules (tally_rules-Adds (tally_rule task_key payload t rule) rules)

  -- The core rules are those that pass and those that fail.
  pub core-split :
      (rules : List Rule)
      → length (keep core_passes rules) + length (keep core_fails rules)
        ≡ length (keep is_core rules)
  core-split [] = omega arith
  core-split (rule ∷ rules) = ground (arith, core-split rules)

module _ (task_key objective : String) (rules : List Rule) (payload : Fields)
    (report : Option WorkerReport) (role_memory : List RoleMemory) where
  -- A review that is returned is put together from the loop's variables.
  pub review-assemble :
      {r : Review}
      → review task_key objective rules payload report role_memory ≡ some r
      → (xs : List Value) × (iterate (sources_of payload) ≡ some xs)
        × (r
            ≡ assemble task_key objective rules payload report role_memory
                (tally_rules task_key payload no_rules rules)
                (truthy (sources_of payload))
                xs)
  unfolding review
  review-assemble h = elim (Option-cases (iterate (sources_of payload))) [
    | inl e ↦ absurd (ground arith)
    | inr (xs, e) ↦ (xs, e, ground arith)
  ]

  -- The points, messages and counts of a review are those of the rules: the accepted points are the
  -- names of the rules that pass and the rejected ones of those that fail, in the contract's order;
  -- the core and the supporting counts are those of the rules of each class and of the passing ones
  -- among them; the messages that become open questions are those of the core rules that fail.
  pub review-counts :
      (r : Review)
      → review task_key objective rules payload report role_memory ≡ some r
      → (r.accepted_points ≡ map rule_name (keep (passes task_key payload) rules))
        × (r.rejected_points ≡ map rule_name (keep (fails task_key payload) rules))
        × (r.core_total ≡ length (keep is_core rules))
        × (r.core_passed ≡ length (keep (core_passes task_key payload) rules))
        × (r.supporting_total ≡ length (keep is_supporting rules))
        × (r.supporting_passed ≡ length (keep (supporting_passes task_key payload) rules))
        × (r.failed_rule_messages
            ≡ map (failure_msg task_key) (keep (core_fails task_key payload) rules))
  unfolding assemble
  review-counts r h =
      let (xs, e, a) = review-assemble h in
      let adds = tally_rules-Adds task_key payload no_rules rules in
      (
        ground (arith, adds.accepted),
        ground (arith, adds.rejected),
        ground (arith, adds.core_total),
        ground (arith, adds.core_passed),
        ground (arith, adds.supporting_total),
        ground (arith, adds.supporting_passed),
        ground (arith, adds.failed),
      )

  -- A report that tells of no search never leads to an issue of method.
  pub review-method_issue :
      (r : Review) (w : WorkerReport)
      → review task_key objective rules payload report role_memory ≡ some r
      → report ≡ some w
      → w.search_calls ≡ 0
      → r.method_issue ≡ false
  unfolding assemble
  review-method_issue r w h e z = let (xs, _, a) = review-assemble h in ground (arith, a)
