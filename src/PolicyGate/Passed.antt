-- ===== src/PolicyGate/Passed.antt =====
-- When the gate passes, said without blockers.
use multi_agent_intel_pipeli.Prelude.{
  ℕ, String, Bool, true, not, ◌&&◌, ◌||◌, List, [], ◌∷◌, ◌++◌, ◌≡◌, refl, sym, ◌∙◌, arith, leb, ltb,
  get_or, all, length, keep, nonempty, nonempty-length, any-length, all-not-any,
}
use multi_agent_intel_pipeli.Python.{Python, flag_or}
use multi_agent_intel_pipeli.PolicyGate.{
  DepartmentPolicy, PackageView, is_present, field_value, is_source, is_primary_source,
  missing_blockers, check_evidence, check_accepted, count_accepted, count_completed,
  evaluate_department_policy_gate,
}

nonempty-append {ℓ} :
    {A : Type ℓ} (xs ys : List A) → nonempty (xs ++ ys) ≡ (nonempty xs || nonempty ys)
nonempty-append [] ys = refl
nonempty-append (x ∷ xs) ys = refl

module _ (py : Python) (department : String) (policy : DepartmentPolicy) where
  -- A threshold of the policy is met.
  abbrev pub reaches : String → ℕ → Bool
  reaches key actual = leb (get_or key 0 policy.min_evidence_rules) actual

  -- What the policy asks of a package.
  abbrev pub fulfilled : PackageView → Bool
  fulfilled view =
      all (λ name. is_present py (field_value view.section_payload name)) policy.required_fields
      && reaches "min_sources" (length (keep is_source view.sources))
      && reaches "min_primary_sources" (length (keep (is_primary_source py) view.sources))
      && reaches "min_completed_tasks" (count_completed py department policy view.statuses)
      && (not (flag_or true "require_any_accepted_task" policy.gate_rules)
          || ltb 0 (count_accepted py department policy view.statuses))

  module _ (availability owner next_step : String) where
    nonempty-missing :
        (prefix template : String) (idx : ℕ) (names : List String)
        → nonempty (missing_blockers py availability owner next_step prefix template idx names)
          ≡ nonempty names
    unfolding missing_blockers
    nonempty-missing prefix template idx [] = refl
    nonempty-missing prefix template idx (name ∷ names) = refl

    nonempty-evidence :
        (key template_key : String) (actual : ℕ)
        → nonempty (
            check_evidence py department policy availability owner next_step key template_key
              actual)
          ≡ not (reaches key actual)
    unfolding check_evidence
    nonempty-evidence key template_key actual = ground arith

    nonempty-accepted :
        (accepted : ℕ)
        → nonempty (check_accepted py department policy availability owner next_step accepted)
          ≡ not (not (flag_or true "require_any_accepted_task" policy.gate_rules) || ltb 0 accepted)
    unfolding check_accepted
    nonempty-accepted accepted = ground arith

  nonempty-keep :
      (p : String → Bool) (xs : List String) → nonempty (keep (λ x. not (p x)) xs) ≡ not (all p xs)
  nonempty-keep p xs = nonempty-length _ ∙ sym (any-length (λ x. not (p x)) xs) ∙ all-not-any p xs

  not_ors :
      (a b c d e : Bool)
      → not (not a || (not b || (not c || (not d || not e)))) ≡ (a && b && c && d && e)
  not_ors a b c d e = ground arith

  -- The gate passes a package exactly when each required field of the policy is present, the sources,
  -- the primary sources and the completed tasks reach the policy's numbers, and a task is accepted,
  -- where the policy asks for one.
  pub evaluate_department_policy_gate-passed :
      (view : PackageView)
      → (evaluate_department_policy_gate py department policy view).passed ≡ fulfilled view
  unfolding evaluate_department_policy_gate
  evaluate_department_policy_gate-passed view = simp (
    nonempty-append, nonempty-missing, nonempty-evidence, nonempty-accepted, nonempty-keep, not_ors,
  )
