-- ===== src/Supervisor/Gate.antt =====
-- What the acceptance gate shows and admits.
use multi_agent_intel_pipeli.Prelude.{
  String, Bool, true, false, not, List, [], ◌∷◌, Option, none, some, ◌==◌, ◌≡◌, refl, lookup,
  is_some, or_default, lookup-insert, eq_refl, arith, str_mem, eq_iff, Bool-cases, inl, inr,
}
use multi_agent_intel_pipeli.Value.{Fields}
use multi_agent_intel_pipeli.Supervisor.{
  Package, Acceptance, Envelope, Section, payload, blocked_artifact, Run, admit,
  apply_acceptance_gate,
}

-- Whether the envelope of a department is visible downstream, whether it admits a payload, and
-- whether the section shows a payload.
abbrev pub visible : Option Envelope → Bool
visible none = false
visible (some pkg) = pkg.downstream_visible

abbrev pub admits : Option Envelope → Bool
admits none = false
admits (some pkg) = is_some pkg.admitted_payload

abbrev pub shows_payload : Option Section → Bool
shows_payload none = false
shows_payload (some (payload fields)) = true
shows_payload (some (blocked_artifact reason open_questions)) = false

abbrev pub known_decisions : List String
known_decisions = "accepted" ∷ "accepted_with_gaps" ∷ "rejected" ∷ []

admit-known :
    (decision reason : String) (section_payload : Fields) (pkg : Package)
    → str_mem decision known_decisions ≡ true
    → (not (decision == "rejected") ≡ is_some (admit decision reason section_payload pkg).1)
      × (not (decision == "rejected")
          ≡ shows_payload (some (admit decision reason section_payload pkg).0))
unfolding admit
admit-known decision reason section_payload pkg known =
    let a = eq_iff decision "accepted" in
    let g = eq_iff decision "accepted_with_gaps" in
    elim (Bool-cases (decision == "accepted")) [
      | inl e ↦ rw (a.0 e) (refl, refl)
      | inr e ↦ elim (Bool-cases (decision == "accepted_with_gaps")) [
        | inl f ↦ rw (g.0 f) (refl, refl)
        | inr f ↦ (ground (arith, known, e, f), ground (arith, known, e, f))
      ]
    ]

module _ (acceptance : Acceptance) (dept_name target_section : String) (section_payload : Fields)
    (pkg : Package) (run : Run)
    (known : str_mem (or_default "rejected" acceptance.decision) known_decisions ≡ true) where
  -- With a decision that the gate knows, or none, which counts as a rejection, a department is
  -- visible to the synthesis exactly when its envelope admits a payload, and exactly when its
  -- section shows a payload, and not when it was rejected.
  pub apply_acceptance_gate-visible :
      let after =
        apply_acceptance_gate acceptance dept_name target_section section_payload pkg run in
      let seen = visible (lookup dept_name after.department_packages) in
      (seen ≡ admits (lookup dept_name after.department_packages))
      × (seen ≡ shows_payload (lookup target_section after.sections))
      × (seen ≡ not (or_default "rejected" acceptance.decision == "rejected"))
  unfolding apply_acceptance_gate
  apply_acceptance_gate-visible =
      let decision = or_default "rejected" acceptance.decision in
      let reason = or_default "" acceptance.reason in
      let (admitted, shown) = admit-known decision reason section_payload pkg known in
      rw (lookup-insert, eq_refl) (admitted, rw (lookup-insert, eq_refl) shown, refl)
