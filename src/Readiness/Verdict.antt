-- ===== src/Readiness/Verdict.antt =====
-- When the gate lets a run through, and what it then says.
use multi_agent_intel_pipeli.Prelude.{
  map, take, sym, ◌∙◌, ◌+◌, ℕ, String, Bool, true, false, not, ◌&&◌, ◌||◌, List, [], ◌∷◌, ◌++◌,
  none, some, ◌==◌, ◌≡◌, ◌↔◌, refl, ltb, any, any-append, nonempty, arith,
}
use multi_agent_intel_pipeli.Models.{ReadinessBlocker}
use multi_agent_intel_pipeli.Readiness.{
  check_selection, check_score, check_health, matrix_blocker, GateInput,
  discovery_ready_not_execution_ready, is_public_hard, is_internal_hard, check_gaps, check_core,
  core_open, answered_or_partial, own_checks, add_reasons, evaluate, gap_blockers,
}

check_gaps-public : (gaps : List String) → any is_public_hard (check_gaps gaps).1 ≡ nonempty gaps
unfolding check_gaps gap_blockers
check_gaps-public [] = refl
check_gaps-public (gap ∷ gaps) = refl

check_core-public : (qids : List String) → any is_public_hard (check_core qids).1 ≡ nonempty qids
unfolding check_core
check_core-public [] = refl
check_core-public (qid ∷ qids) = refl

-- The run has a public problem of its own.
abbrev pub own_problem : GateInput → Bool
own_problem i =
    let few = ltb (answered_or_partial i.answer_matrix) 4 in
    nonempty i.remaining_public_gaps
    || (i.pending_user_selection
        || (nonempty (core_open i.answer_matrix)
            || ((not i.readiness_usable && few) || (i.evidence_health == "low" && few))))

check_selection-public : (b : Bool) → any is_public_hard (check_selection b).1 ≡ b
check_selection-public true = refl
check_selection-public false = refl

check_score-public : (b : Bool) → any is_public_hard (check_score b).1 ≡ b
check_score-public true = refl
check_score-public false = refl

check_health-public : (b : Bool) → any is_public_hard (check_health b).1 ≡ b
check_health-public true = refl
check_health-public false = refl

own_checks-public : (i : GateInput) → any is_public_hard (own_checks i).1 ≡ own_problem i
unfolding own_checks
own_checks-public i =
    rw
      (
        any-append, check_gaps-public, any-append, check_selection-public, any-append,
        check_core-public, any-append, check_score-public, check_health-public,
      )
      refl

-- The checks' blockers are all public.
gap_blockers-internal :
    (idx : ℕ) (gaps : List String) → any is_internal_hard (gap_blockers idx gaps) ≡ false
unfolding gap_blockers
gap_blockers-internal idx [] = refl
gap_blockers-internal idx (gap ∷ gaps) = gap_blockers-internal (idx + 1) gaps

matrix_blockers-internal :
    (qids : List String) → any is_internal_hard (map matrix_blocker qids) ≡ false
matrix_blockers-internal [] = refl
matrix_blockers-internal (qid ∷ qids) = matrix_blockers-internal qids

check_gaps-internal : (gaps : List String) → any is_internal_hard (check_gaps gaps).1 ≡ false
unfolding check_gaps
check_gaps-internal [] = refl
check_gaps-internal (gap ∷ gaps) = gap_blockers-internal 1 (take 8 (gap ∷ gaps))

check_core-internal : (qids : List String) → any is_internal_hard (check_core qids).1 ≡ false
unfolding check_core
check_core-internal [] = refl
check_core-internal (qid ∷ qids) = matrix_blockers-internal (take 8 (qid ∷ qids))

check_selection-internal : (b : Bool) → any is_internal_hard (check_selection b).1 ≡ false
check_selection-internal true = refl
check_selection-internal false = refl

check_score-internal : (b : Bool) → any is_internal_hard (check_score b).1 ≡ false
check_score-internal true = refl
check_score-internal false = refl

check_health-internal : (b : Bool) → any is_internal_hard (check_health b).1 ≡ false
check_health-internal true = refl
check_health-internal false = refl

own_checks-internal : (i : GateInput) → any is_internal_hard (own_checks i).1 ≡ false
unfolding own_checks
own_checks-internal i =
    rw
      (
        any-append, check_gaps-internal, any-append, check_selection-internal, any-append,
        check_core-internal, any-append, check_score-internal, check_health-internal,
      )
      refl

nonempty-append : (xs ys : List String) → nonempty (xs ++ ys) ≡ (nonempty xs || nonempty ys)
nonempty-append [] ys = refl
nonempty-append (x ∷ xs) ys = refl

check_gaps-reasons : (gaps : List String) → nonempty (check_gaps gaps).0 ≡ nonempty gaps
unfolding check_gaps
check_gaps-reasons [] = refl
check_gaps-reasons (gap ∷ gaps) = refl

check_core-reasons : (qids : List String) → nonempty (check_core qids).0 ≡ nonempty qids
unfolding check_core
check_core-reasons [] = refl
check_core-reasons (qid ∷ qids) = refl

check_selection-reasons : (b : Bool) → nonempty (check_selection b).0 ≡ b
check_selection-reasons true = refl
check_selection-reasons false = refl

check_score-reasons : (b : Bool) → nonempty (check_score b).0 ≡ b
check_score-reasons true = refl
check_score-reasons false = refl

check_health-reasons : (b : Bool) → nonempty (check_health b).0 ≡ b
check_health-reasons true = refl
check_health-reasons false = refl

own_checks-reasons : (i : GateInput) → nonempty (own_checks i).0 ≡ own_problem i
unfolding own_checks
own_checks-reasons i =
    rw
      (
        nonempty-append, check_gaps-reasons, nonempty-append, check_selection-reasons,
        nonempty-append, check_core-reasons, nonempty-append, check_score-reasons,
        check_health-reasons,
      )
      refl

add_reasons-none :
    (bs : List ReadinessBlocker) (reasons : List String)
    → any is_internal_hard bs ≡ false
    → add_reasons bs reasons ≡ reasons
unfolding add_reasons
add_reasons-none [] reasons h = refl
add_reasons-none (b ∷ bs) reasons h = ground (arith, add_reasons-none bs reasons)

nonempty-false : (xs : List String) → nonempty xs ≡ false → xs ≡ []
nonempty-false [] h = refl
nonempty-false (x ∷ xs) h = absurd (ground arith)

-- A given blocker is hard, whoever must resolve it.
abbrev pub given_problem : GateInput → Bool
given_problem i = any is_public_hard i.blockers || any is_internal_hard i.blockers

abbrev pub package_met : GateInput → Bool
package_met i = elim i.minimum_package [ none ↦ true | some p ↦ p.met ]

-- A run is meeting-ready exactly when its research is usable and its minimum package is met (or
-- there is none), no public gap remains, no user selection is pending, no core question is open, the
-- evidence is not low with fewer than four questions answered, and no given blocker is hard.
pub evaluate-meeting_ready_iff :
    (i : GateInput)
    → (evaluate i).meeting_ready
      ≡ (i.readiness_usable && package_met i && not (own_problem i) && not (given_problem i))
unfolding evaluate
evaluate-meeting_ready_iff i =
    rw (any-append, own_checks-public, any-append, own_checks-internal) (ground arith)

-- A meeting-ready run has no blocked reason and no hard blocker, of the gate's own or a given one.
pub evaluate-no_reasons :
    (i : GateInput)
    → (evaluate i).meeting_ready ≡ true
    → ((evaluate i).blocked_reasons ≡ [])
      × (any is_public_hard (evaluate i).blockers ≡ false)
      × (any is_internal_hard (evaluate i).blockers ≡ false)
unfolding evaluate
evaluate-no_reasons i h =
    let ready = sym (evaluate-meeting_ready_iff i) ∙ h in
    let own : own_problem i ≡ false = ground (arith, ready) in
    let given : given_problem i ≡ false = ground (arith, ready) in
    (
      add_reasons-none i.blockers (own_checks i).0 (ground (arith, given))
          ∙ nonempty-false (own_checks i).0 (own_checks-reasons i ∙ own),
      rw (any-append, own_checks-public) (ground (arith, own, given)),
      rw (any-append, own_checks-internal) (ground (arith, given)),
    )

-- A run is discovery-ready exactly when the discovery criteria are met, a given blocker is a hard one
-- that the customer must resolve, no given blocker is public and hard, no public gap remains, no user
-- selection is pending, no core question is open, and, with fewer than four questions answered, the
-- research is usable and the evidence not low. It has the status of that name exactly then.
pub evaluate-discovery_ready :
    (i : GateInput)
    → let discovery =
        i.discovery_ready
        && not (own_problem i)
        && not (any is_public_hard i.blockers)
        && any is_internal_hard i.blockers in
      ((evaluate i).discovery_ready ≡ discovery)
      × (((evaluate i).run_status ≡ discovery_ready_not_execution_ready) ↔ (discovery ≡ true))
unfolding evaluate
evaluate-discovery_ready i =
    rw (any-append, own_checks-public, any-append, own_checks-internal)
      (ground arith, (λ h. ground arith, λ h. ground arith))
