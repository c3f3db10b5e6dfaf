-- ===== src/Department/Quality.antt =====
-- What the chain of tools decides about an artifact, and what is lost on the way.
use multi_agent_intel_pipeli.Prelude.{
  eq_refl, ◌+◌, ◌≡◌, ◌↔◌, refl, sym, ◌∙◌, String, [], some, Option-cases, inl, inr, arith, true,
  false, any, any-length, length, keep, ap, if◌then◌else◌,
}
use multi_agent_intel_pipeli.Contracts.{
  Outcome, accepted_with_gaps, closed_unresolved, high, medium, low,
}
use multi_agent_intel_pipeli.Contracts.Artifacts.{
  TaskArtifact, TaskReviewArtifact, artifact_view, from_critic_review,
}
use multi_agent_intel_pipeli.Contracts.RunState.{
  DepartmentRunState, latest_artifact, latest_review, record_review_artifact,
}
use multi_agent_intel_pipeli.Critic.Tally.{is_core}
use multi_agent_intel_pipeli.Critic.Review.{Review}
use multi_agent_intel_pipeli.Critic.Counts.{
  core_passes, core_fails, supporting_passes, core-split, review-counts, review-method_issue,
}
use multi_agent_intel_pipeli.Judge.{decide}
use multi_agent_intel_pipeli.Judge.Verdict.{decide-by_counts, decide-no_messages}
use multi_agent_intel_pipeli.TaskRouter.{Assignment}
use multi_agent_intel_pipeli.Department.{Department, Session, find_assignment}
use multi_agent_intel_pipeli.Department.Review.{
  reviewed, report_of, critic_review, store_review, after_review, review_latest, review_assigned,
  review_research, judge_review, judge_artifact, judged, judge_assigned, judge_decision,
}
use multi_agent_intel_pipeli.Department.Steps.{last-append_to}

-- The judge's decision on a task with an artifact names no open question, whichever core rules
-- failed: the dict of a stored review does not hold their messages.
pub judge_decision-no_questions :
    (d : Department) (task_key : String) (s : DepartmentRunState) (a : Assignment)
    (artifact : TaskArtifact)
    → find_assignment task_key d.assignments ≡ some a
    → latest_artifact s task_key ≡ some artifact
    → (judge_decision d task_key s).1.open_questions ≡ []
unfolding judge_decision judge_assigned judged judge_artifact judge_review artifact_view
judge_decision-no_questions d task_key s a artifact f l =
    elim (Option-cases (latest_review s task_key)) [
      | inl e ↦ rw (f, judge_assigned, l, judged, e, judge_artifact) (decide-no_messages _ _ _ refl)
      | inr (r, e) ↦
          rw (f, judge_assigned, l, judged, e, judge_artifact) (decide-no_messages _ _ _ refl)
    ]

-- What a review that is returned comes from.
pub record Reviewed (d : Department) (task_key : String) (s s' : Session) (ra : TaskReviewArtifact)
    : Type 0 where
  pub assignment : Assignment
  pub artifact : TaskArtifact
  pub review : Review
  pub found : find_assignment task_key d.assignments ≡ some assignment
  pub latest : latest_artifact s.run task_key ≡ some artifact
  pub reviews : critic_review d assignment task_key artifact ≡ some review
  pub stored : ra ≡ from_critic_review review task_key artifact.attempt d.critic_name
  pub run : s'.run ≡ record_review_artifact ra s.run

module _ (d : Department) (task_key exc : String) (s : Session) (ra : TaskReviewArtifact) where
  review_research-Reviewed :
      (review_research d task_key exc s).1 ≡ reviewed ra
      → Reviewed d task_key s (review_research d task_key exc s).0 ra
  unfolding review_research review_assigned review_latest after_review store_review
  review_research-Reviewed h = elim (Option-cases (find_assignment task_key d.assignments)) [
    | inl e ↦ absurd (ground arith)
    | inr (a, f) ↦ elim (Option-cases (latest_artifact s.run task_key)) [
      | inl e ↦ absurd (ground arith)
      | inr (artifact, l) ↦ elim (Option-cases (critic_review d a task_key artifact)) [
        | inl e ↦ absurd (ground arith)
        | inr (r, c) ↦ record {
          assignment = a;
          artifact = artifact;
          review = r;
          found = f;
          latest = l;
          reviews = c;
          stored = ground arith;
          run = ground arith;
        }
      ]
    ]
  ]

  -- In a department's chat the critic finds no issue of method, whatever the worker searched: the
  -- artifact's dict tells it of no search.
  pub review_research-no_method_issue :
      (review_research d task_key exc s).1 ≡ reviewed ra → ra.method_issue ≡ false
  unfolding critic_review report_of from_critic_review
  review_research-no_method_issue h =
      let v = review_research-Reviewed h in
      ground (
        arith,
        v.stored,
        review-method_issue task_key v.assignment.objective (d.validation_rules task_key)
            v.artifact.payload (some (report_of v.artifact)) d.critic_memory v.review
            (report_of v.artifact) v.reviews refl refl,
      )

  judge_decision-stored :
      (t : Session) (v : Reviewed d task_key s t ra)
      → (judge_decision d task_key (record_review_artifact ra s.run)).1
        ≡ decide task_key (some (artifact_view ra)) (some ra.issues)
  unfolding judge_decision judge_assigned judged judge_artifact judge_review
  judge_decision-stored t v =
      let s' = record_review_artifact ra s.run in
      let key : ra.task_key ≡ task_key = rw v.stored (unfold from_critic_review in refl) in
      let l : latest_artifact s' task_key ≡ some v.artifact =
        unfold latest_artifact record_review_artifact in v.latest in
      let e : latest_review s' task_key ≡ some ra =
        unfold latest_review record_review_artifact in rw (last-append_to, key, eq_refl) refl in
      rw (v.found, judge_assigned, l, judged, e, judge_artifact) refl

  judge_decision-Reviewed :
      (t : Session) (v : Reviewed d task_key s t ra)
      → (judge_decision d task_key t.run).1
        ≡ decide task_key (some (artifact_view ra)) (some ra.issues)
  judge_decision-Reviewed t v =
      ap (λ u. (judge_decision d task_key u).1) v.run ∙ judge_decision-stored t v

  -- After the critic has reviewed a task whose contract has a core rule, the judge accepts it exactly
  -- when no core rule fails on the artifact's payload, closes it unresolved exactly when none passes,
  -- and accepts it with gaps exactly when some pass and some fail. The supporting rules have no part
  -- in the decision, so that a task for which none of them passes can be accepted; they only set the
  -- confidence, which is low if a core rule fails and otherwise high exactly when a supporting rule
  -- passes, and medium if none does.
  pub judge_decision-review_research :
      (review_research d task_key exc s).1 ≡ reviewed ra
      → (artifact : TaskArtifact) → latest_artifact s.run task_key ≡ some artifact
      → any is_core (d.validation_rules task_key) ≡ true
      → let s' = (review_research d task_key exc s).0.run in
        (((judge_decision d task_key s').1.decision ≡ Outcome.accepted)
          ↔ (any (core_fails task_key artifact.payload) (d.validation_rules task_key) ≡ false))
        × (((judge_decision d task_key s').1.decision ≡ closed_unresolved)
            ↔ (any (core_passes task_key artifact.payload) (d.validation_rules task_key) ≡ false))
        × (((judge_decision d task_key s').1.decision ≡ accepted_with_gaps) ↔ (
            (any (core_passes task_key artifact.payload) (d.validation_rules task_key) ≡ true)
            × (any (core_fails task_key artifact.payload) (d.validation_rules task_key) ≡ true)))
        × ((judge_decision d task_key s').1.confidence ≡ (
            if any (core_fails task_key artifact.payload) (d.validation_rules task_key)
            then low
            else if any (supporting_passes task_key artifact.payload) (d.validation_rules task_key)
            then high
            else medium))
  judge_decision-review_research h artifact l core =
      let v = review_research-Reviewed h in
      let rules = d.validation_rules task_key in
      let same : artifact ≡ v.artifact = cc (l, v.latest) in
      let counts =
        review-counts task_key v.assignment.objective rules v.artifact.payload
          (some (report_of v.artifact)) d.critic_memory v.review
          (unfold critic_review in v.reviews) in
      let passed = length (keep (core_passes task_key v.artifact.payload) rules) in
      let failed = length (keep (core_fails task_key v.artifact.payload) rules) in
      let supported = length (keep (supporting_passes task_key v.artifact.payload) rules) in
      let total : v.review.core_total ≡ passed + failed =
        counts.2 ∙ sym (core-split task_key v.artifact.payload rules) in
      let by_counts =
        decide-by_counts task_key (artifact_view ra) (some ra.issues) passed failed supported
          (unfold artifact_view from_critic_review in rw v.stored counts.3)
          (unfold artifact_view from_critic_review in rw v.stored total)
          (unfold artifact_view from_critic_review in rw v.stored counts.5)
          (unfold artifact_view from_critic_review in
            rw v.stored (ground (arith, any-length is_core rules, counts.2))) in
      rw
        (
          same,
          judge_decision-Reviewed _ v,
          any-length (core_passes task_key v.artifact.payload) rules,
          any-length (core_fails task_key v.artifact.payload) rules,
          any-length (supporting_passes task_key v.artifact.payload) rules,
        )
        (ground (arith, by_counts))
