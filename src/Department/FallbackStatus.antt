-- ===== src/Department/FallbackStatus.antt =====
-- Which statuses the fallback package reports.
use multi_agent_intel_pipeli.Prelude.{
  String, List, [], ◌∷◌, map, Option, none, some, ◌≡◌, ◌↔◌, refl, ap, arith, All, any, Bool, true,
  false, Option-cases, inl, inr,
}
use multi_agent_intel_pipeli.Value.{Fields}
use multi_agent_intel_pipeli.Contracts.{
  TaskStatus, accepted, degraded, Outcome, outcome_to_task_status, accepted_with_gaps,
  closed_unresolved, TaskDecisionArtifact,
}
use multi_agent_intel_pipeli.Contracts.Artifacts.{TaskArtifact, TaskReviewArtifact}
use multi_agent_intel_pipeli.Contracts.RunState.{
  DepartmentRunState, latest_artifact, latest_decision,
}
use multi_agent_intel_pipeli.Critic.Tally.{is_core}
use multi_agent_intel_pipeli.Critic.Review.{Review, review}
use multi_agent_intel_pipeli.Critic.Counts.{core_fails, core_passes}
use multi_agent_intel_pipeli.Judge.{critic_view, decide}
use multi_agent_intel_pipeli.Judge.Verdict.{decide-coherent, decide-review}
use multi_agent_intel_pipeli.TaskRouter.{Assignment}
use multi_agent_intel_pipeli.Department.{Department}
use multi_agent_intel_pipeli.Department.SafeText.{safe_prompt_text}
use multi_agent_intel_pipeli.Department.Goods.{fill_scope}
use multi_agent_intel_pipeli.Department.Package.{nothing_assembled, Assembled, add_task}
use multi_agent_intel_pipeli.Department.Settle.{TaskSummary, Settled}
use multi_agent_intel_pipeli.Department.Finalize.{Closing, safe_summary}
use multi_agent_intel_pipeli.Department.Fallback.{
  FallbackPackage, fallback_decided, fallback_judged, fallback_reviewed, fallback_unresearched,
  fallback_task, add_fallback, fallback_all, fallback_of, fallback_with, build_fallback_package,
}

-- The status of a task by its latest decision and artifact: the decision's, if there is one,
-- degraded without an artifact, and otherwise accepted where no core rule fails on its payload and
-- degraded where one does.
abbrev pub StatusBy :
    Department → String → Option TaskDecisionArtifact → Option TaskArtifact → TaskStatus → Type 0
StatusBy d k (some decision) artifact status = status ≡ decision.task_status
StatusBy d k none none status = status ≡ degraded
StatusBy d k none (some artifact) status =
    ((status ≡ accepted) ↔ (any (core_fails k artifact.payload) (d.validation_rules k) ≡ false))
    × ((status ≡ degraded) ↔ (any (core_fails k artifact.payload) (d.validation_rules k) ≡ true))

-- The contract of the task has a core rule.
abbrev pub HasCore : Department → Assignment → Type 0
HasCore d a = any is_core (d.validation_rules a.task_key) ≡ true

-- The summaries are those of the assignments, in their order.
abbrev pub Lists :
    (String → String)
    → Department
    → DepartmentRunState
    → List Assignment
    → List TaskSummary
    → Type 0
Lists show d s [] [] = Unit
Lists show d s (a ∷ as') [] = ⊥
Lists show d s [] (t ∷ ts) = ⊥
Lists show d s (a ∷ as') (t ∷ ts) =
    (t.task_key ≡ show a.task_key)
    × StatusBy d a.task_key (latest_decision s a.task_key) (latest_artifact s a.task_key) t.status
    × Lists show d s as' ts

-- The two statuses by whether a core rule fails, for an outcome that depends on the core rules as
-- the judge's does.
status-by_outcome :
    (o : Outcome) (fails passes : Bool)
    → ((o ≡ Outcome.accepted) ↔ (fails ≡ false))
    → ((o ≡ closed_unresolved) ↔ (passes ≡ false))
    → ((o ≡ accepted_with_gaps) ↔ ((passes ≡ true) × (fails ≡ true)))
    → ((outcome_to_task_status o ≡ accepted) ↔ (fails ≡ false))
      × ((outcome_to_task_status o ≡ degraded) ↔ (fails ≡ true))
status-by_outcome o false passes h c g =
    rw (h.1 refl) (unfold outcome_to_task_status in ground arith)
status-by_outcome o true true h c g =
    rw (g.1 (refl, refl)) (unfold outcome_to_task_status in ground arith)
status-by_outcome o true false h c g = rw (c.1 refl) (unfold outcome_to_task_status in ground arith)

module _ (d : Department) (a : Assignment) (s : DepartmentRunState) (core : HasCore d a) where
  judged-StatusBy :
      (artifact : TaskArtifact) (r : Review)
      → review a.task_key a.objective (d.validation_rules a.task_key) artifact.payload none []
        ≡ some r
      → StatusBy d a.task_key none (some artifact) (fallback_judged a s artifact r).status
  unfolding fallback_judged
  judged-StatusBy artifact r e =
      let view = some (critic_view r) in
      let rules = d.validation_rules a.task_key in
      let judged =
        decide-review a.task_key a.objective rules artifact.payload none [] a.task_key none r e
          core in
      rw (decide-coherent a.task_key view none).1 (
        status-by_outcome (decide a.task_key view none).decision
          (any (core_fails a.task_key artifact.payload) rules)
          (any (core_passes a.task_key artifact.payload) rules) judged.0 judged.1 judged.2)

  reviewed-StatusBy :
      (artifact : TaskArtifact) (t : Settled)
      → fallback_reviewed d a s artifact ≡ some t
      → StatusBy d a.task_key none (some artifact) t.status
  unfolding fallback_reviewed fallback_judged
  reviewed-StatusBy artifact t h =
      elim (Option-cases
        (review a.task_key a.objective (d.validation_rules a.task_key) artifact.payload none [])) [
          | inl e ↦ absurd (cc (rw (e, fallback_reviewed) at h))
          | inr (r, e) ↦
              let f : some (fallback_judged a s artifact r) ≡ some t =
                rw (e, fallback_reviewed) at h in
              let g : t.status ≡ (fallback_judged a s artifact r).status = cc in
              rw g (judged-StatusBy artifact r e)
        ]

  task-StatusBy :
      (decision : Option TaskDecisionArtifact) (r : Option TaskReviewArtifact)
      (artifact : Option TaskArtifact) (t : Settled)
      → fallback_task d a s decision r artifact ≡ some t
      → StatusBy d a.task_key decision artifact t.status
  unfolding fallback_task fallback_decided fallback_unresearched
  task-StatusBy (some decision) r artifact t h = cc
  task-StatusBy none r (some artifact) t h = reviewed-StatusBy artifact t h
  task-StatusBy none r none t h = cc

module _ (d : Department) (s : DepartmentRunState) where
  add-Lists :
      (a : Assignment) (as' : List Assignment) (t : Option Settled) (later : Option Assembled)
      (assembled : Assembled)
      → ((x : Settled)
          → t ≡ some x
          → StatusBy d a.task_key
              (latest_decision s a.task_key)
              (latest_artifact s a.task_key)
              x.status)
      → ((x : Assembled) → later ≡ some x → Lists (λ k. k) d s as' x.task_summaries)
      → add_fallback s.department a (latest_artifact s a.task_key) t later ≡ some assembled
      → Lists (λ k. k) d s (a ∷ as') assembled.task_summaries
  add-Lists a as' none later assembled p q h = absurd (cc)
  add-Lists a as' (some x) none assembled p q h = absurd (cc)
  add-Lists a as' (some x) (some rest) assembled p q h =
      let same : add_task s.department a (latest_artifact s a.task_key) x rest ≡ assembled = cc in
      rw (← same) (unfold add_task in (refl, p x refl, q rest refl))

  fallback_all-Lists :
      (as' : List Assignment) (assembled : Assembled)
      → All (HasCore d) as'
      → fallback_all d as' s ≡ some assembled
      → Lists (λ k. k) d s as' assembled.task_summaries
  unfolding fallback_all
  fallback_all-Lists [] assembled core h =
      let same : nothing_assembled ≡ assembled = cc in rw (← same) tt
  fallback_all-Lists (a ∷ as') assembled (c, core) h =
      add-Lists a as' _ _ assembled (λ x. task-StatusBy d a s c _ _ _ x)
        (λ x. fallback_all-Lists as' x core) h

  Lists-safe :
      (as' : List Assignment) (ts : List TaskSummary)
      → Lists (λ k. k) d s as' ts
      → Lists safe_prompt_text d s as' (map safe_summary ts)
  unfolding safe_summary
  Lists-safe [] [] h = tt
  Lists-safe (a ∷ as') [] h = h
  Lists-safe [] (t ∷ ts) h = h
  Lists-safe (a ∷ as') (t ∷ ts) (k, status, h) =
      (ap safe_prompt_text k, status, Lists-safe as' ts h)

  -- The package, where no exception is raised, lists the tasks, and the run's artifacts, reviews and
  -- decisions are as they were.
  abbrev pub IsFallback : Option (DepartmentRunState × FallbackPackage) → Type 0
  IsFallback none = Unit
  IsFallback (some (t, pkg)) =
      Lists safe_prompt_text d s d.assignments pkg.completed_tasks
      × (t ≡ record s { current_payload = t.current_payload })

  with-IsFallback :
      (env : Closing) (payload : Option Fields) (all_tasks : Option Assembled)
      → ((x : Assembled) → all_tasks ≡ some x → Lists (λ k. k) d s d.assignments x.task_summaries)
      → IsFallback (fallback_with d env s payload all_tasks)
  unfolding fallback_with fallback_of
  with-IsFallback env payload none listed = tt
  with-IsFallback env none (some x) listed = tt
  with-IsFallback env (some payload) (some x) listed =
      (Lists-safe d.assignments x.task_summaries (listed x refl), refl)

  -- If the contract of each task has a core rule, the fallback package, unless building it raises,
  -- lists the department's tasks in their order under their escaped keys. Each has the status of its
  -- latest decision where there is one, with or without an artifact. Without a decision and an
  -- artifact it is degraded, and with an artifact only it is accepted exactly when no core rule fails
  -- on the artifact's payload and degraded exactly when one does; the supporting rules have no part
  -- in that. The run keeps its artifacts, reviews and decisions.
  pub build_fallback_package-statuses :
      (env : Closing) → All (HasCore d) d.assignments → IsFallback (build_fallback_package d env s)
  unfolding build_fallback_package
  build_fallback_package-statuses env core =
      with-IsFallback env (fill_scope env.python s.current_payload) (fallback_all d d.assignments s)
        (λ x. fallback_all-Lists d.assignments x core)
