-- ===== src/Department/Settled.antt =====
-- What the finished package says of each task, against the run state that it leaves.
use multi_agent_intel_pipeli.Prelude.{
  String, Bool, true, false, List, [], ◌∷◌, map, Option, none, some, ◌≡◌, refl, arith, Option-cases,
  inl, inr, ap,
}
use multi_agent_intel_pipeli.Value.{Fields}
use multi_agent_intel_pipeli.Contracts.RunState.{
  DepartmentRunState, latest_artifact, latest_review, latest_decision,
}
use multi_agent_intel_pipeli.TaskRouter.{Assignment}
use multi_agent_intel_pipeli.Department.{Department}
use multi_agent_intel_pipeli.Department.SafeText.{safe_prompt_text}
use multi_agent_intel_pipeli.Department.Research.{Answer}
use multi_agent_intel_pipeli.Department.Package.{Assembled, add_settled}
use multi_agent_intel_pipeli.Department.Settle.{TaskSummary, Settled, settle_task}
use multi_agent_intel_pipeli.Department.Finalize.{
  Closing, FinalPackage, add_later, ChatState, package_ready, incomplete_tasks, settle_all,
  safe_summary, closed_payload, package_of, submit_package, submit_settled, assemble_package,
  turn_down, finalize_by, finalize_package,
}
use multi_agent_intel_pipeli.Department.Rounds.{
  Keeps, Keeps-refl, Keeps-trans, StatusOf, StatusOf-Keeps, Fits, settle_task-Fits,
}

-- The summaries stand for the tasks in their order, and each has its task's status by the run state.
abbrev pub Reported :
    (String → String) → DepartmentRunState → List Assignment → List TaskSummary → Type 0
Reported shown s [] [] = Unit
Reported shown s (a ∷ as') (t ∷ ts) =
    (t.task_key ≡ shown a.task_key)
    × StatusOf (latest_artifact s a.task_key) (latest_decision s a.task_key) t.status
    × Reported shown s as' ts
Reported shown s _ _ = ⊥

Reported-safe :
    (s : DepartmentRunState) (as' : List Assignment) (ts : List TaskSummary)
    → Reported (λ k. k) s as' ts
    → Reported safe_prompt_text s as' (map safe_summary ts)
unfolding safe_summary
Reported-safe s [] [] h = h
Reported-safe s (a ∷ as') (t ∷ ts) (e, f, g) = (ap safe_prompt_text e, f, Reported-safe s as' ts g)
Reported-safe s [] (t ∷ ts) h = h
Reported-safe s (a ∷ as') [] h = h

Keeps-same :
    (r s u : DepartmentRunState)
    → Keeps r s
    → u.task_artifacts ≡ s.task_artifacts
    → u.decision_artifacts ≡ s.decision_artifacts
    → Keeps r u
unfolding latest_artifact latest_decision
Keeps-same r s u kept p q = record {
  artifacts = λ k. rw p (kept.artifacts k);
  decisions = λ k x h. rw q (kept.decisions k x h);
}

Reported-same :
    (s u : DepartmentRunState) (as' : List Assignment) (ts : List TaskSummary)
    → u.task_artifacts ≡ s.task_artifacts
    → u.decision_artifacts ≡ s.decision_artifacts
    → Reported (λ k. k) s as' ts
    → Reported (λ k. k) u as' ts
unfolding latest_artifact latest_decision
Reported-same s u [] [] p q h = h
Reported-same s u (a ∷ as') (t ∷ ts) p q (e, f, g) =
    (e, rw (p, q) f, Reported-same s u as' ts p q g)
Reported-same s u [] (t ∷ ts) p q h = h
Reported-same s u (a ∷ as') [] p q h = h

-- What the loop guarantees of the run state and, where no review raises, of its result.
abbrev Closed :
    List Assignment → DepartmentRunState → DepartmentRunState × Option Assembled → Type 0
Closed as' s (t, none) = Keeps s t
Closed as' s (t, some all_tasks) = Keeps s t × Reported (λ k. k) t as' all_tasks.task_summaries

settle_all-Closed :
    (d : Department) (as' : List Assignment) (s : DepartmentRunState)
    → Closed as' s (settle_all d as' s)
unfolding settle_all add_settled
settle_all-Closed d [] s = (Keeps-refl s, tt)
settle_all-Closed d (a ∷ as') s =
    elim (Option-cases (
      settle_task d a s (latest_decision s a.task_key) (latest_review s a.task_key)
        (latest_artifact s a.task_key))) [
          | inl e ↦ rw (e, settle_all) (Keeps-refl s)
          | inr (t, e) ↦
              rw (e, settle_all)
                (later t (settle_task-Fits d a s _ _ _ t refl refl e) (settle_all d as' t.run)
                  (settle_all-Closed d as' t.run))
        ]
  where
    later :
        (t : Settled)
        → Fits a s t
        → (rest : DepartmentRunState × Option Assembled) → Closed as' t.run rest
        → Closed (a ∷ as') s (rest.0, add_later s.department a s t rest.1)
    later t (kept, fits) (u, none) h = Keeps-trans s t.run u kept h
    later t (kept, fits) (u, some all_tasks) (h, r) =
        let now = StatusOf-Keeps t.run u a.task_key t.status h fits in
        let reported : Reported (λ k. k) u (a ∷ as')
            (add_settled s.department a (latest_artifact s a.task_key) t all_tasks).task_summaries =
          (refl, now, r) in
        (Keeps-trans s t.run u kept h, reported)

module _ (d : Department) (env : Closing) (summary : String) (c : ChatState) where
  -- The package of a chat state, where there is one, reports on the tasks by the state's run.
  abbrev pub Submitted : ChatState → Type 0
  Submitted c' =
      (pkg : FinalPackage) × (c'.completed_package ≡ some pkg)
      × Reported safe_prompt_text c'.session.run d.assignments pkg.completed_tasks
      × Keeps c.session.run c'.session.run

  submit-Submitted :
      (settled : DepartmentRunState × Option Assembled)
      → Closed d.assignments c.session.run settled
      → (submit_settled d env summary settled.1 settled.0 c).1 ≡ package_ready
      → Submitted (submit_settled d env summary settled.1 settled.0 c).0
  unfolding submit_settled latest_artifact latest_decision package_of
  submit-Submitted (s, none) kept h = cc
  submit-Submitted (s, some all_tasks) (kept, reported) h =
      closed (closed_payload env.python s.department s.current_payload) h
    where
      closed :
          (payload : Fields × Bool)
          → (submit_package d env summary payload all_tasks s c).1 ≡ package_ready
          → Submitted (submit_package d env summary payload all_tasks s c).0
      closed (payload, false) h = cc
      closed (payload, true) h =
          let u = (submit_package d env summary (payload, true) all_tasks s c).0.session.run in
          let same : Reported (λ k. k) u d.assignments all_tasks.task_summaries =
            Reported-same s u d.assignments all_tasks.task_summaries refl refl reported in
          (
            package_of d env summary s payload all_tasks,
            refl,
            Reported-safe u d.assignments all_tasks.task_summaries same,
            Keeps-same c.session.run s u kept refl refl,
          )

-- When `finalize_package` answers that the package is ready, every task had a result before. The
-- package then lists the department's tasks in their order under their escaped keys; a task with an
-- artifact has the status of its latest decision in the run that the call leaves, which is the
-- decision of before where there was one, and a task without an artifact is degraded. No artifact
-- has changed.
pub finalize_package-reported :
    (d : Department) (env : Closing) (summary : String) (answer : Answer) (c : ChatState)
    → (finalize_package d env summary answer c).1 ≡ package_ready
    → (incomplete_tasks c.session.run d.assignments ≡ [])
      × Submitted d env summary c (finalize_package d env summary answer c).0
unfolding finalize_package finalize_by assemble_package turn_down
finalize_package-reported d env summary answer c h =
    split (incomplete_tasks c.session.run d.assignments) h
  where
    split :
        (tasks : List String)
        → (finalize_by d env summary answer tasks c).1 ≡ package_ready
        → (tasks ≡ []) × Submitted d env summary c (finalize_by d env summary answer tasks c).0
    split [] h = (
      refl,
      submit-Submitted d env summary c (settle_all d d.assignments c.session.run)
          (settle_all-Closed d d.assignments c.session.run) h,
    )
    split (next ∷ others) h = ground arith
