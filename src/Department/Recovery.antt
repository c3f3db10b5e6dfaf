-- ===== src/Department/Recovery.antt =====
-- src/agents/lead.py: repeated calls of `finalize_package` bring a run to its end.
use multi_agent_intel_pipeli.Prelude.{
  ℕ, zero, suc, ◌+◌, ◌≤◌, ◌<◌, String, Bool, true, false, not, ◌&&◌, List, [], ◌∷◌, map, some, ◌≡◌,
  refl, arith, ◌==◌, Bool-cases, ◌⊎◌, inl, inr, if◌then◌else◌, eq_refl, keep, length, leb, leb→le,
  nonempty,
}
use mathlib.Core.Path.{fun_ext}
use multi_agent_intel_pipeli.Contracts.Artifacts.{Report}
use multi_agent_intel_pipeli.Critic.Review.{ContractViolation}
use multi_agent_intel_pipeli.TaskRouter.{Assignment}
use multi_agent_intel_pipeli.Department.{Department, find_assignment}
use multi_agent_intel_pipeli.Department.Research.{Answer, report}
use multi_agent_intel_pipeli.Department.Finalize.{
  Closing, ChatState, is_incomplete, incomplete_tasks, turn_down, finalize_by, finalize_package,
  assemble_package, auto_recover_finalize_after_blocks,
}
use multi_agent_intel_pipeli.Department.Completes.{IsWritten, run_research-Completes}

keep-find :
    (p : String → Bool) (as' : List Assignment) {task : String} {others : List String}
    → keep p (map (λ (a : Assignment). a.task_key) as') ≡ task ∷ others
    → (p task ≡ true) × (a : Assignment) × (find_assignment task as' ≡ some a)
unfolding find_assignment
keep-find p [] h = absurd (cc)
keep-find p (a ∷ as') {task} h = elim (Bool-cases (p a.task_key)) [
  | inl e ↦
      let f : a.task_key ∷ keep p (map (λ (a : Assignment). a.task_key) as') ≡ task ∷ _ =
        rw e at h in
      let g : a.task_key ≡ task = cc in (rw (← g) e, a, rw (g, eq_refl) refl)
  | inr e ↦
      let (passes, b, f) = keep-find p as' (rw e at h) in
      elim (Bool-cases (a.task_key == task)) [
        | inl g ↦ (passes, a, rw g refl)
        | inr g ↦ (passes, b, rw g f)
      ]
]

List-cases {ℓ} :
    {A : Type ℓ} (xs : List A) → (xs ≡ []) ⊎ ((x : A) × (rest : List A) × (xs ≡ x ∷ rest))
List-cases [] = inl refl
List-cases (x ∷ xs) = inr (x, xs, refl)

nonempty-none {ℓ} : {A : Type ℓ} (xs : List A) → nonempty xs ≡ false → xs ≡ []
nonempty-none [] h = refl
nonempty-none (x ∷ xs) h = absurd (cc)

module _ (p : String → Bool) (task : String) where
  length-keep_without :
      (xs : List String) → length (keep (λ k. p k && not (task == k)) xs) ≤ length (keep p xs)
  length-keep_without [] = omega arith
  length-keep_without (x ∷ xs) = ground (arith, length-keep_without xs)

  length-keep_first :
      (xs : List String) {others : List String}
      → keep p xs ≡ task ∷ others
      → length (keep (λ k. p k && not (task == k)) xs) < length (keep p xs)
  length-keep_first [] h = absurd (cc)
  length-keep_first (x ∷ xs) h = elim (Bool-cases (p x)) [
    | inl e ↦
        let f : x ∷ keep p xs ≡ task ∷ _ = rw e at h in
        let g : x ≡ task = cc in rw (e, g, eq_refl) (omega (arith, length-keep_without xs))
    | inr e ↦ rw e (length-keep_first xs (rw e at h))
  ]

module _ (d : Department) (env : Closing) (summary : String) (worker : String → Report)
    (violations : String → List ContractViolation) where
  -- What the worker answers when it is called for the first of these tasks.
  answer_for : List String → Answer
  answer_for [] = report (worker "") []
  answer_for (task ∷ tasks) = report (worker task) (violations task)

  abbrev pub open_tasks : ChatState → List String
  open_tasks c = incomplete_tasks c.session.run d.assignments

  -- The lead calls the tool up to n times, as long as a task has no result.
  pub retry : ℕ → ChatState → ChatState
  unfolding answer_for
  retry zero c = c
  retry (suc n) c =
      let rest = retry n (finalize_package d env summary (answer_for (open_tasks c)) c).0 in
      if nonempty (open_tasks c) then rest else c

  module _ (own : (k : String) → (worker k).task_key ≡ k) where
    -- A call that is turned down at least for the second time leaves fewer tasks open.
    abbrev Progress : ChatState → ChatState → Type 0
    Progress c t =
        (length (open_tasks t) < length (open_tasks c))
        × IsWritten t.session.run
        × (1 ≤ t.blocked_finalize_attempts)

    turn_down-Progress :
        (c : ChatState) (task : String) (others : List String)
        → IsWritten c.session.run
        → 1 ≤ c.blocked_finalize_attempts
        → open_tasks c ≡ task ∷ others
        → Progress c
            (turn_down d env summary (report (worker task) (violations task)) task others c).0
    unfolding turn_down incomplete_tasks
    turn_down-Progress c task others w b h =
        let (unready, a, found) = keep-find (is_incomplete c.session.run) d.assignments h in
        let (left, w') =
          run_research-Completes d task c.session w (worker task) (violations task) (own task) a
            found unready in
        let again : leb auto_recover_finalize_after_blocks (c.blocked_finalize_attempts + 1)
            ≡ true =
          ground arith in
        rw again (
          rw (fun_ext left) (
              length-keep_first (is_incomplete c.session.run) task
                (map (λ (a : Assignment). a.task_key) d.assignments) h),
          w',
          omega arith,
        )

    finalize_package-turn_down :
        (c : ChatState) (task : String) (others : List String)
        → open_tasks c ≡ task ∷ others
        → finalize_package d env summary (answer_for (open_tasks c)) c
          ≡ turn_down d env summary (report (worker task) (violations task)) task others c
    unfolding finalize_package finalize_by answer_for
    finalize_package-turn_down c task others e = rw e refl

    called-Progress :
        (c : ChatState)
        → IsWritten c.session.run
        → 1 ≤ c.blocked_finalize_attempts
        → nonempty (open_tasks c) ≡ true
        → Progress c (finalize_package d env summary (answer_for (open_tasks c)) c).0
    called-Progress c w b more = elim (List-cases (open_tasks c)) [
      | inl e ↦ absurd (cc (rw e at more))
      | inr (task, others, e) ↦
          rw (finalize_package-turn_down c task others e) (turn_down-Progress c task others w b e)
    ]

    retry-done :
        (n : ℕ) (c : ChatState)
        → IsWritten c.session.run
        → 1 ≤ c.blocked_finalize_attempts
        → length (open_tasks c) ≤ n
        → open_tasks (retry n c) ≡ []
    unfolding retry
    retry-done zero c w b h = nonempty-none (open_tasks c) (ground arith)
    retry-done (suc n) c w b h = elim (Bool-cases (nonempty (open_tasks c))) [
      | inl more ↦
          let (fewer, w', b') = called-Progress c w b more in
          rw more (retry-done n _ w' b' (omega arith))
      | inr done ↦ rw done (nonempty-none (open_tasks c) done)
    ]

    counted :
        (c : ChatState) (task : String) (others : List String)
        → IsWritten c.session.run
        → leb 1 c.blocked_finalize_attempts ≡ false
        → let t =
            (turn_down d env summary (report (worker task) (violations task)) task others c).0 in
          (length (open_tasks t) ≤ length (open_tasks c))
          × IsWritten t.session.run
          × (1 ≤ t.blocked_finalize_attempts)
    unfolding turn_down
    counted c task others w first =
        let early : leb auto_recover_finalize_after_blocks (c.blocked_finalize_attempts + 1)
            ≡ false =
          ground arith in
        rw early (omega arith, w, omega arith)

    -- The first call may only be counted.
    first_called :
        (c : ChatState)
        → IsWritten c.session.run
        → nonempty (open_tasks c) ≡ true
        → let t = (finalize_package d env summary (answer_for (open_tasks c)) c).0 in
          (length (open_tasks t) ≤ length (open_tasks c))
          × IsWritten t.session.run
          × (1 ≤ t.blocked_finalize_attempts)
    first_called c w more = elim (List-cases (open_tasks c)) [
      | inl e ↦ absurd (cc (rw e at more))
      | inr (task, others, e) ↦
          rw (finalize_package-turn_down c task others e)
            (elim (Bool-cases (leb 1 c.blocked_finalize_attempts)) [
              | inl again ↦
                  let (fewer, w', b') = turn_down-Progress c task others w (leb→le 1 _ again) e in
                  (omega arith, w', b')
              | inr first ↦ counted c task others w first
            ])
    ]

    retried :
        (n : ℕ) (c : ChatState)
        → IsWritten c.session.run
        → length (open_tasks c) ≤ n
        → open_tasks (retry (n + 1) c) ≡ []
    unfolding retry
    retried n c w h =
        let e : n + 1 ≡ suc n = omega arith in
        rw e (elim (Bool-cases (nonempty (open_tasks c))) [
          | inl more ↦
              let (fewer, w', b') = first_called c w more in
              rw more (retry-done n _ w' b' (omega arith))
          | inr done ↦ rw done (nonempty-none (open_tasks c) done)
        ])

    -- If the worker reports on each task that it is called for, then, from a chat state in which no
    -- task's list of artifacts is empty, as many calls of `finalize_package` as tasks have no result
    -- yet and one more leave no such task, whatever these calls are turned down for. The next call
    -- assembles the package.
    pub finalize_package-recovers :
        (c : ChatState) (answer : Answer)
        → IsWritten c.session.run
        → let done = retry (length (open_tasks c) + 1) c in
          (open_tasks done ≡ [])
          × (finalize_package d env summary answer done ≡ assemble_package d env summary done)
    unfolding finalize_package finalize_by
    finalize_package-recovers c answer w =
        let done = retry (length (open_tasks c) + 1) c in
        let settled : open_tasks done ≡ [] = retried (length (open_tasks c)) c w (omega arith) in
        (settled, rw settled refl)
