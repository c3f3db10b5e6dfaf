-- ===== src/Department/Steps.antt =====
-- One write to the registries keeps them consistent.
use multi_agent_intel_pipeli.Prelude.{
  ℕ, ◌+◌, ◌≤◌, ◌<◌, ◌≡◌, refl, String, List, [], ◌∷◌, ◌++◌, some, arith, ◌==◌, Dict, Bool-cases,
  inl, inr, if◌then◌else◌, lookup, insert, get_or, lookup-insert, get_or-insert, last?,
  last?-append, eq_iff, ap,
}
use multi_agent_intel_pipeli.Contracts.Artifacts.{TaskArtifact, TaskReviewArtifact}
use multi_agent_intel_pipeli.Contracts.RunState.{
  DepartmentRunState, append_to, record_task_artifact, record_review_artifact, latest_artifact,
  latest_review,
}

-- The attempt numbers rise strictly from above `lo` and end at `hi` at most.
abbrev pub IsNumbered : ℕ → ℕ → List TaskArtifact → Type 0
IsNumbered lo hi [] = lo ≤ hi
IsNumbered lo hi (a ∷ as') = (lo < a.attempt) × IsNumbered a.attempt hi as'

IsNumbered-le :
    {hi hi' : ℕ} (lo : ℕ) (xs : List TaskArtifact)
    → hi ≤ hi'
    → IsNumbered lo hi xs
    → IsNumbered lo hi' xs
IsNumbered-le lo [] h n = omega arith
IsNumbered-le lo (a ∷ xs) h n = (n.0, IsNumbered-le a.attempt xs h n.1)

IsNumbered-append :
    {hi : ℕ} (lo : ℕ) (xs : List TaskArtifact) (a : TaskArtifact)
    → hi < a.attempt
    → IsNumbered lo hi xs
    → IsNumbered lo a.attempt (xs ++ a ∷ [])
IsNumbered-append lo [] a h n = omega arith
IsNumbered-append lo (b ∷ xs) a h n = (n.0, IsNumbered-append b.attempt xs a h n.1)

-- The flat views show the latest artifact and the latest review of each task, and the attempts of a
-- task's artifacts rise strictly, up to the task's counter.
pub record IsConsistent (s : DepartmentRunState) : Type 0 where
  pub results : (k : String) → lookup k s.task_results ≡ latest_artifact s k
  pub reviews : (k : String) → lookup k s.last_reviews ≡ latest_review s k
  pub numbered : (k : String) → IsNumbered 0 (get_or k 0 s.attempts) (get_or k [] s.task_artifacts)

pub last-append_to {ℓ} :
    {A : Type ℓ} (key k : String) (x : A) (m : Dict (List A))
    → last? (get_or k [] (append_to key x m)) ≡ (if key == k then some x else last? (get_or k [] m))
unfolding append_to
last-append_to key k x m = elim (Bool-cases (key == k)) [
  | inl e ↦ rw (get_or-insert, e) (last?-append (get_or key [] m) x)
  | inr e ↦ rw (get_or-insert, e) refl
]

module _ (s : DepartmentRunState) (v : IsConsistent s) where
  -- A recorded attempt: the counter goes up by one and the artifact has the new number.
  pub attempt-IsConsistent :
      (a : TaskArtifact)
      → a.attempt ≡ get_or a.task_key 0 s.attempts + 1
      → IsConsistent
          (record_task_artifact a (record s { attempts = insert a.task_key a.attempt s.attempts }))
  unfolding record_task_artifact latest_artifact latest_review append_to
  attempt-IsConsistent a h = record {
    results = λ k. rw (lookup-insert, last-append_to) (ground (arith, v.results k));
    reviews = v.reviews;
    numbered = λ k. elim (Bool-cases (a.task_key == k)) [
      | inl e ↦
          rw (get_or-insert, get_or-insert, e)
            (IsNumbered-append 0 (get_or a.task_key [] s.task_artifacts) a (omega arith)
              (v.numbered a.task_key))
      | inr e ↦ rw (get_or-insert, get_or-insert, e) (v.numbered k)
    ];
  }

  -- The same with the key and the number that the tool works with.
  pub recorded-IsConsistent :
      (key : String) (a : TaskArtifact)
      → a.task_key ≡ key
      → a.attempt ≡ get_or key 0 s.attempts + 1
      → IsConsistent (
          record_task_artifact a
            (record s { attempts = insert key (get_or key 0 s.attempts + 1) s.attempts }))
  recorded-IsConsistent key a e h = rw (← h, ← e) (attempt-IsConsistent a (rw e h))

  pub count-IsConsistent :
      (key : String)
      → IsConsistent (record s { attempts = insert key (get_or key 0 s.attempts + 1) s.attempts })
  unfolding latest_artifact latest_review
  count-IsConsistent key = record {
    results = v.results;
    reviews = v.reviews;
    numbered = λ k. elim (Bool-cases (key == k)) [
      | inl e ↦
          rw (get_or-insert, e)
            (IsNumbered-le 0 (get_or k [] s.task_artifacts)
              (omega (arith, ap (λ j. get_or j 0 s.attempts) ((eq_iff key k).0 e))) (v.numbered k))
      | inr e ↦ rw (get_or-insert, e) (v.numbered k)
    ];
  }

  pub review-IsConsistent : (r : TaskReviewArtifact) → IsConsistent (record_review_artifact r s)
  unfolding record_review_artifact latest_artifact latest_review
  review-IsConsistent r = record {
    results = v.results;
    reviews = λ k. rw (lookup-insert, last-append_to) (ground (arith, v.reviews k));
    numbered = v.numbered;
  }

-- A write that leaves the counters and the registries of artifacts and reviews alone.
pub same-IsConsistent :
    (s u : DepartmentRunState)
    → IsConsistent s
    → u.attempts ≡ s.attempts
    → u.task_artifacts ≡ s.task_artifacts
    → u.review_artifacts ≡ s.review_artifacts
    → u.task_results ≡ s.task_results
    → u.last_reviews ≡ s.last_reviews
    → IsConsistent u
unfolding latest_artifact latest_review
same-IsConsistent s u v a t r tr lr = record {
  results = λ k. rw (t, tr) (v.results k);
  reviews = λ k. rw (r, lr) (v.reviews k);
  numbered = λ k. rw (a, t) (v.numbered k);
}
