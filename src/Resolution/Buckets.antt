-- ===== src/Resolution/Buckets.antt =====
-- src/orchestration/resolution_controller.py: the bucket of a run, by what the run says of itself.
use multi_agent_intel_pipeli.Prelude.{
  String, Bool, true, false, ◌||◌, List, [], ◌∷◌, ◌++◌, map, ◌≡◌, refl, ◌↔◌, arith, Dict, nonempty,
  ◌&&◌, ◌==◌, any, has_text, get_or, lookup,
}
use multi_agent_intel_pipeli.Models.{AnswerStatus, answered, partially_answered, blocked, pending}
use multi_agent_intel_pipeli.AnswerMatrix.{MatrixEntry}
use multi_agent_intel_pipeli.Supervisor.{Package, Envelope}
use multi_agent_intel_pipeli.Resolution.{
  not_meeting_critical, rejected_departments, blocked_tasks, unresolved_matrix, stripped,
  extract_typed_gaps, unresolved_by_department, public_items, choose, classify,
}
use multi_agent_intel_pipeli.Resolution.Candidates.{public_items-kept}

-- A question of the list has a text.
abbrev pub asks : List String → Bool
asks qs = any has_text qs

stripped-nonempty : (qs : List String) → nonempty (stripped qs) ≡ asks qs
unfolding stripped
stripped-nonempty [] = refl
stripped-nonempty (q ∷ qs) = ground (arith, stripped-nonempty qs)

-- The package asks something, in a typed gap or else in an open question.
abbrev pub has_gap : Package → Bool
has_gap pkg = asks (map (λ g. g.question) pkg.artifacts.gap_candidates) || asks pkg.open_questions

gaps-nonempty : (pkg : Package) → nonempty (extract_typed_gaps pkg) ≡ has_gap pkg
unfolding extract_typed_gaps
gaps-nonempty pkg = ground (
  arith,
  stripped-nonempty (map (λ g. g.question) pkg.artifacts.gap_candidates),
  stripped-nonempty pkg.open_questions,
)

-- What a resolution is about, read off the run itself.
abbrev pub was_rejected : Dict Envelope → Bool
was_rejected packages = any (λ (dept, pkg). pkg.decision == "rejected") packages

abbrev pub is_blocked : Dict String → Bool
is_blocked statuses = any (λ (task_key, status). status == "blocked") statuses

abbrev pub has_public_gap : Dict Envelope → Bool
has_public_gap packages =
    any
      (λ (dept, pkg).
        (dept == "CompanyDepartment" || dept == "MarketDepartment" || dept == "BuyerDepartment")
        && has_gap pkg.raw_package)
      packages

abbrev pub has_contact_gap : Dict Envelope → Bool
has_contact_gap packages =
    any (λ (dept, pkg). dept == "ContactDepartment" && has_gap pkg.raw_package) packages

abbrev pub is_unanswered : AnswerStatus → Bool
is_unanswered answered = false
is_unanswered partially_answered = false
is_unanswered blocked = true
is_unanswered pending = true

abbrev pub has_unanswered : Dict MatrixEntry → Bool
has_unanswered matrix = any (λ (question_id, entry). is_unanswered entry.status) matrix

rejected-nonempty :
    (packages : Dict Envelope) → nonempty (rejected_departments packages) ≡ was_rejected packages
unfolding rejected_departments
rejected-nonempty [] = refl
rejected-nonempty ((dept, pkg) ∷ rest) = ground (arith, rejected-nonempty rest)

blocked-nonempty :
    (statuses : Dict String) → nonempty (blocked_tasks statuses) ≡ is_blocked statuses
unfolding blocked_tasks
blocked-nonempty [] = refl
blocked-nonempty ((task_key, status) ∷ rest) = ground (arith, blocked-nonempty rest)

matrix-nonempty :
    (matrix : Dict MatrixEntry) → nonempty (unresolved_matrix matrix) ≡ has_unanswered matrix
unfolding unresolved_matrix
matrix-nonempty [] = refl
matrix-nonempty ((question_id, entry) ∷ rest) = ground (arith, matrix-nonempty rest)

nonempty-append : (xs ys : List String) → nonempty (xs ++ ys) ≡ (nonempty xs || nonempty ys)
nonempty-append [] ys = refl
nonempty-append (x ∷ xs) ys = refl

public-nonempty :
    (packages : Dict Envelope)
    → nonempty (public_items (unresolved_by_department packages)) ≡ has_public_gap packages
unfolding unresolved_by_department
public-nonempty [] = unfold public_items in refl
public-nonempty ((dept, pkg) ∷ rest) = rw public_items-kept (
    ground (
      arith,
      nonempty-append (extract_typed_gaps pkg.raw_package)
          (public_items (unresolved_by_department rest)),
      gaps-nonempty pkg.raw_package,
      public-nonempty rest,
    ))

contact-nonempty :
    (packages : Dict Envelope)
    → nonempty (get_or "ContactDepartment" [] (unresolved_by_department packages))
      ≡ has_contact_gap packages
unfolding unresolved_by_department get_or lookup
contact-nonempty [] = refl
contact-nonempty ((dept, pkg) ∷ rest) =
    ground (arith, gaps-nonempty pkg.raw_package, contact-nonempty rest)

-- The bucket by what the run says of itself.
module _ (packages : Dict Envelope) (matrix : Dict MatrixEntry) (statuses : Dict String) where
  classify-choose :
      (classify packages matrix statuses).bucket
      ≡ (choose
          (was_rejected packages || is_blocked statuses)
          (has_public_gap packages)
          (has_contact_gap packages)
          (has_unanswered matrix)).0
  unfolding classify
  classify-choose =
      rw (rejected-nonempty, blocked-nonempty, public-nonempty, contact-nonempty, matrix-nonempty)
        refl

  -- A run is found not meeting-critical exactly when no department's decision is rejected, no task's
  -- status is blocked, no package of the company, market, buyer or contact department has a gap or
  -- an open question with a text, and no question of the matrix is pending or blocked.
  pub classify-not_meeting_critical :
      ((classify packages matrix statuses).bucket ≡ not_meeting_critical) ↔ (
        (was_rejected packages
          || is_blocked statuses
          || has_public_gap packages
          || has_contact_gap packages
          || has_unanswered matrix)
        ≡ false)
  unfolding choose
  classify-not_meeting_critical = rw classify-choose (λ h. ground arith, λ h. ground arith)
