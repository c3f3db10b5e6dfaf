-- ===== src/Resolution/Candidates.antt =====
-- src/orchestration/resolution_controller.py: the gap candidates of a run and its gaps.
use multi_agent_intel_pipeli.Prelude.{
  String, Bool, true, false, List, [], ◌∷◌, ◌++◌, map, ◌≡◌, refl, arith, ap, if◌then◌else◌, Dict,
  nonempty, str_mem,
}
use multi_agent_intel_pipeli.Models.{GapCandidate}
use multi_agent_intel_pipeli.AnswerMatrix.{MatrixEntry}
use multi_agent_intel_pipeli.Supervisor.{Package, Envelope}
use multi_agent_intel_pipeli.Resolution.{
  Candidate, stripped, extract_typed_gaps, typed_candidates, plain_candidate, some_candidates,
  extract_typed_gap_candidates, unresolved_by_department, unresolved_candidates_by_department,
  public_items, public_evidence_departments, classify,
}

abbrev pub questions : List Candidate → List String
questions candidates = map (λ c. c.question) candidates

typed_candidates-questions :
    (gs : List GapCandidate) → questions (typed_candidates gs) ≡ stripped (map (λ g. g.question) gs)
unfolding typed_candidates stripped
typed_candidates-questions [] = refl
typed_candidates-questions (g ∷ gs) = ground (arith, typed_candidates-questions gs)

plain-questions : (qs : List String) → questions (map plain_candidate qs) ≡ qs
plain-questions [] = refl
plain-questions (q ∷ qs) = ap (λ rest. q ∷ rest) (plain-questions qs)

some_candidates-questions : (cs : List Candidate) → some_candidates cs ≡ nonempty (questions cs)
some_candidates-questions [] = refl
some_candidates-questions (c ∷ cs) = refl

extract-questions :
    (pkg : Package) → questions (extract_typed_gap_candidates pkg) ≡ extract_typed_gaps pkg
unfolding extract_typed_gap_candidates extract_typed_gaps
extract-questions pkg = ground (
  arith,
  some_candidates-questions (typed_candidates pkg.artifacts.gap_candidates),
  typed_candidates-questions pkg.artifacts.gap_candidates,
  plain-questions (stripped pkg.open_questions),
)

questions-append : (xs ys : List Candidate) → questions (xs ++ ys) ≡ questions xs ++ questions ys
questions-append [] ys = refl
questions-append (x ∷ xs) ys = ap (λ rest. x.question ∷ rest) (questions-append xs ys)

-- One department's items, kept on both sides or on neither.
kept-questions :
    (kept public : Bool) (cs later : List Candidate) (gaps others : List String)
    → questions cs ≡ gaps
    → questions later ≡ others
    → questions (if kept then if public then cs ++ later else later else later)
      ≡ (if kept then if public then gaps ++ others else others else others)
kept-questions false public cs later gaps others c r = r
kept-questions true false cs later gaps others c r = r
kept-questions true true cs later gaps others c r = rw (questions-append cs later, c, r) refl

pub public_items-kept {ℓ} :
    {A : Type ℓ} (kept : Bool) (dept : String) (items : List A) (rest : Dict (List A))
    → public_items (if kept then (dept, items) ∷ rest else rest) ≡ (
        if kept
        then if str_mem dept public_evidence_departments
          then items ++ public_items rest
          else public_items rest
        else public_items rest)
unfolding public_items
public_items-kept true dept items rest = refl
public_items-kept false dept items rest = refl

public_items-questions :
    (packages : Dict Envelope)
    → questions (public_items (unresolved_candidates_by_department packages))
      ≡ public_items (unresolved_by_department packages)
unfolding unresolved_candidates_by_department unresolved_by_department
public_items-questions [] = unfold public_items in refl
public_items-questions ((dept, pkg) ∷ rest) =
    let e = extract-questions pkg.raw_package in
    let s = some_candidates-questions (extract_typed_gap_candidates pkg.raw_package) in
    rw (s, e, public_items-kept, public_items-kept)
      (kept-questions (nonempty (extract_typed_gaps pkg.raw_package))
        (str_mem dept public_evidence_departments) (extract_typed_gap_candidates pkg.raw_package) _
        (extract_typed_gaps pkg.raw_package) _ e (public_items-questions rest))

-- The gap candidates of a run are its meeting-critical public gaps, question for question: the two
-- readings of a package find the same gaps, typed or not, in the same order.
pub classify-candidates :
    (packages : Dict Envelope) (matrix : Dict MatrixEntry) (statuses : Dict String)
    → questions (classify packages matrix statuses).meeting_critical_public_gap_candidates
      ≡ (classify packages matrix statuses).meeting_critical_public_gaps
unfolding classify
classify-candidates packages matrix statuses = public_items-questions packages
