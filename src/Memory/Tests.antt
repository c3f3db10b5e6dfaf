-- ===== src/Memory/Tests.antt =====
-- The memory's theorems at a run with one merged working set.
use multi_agent_intel_pipeli.Prelude.{String, ◌≡◌, refl, some, [], ◌∷◌, lookup, true, none, get_or}
use multi_agent_intel_pipeli.Value.{Value, str}
use multi_agent_intel_pipeli.Memory.{
  ShortTermMemoryStore, Keys, empty_store, create_working_set, delta_from, merge_from,
  fresh_assessment,
}
use multi_agent_intel_pipeli.Memory.Parallel.{Job, parallel_phase, parallel_phase-status}
use multi_agent_intel_pipeli.Python.{Python}
use multi_agent_intel_pipeli.Memory.Writes.{mark_critic_review}
use multi_agent_intel_pipeli.Memory.Reviewed.{mark_critic_review-merged}
use multi_agent_intel_pipeli.Memory.WorkingSet.{merge_from-untouched}

abbrev text : Value → String
text (str s) = s
text _ = ""

abbrev python : Python
python = record { lower = λ s. s; text = text; format = λ template fields. template }

abbrev keys : Keys
keys = record { item = text; url = text }

-- The supervisor degraded the task, and another waits.
abbrev memory : ShortTermMemoryStore
memory = record empty_store {
  facts = str "Acme makes anvils." ∷ [];
  task_statuses = ("company_fundamentals", "degraded") ∷ ("peer_companies", "pending") ∷ [];
}

-- The department's critic approved it.
abbrev working_set : ShortTermMemoryStore
working_set = record empty_store {
  task_statuses = ("company_fundamentals", "accepted") ∷ ("peer_companies", "pending") ∷ [];
}

merge_from-untouched_example :
    let ws = create_working_set memory in
    merge_from memory (delta_from keys ws ws)
    ≡ record memory { meeting_readiness_assessment = fresh_assessment }
unfolding lookup
merge_from-untouched_example =
    merge_from-untouched keys memory (refl, (refl, tt))
      (refl, (refl, (refl, (refl, (refl, (refl, tt))))))

-- The supervisor degraded the task after the working set was created.
mark_critic_review-merged_example :
    lookup "company_fundamentals"
      (merge_from memory (
        delta_from keys
          (mark_critic_review python "company_fundamentals" true [] none none
            (create_working_set empty_store))
          (create_working_set empty_store))).task_statuses
    ≡ some "accepted"
unfolding lookup
mark_critic_review-merged_example =
    mark_critic_review-merged python keys empty_store memory "company_fundamentals" true [] none
      none "company_fundamentals" tt

-- Two departments that run side by side; the second one's worker has only reported.
abbrev company : Job
company = record {
  task_keys = "company_fundamentals" ∷ [];
  working_set = working_set;
  baseline = memory;
  status_by_task = ("company_fundamentals", "degraded") ∷ [];
}

abbrev market : Job
market = record {
  task_keys = "market_situation" ∷ [];
  working_set = record memory {
    task_statuses = ("market_situation", "pending") ∷ memory.task_statuses;
  };
  baseline = memory;
  status_by_task = ("market_situation", "accepted") ∷ [];
}

parallel_phase-status_example :
    lookup "market_situation"
      (parallel_phase keys (company ∷ market ∷ []) (market ∷ company ∷ []) memory).task_statuses
    ≡ some "accepted"
unfolding lookup get_or
parallel_phase-status_example =
    parallel_phase-status keys "market_situation" market refl (refl, (refl, (refl, tt)))
      (company ∷ []) [] [] (company ∷ []) memory ((refl, refl), tt) tt tt ((refl, refl), tt) tt
      ((refl, (refl, tt)), tt)
