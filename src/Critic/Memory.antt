-- ===== src/Critic/Memory.antt =====
-- src/agents/critic.py: `_select_critic_memory_guidance`, which picks process guidance from the
-- role's long-term memory.
use multi_agent_intel_pipeli.Prelude.{
  ℕ, String, List, [], ◌∷◌, ◌++◌, Option, none, some, ◌==◌, if◌then◌else◌, nonempty_text, take, not,
  ◌&&◌,
}

-- The `critic_acceptance_heuristic` dict of a memory entry.
pub record Heuristic : Type 0 where
  pub accepted_fields : List String
  pub core_passed : ℕ
  pub core_total : ℕ
  pub evidence_strength : String

-- One memory entry; `heuristic` is `none` where the entry holds no such dict.
pub record RoleMemory : Type 0 where
  pub task_key : String
  pub heuristic : Option Heuristic

pub record Guidance : Type 0 where
  pub task_key : String
  pub heuristic : Heuristic

-- What one entry adds to the guidance.
guidance_of : String → RoleMemory → Option Heuristic → List Guidance
guidance_of task_key mem none = []
guidance_of task_key mem (some h) =
    record {
      task_key = (if nonempty_text mem.task_key then mem.task_key else task_key);
      heuristic = record h {
        accepted_fields = take 10 h.accepted_fields;
        evidence_strength =
            (if nonempty_text h.evidence_strength then h.evidence_strength else "unknown");
      };
    }
    ∷ []

collect : String → List RoleMemory → List Guidance
unfolding guidance_of
collect task_key [] = []
collect task_key (mem ∷ mems) =
    let other_task = nonempty_text mem.task_key && not (mem.task_key == task_key) in
    (if other_task then [] else guidance_of task_key mem mem.heuristic) ++ collect task_key mems

unfoldable pub select_critic_memory_guidance : String → List RoleMemory → List Guidance
unfolding collect
select_critic_memory_guidance task_key role_memory = take 3 (collect task_key (take 5 role_memory))
