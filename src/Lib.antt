-- ===== src/Lib.antt =====
-- The decision core of the multi-agent intelligence pipeline: what happens to a task from its
-- research to the status that the run ends with. Language models, searches and files are outside
-- of it; what they answer is an argument of the definitions.
--
-- The program's parts and their modules, each with its source from the repository's root:
--   Critic      src/agents/critic.py: rules on a payload, and the review made from their results
--   Judge       src/agents/judge.py: the decision on a review
--   Contracts   src/orchestration/contracts.py: outcomes, artifacts, and a department's run state
--   Department  src/agents/lead.py: the tools of a department's chat, on the run state. `Research`
--               is the tool run_research with its guards, `Review` the tools that review, refine and
--               judge, and `Chat` a sequence of calls of these and of finalize_package. `Settle` and `Package` are
--               what the tool finalize_package makes of the tasks, `Finalize` the tool itself,
--               `Fallback` the package of a chat without it, and `SafeText` the escaping
--   PolicyGate  src/orchestration/department_knowledge.py: the gate on a package by its policy
--   SpeakerSelector  src/orchestration/speaker_selector.py: who speaks next in a chat
--   AnswerMatrix     src/orchestration/meeting_questions.py and the writes to the matrix
--   Backlog     src/app/use_cases.py: the standard tasks and their rules
--   TaskRouter  src/orchestration/task_router.py: the assignment
--   Supervisor  src/orchestration/supervisor_loop.py: the acceptance gate, the tasks' statuses, and
--               the sequential phase with the run conditions of src/orchestration/task_router.py
--               `Submissions` is the supervisor's acceptance in src/agents/supervisor.py
--   Resolution  src/orchestration/resolution_controller.py, and src/app/use_cases.py for the status
--   Readiness   src/orchestration/meeting_readiness.py: the gate of meeting readiness
--   Finalization     src/pipeline_runner.py: the final status
--   Models      src/models/meeting_ready.py: the typed artifacts
--   StepBus     src/orchestration/step_bus.py: the trace of runtime steps without duplicates
--   RuntimeStep src/orchestration/runtime_step.py: the validator of runtime steps
--   Memory      src/memory/short_term_store.py: the run's memory, what departments write to it
--               (`Writes`), the working sets of departments that run side by side, and saving and
--               loading (`Snapshot`)
--               `Memory.Parallel` is what the departments that src/orchestration/supervisor_loop.py
--               runs side by side leave of the tasks' statuses
--   SsrfGuard   src/research/ssrf_guard.py and the start of a fetch in src/research/fetch.py: which
--               addresses a connection may be opened to
--   Python      what is taken from Python's texts: lower(), str() and format()
--   Value       the JSON values without a schema
--   Prelude     shared names, Python's list, text and dict operations
--
-- A department's lead assigns tasks to a chat. Each tool of the chat reads and writes the
-- department's run state: research adds an artifact, the critic a review, the judge a decision,
-- and finalize_package makes the package from it. The supervisor admits the department's package
-- through the gate and writes the tasks' statuses to the answer matrix. The controller classifies
-- what is left open, and the readiness gate and the controller's bucket settle the final status.
--
-- State is passed explicitly: a tool is a function from a session to a session and a reply. A
-- dict is an association list in insertion order. Exceptions are values: `Option` where Python
-- raises, a constructor of the reply where the tool catches. Numbers are natural numbers, as all
-- counts of the program are, but for the differences of usage totals, which are integers. No
-- definition but `decimal`, which prints a number, runs on fuel: its fuel is above the number and
-- so above the count of the number's digits.
--
-- Arguments of the model, with no assumption on them unless a theorem names it: the worker's
-- report and the schema check's verdict, the coding specialist's queries, the department's answer
-- in the supervisor's loop, `str.lower`, pydantic's dump and load of the typed artifacts, and the
-- name server's answers.
--
-- Not modelled: prompts, messages, logs, and the building of runtime steps; the shadow record of
-- src/orchestration/assurance.py, which no decision reads; the supervisor's parallel phase, of
-- which only what it writes to the memory's statuses is there (`Memory.Parallel`); the synthesis.
-- They are I/O or come later.
pub mod Prelude
pub mod Value
pub mod Models
pub mod Contracts
pub mod Critic
pub mod Judge
pub mod TaskRouter
pub mod Department
pub mod SpeakerSelector
pub mod AnswerMatrix
pub mod Supervisor
pub mod Readiness
pub mod Resolution
pub mod Finalization
pub mod Python
pub mod PolicyGate
pub mod Memory
pub mod RuntimeStep
pub mod SsrfGuard
pub mod StepBus
pub mod Backlog
