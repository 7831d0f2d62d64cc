-- ===== src/Dispatch/Caps.antt =====
-- src/jobs/dispatcher.ts: the concurrency key of a job, and the caps on the keys in flight.
use Prim.Native.String
use maids_claw.Common.{ℕ, String, Bool, true, not, List, ltb, starts_with, or_else, count_of}
use maids_claw.Common.Maps.{has}
use maids_claw.Jobs.Types.{
  JobKind, memory_migrate, memory_organize, task_run, search_rebuild, maintenance_replay_projection,
  maintenance_rebuild_derived, maintenance_full, cognition_thinker, memory_organize_global,
  search_rebuild_global, maintenance_replay_global, maintenance_rebuild_derived_global,
  maintenance_full_global,
}
use maids_claw.Queue.{Job}

infixr 60 ◌++◌
abbrev pub ◌++◌ : String → String → String
s ++ t = String.◌++◌ s t

unfoldable pub parent_run_id : Job → String
parent_run_id job = or_else job.payload.parent_run_id (
    or_else job.payload.parent_job_id
      (or_else job.idempotency_key (or_else job.session_id "default-parent")))

unfoldable pub concurrency_key_of : JobKind → Job → String
unfolding parent_run_id
concurrency_key_of memory_migrate job =
    "memory.migrate:"
    ++ or_else job.agent_id "unknown-agent"
    ++ ":"
    ++ or_else job.session_id "unknown-session"
    ++ ":1"
concurrency_key_of memory_organize job = "memory.organize:global"
concurrency_key_of search_rebuild job = "search.rebuild:global"
concurrency_key_of maintenance_replay_projection job = "maintenance.replay_projection:global"
concurrency_key_of maintenance_rebuild_derived job = "maintenance.rebuild_derived:global"
concurrency_key_of maintenance_full job = "maintenance.full:global"
concurrency_key_of _ job = "task.run:" ++ parent_run_id job ++ ":1"

abbrev pub concurrency_key : Job → String
unfolding concurrency_key_of
concurrency_key job = concurrency_key_of job.kind job

-- fewer than `cap` keys in flight start with the prefix
unfoldable pub below : String → ℕ → List String → Bool
below prefix cap keys = ltb (count_of (λ k. starts_with k prefix) keys) cap

unfoldable pub can_run_as : JobKind → Job → List String → Bool
unfolding below concurrency_key_of
can_run_as memory_migrate job keys = not (has (concurrency_key_of memory_migrate job) keys)
can_run_as memory_organize job keys = below "memory.organize:global" memory_organize_global keys
can_run_as task_run job keys = not (has (concurrency_key_of task_run job) keys)
can_run_as search_rebuild job keys = below "search.rebuild:global" search_rebuild_global keys
can_run_as maintenance_replay_projection job keys =
    below "maintenance.replay_projection:global" maintenance_replay_global keys
can_run_as maintenance_rebuild_derived job keys =
    below "maintenance.rebuild_derived:global" maintenance_rebuild_derived_global keys
can_run_as maintenance_full job keys = below "maintenance.full:global" maintenance_full_global keys
can_run_as cognition_thinker job keys = true

abbrev pub can_run : Job → List String → Bool
unfolding can_run_as
can_run job keys = can_run_as job.kind job keys
