-- ===== src/Jobs/Types.antt =====
-- src/jobs/types.ts: the kinds and execution classes of jobs, and the tables over them.
use maids_claw.Common.{ℕ, Bool, ◌==◌}

pub data JobKind : Type 0 where
  memory_migrate memory_organize task_run search_rebuild maintenance_replay_projection
        maintenance_rebuild_derived maintenance_full cognition_thinker :
      JobKind

pub data ExecutionClass : Type 0 where
  interactive_user_turn interactive_delegated_task background_memory_migrate
        background_memory_organize background_search_rebuild background_maintenance_replay
        background_maintenance_rebuild_derived background_maintenance_full background_autonomy
        background_cognition_thinker :
      ExecutionClass

unfoldable pub job_max_attempts : JobKind → ℕ
job_max_attempts memory_migrate = 2
job_max_attempts memory_organize = 4
job_max_attempts task_run = 1
job_max_attempts search_rebuild = 3
job_max_attempts maintenance_replay_projection = 2
job_max_attempts maintenance_rebuild_derived = 3
job_max_attempts maintenance_full = 1
job_max_attempts cognition_thinker = 3

-- `CONCURRENCY_CAPS`
abbrev pub memory_organize_global : ℕ
memory_organize_global = 2

abbrev pub search_rebuild_global : ℕ
search_rebuild_global = 1

abbrev pub maintenance_replay_global : ℕ
maintenance_replay_global = 1

abbrev pub maintenance_rebuild_derived_global : ℕ
maintenance_rebuild_derived_global = 1

abbrev pub maintenance_full_global : ℕ
maintenance_full_global = 1

abbrev pub cognition_thinker_global : ℕ
cognition_thinker_global = 4

unfoldable pub execution_class_priority : ExecutionClass → ℕ
execution_class_priority interactive_user_turn = 1
execution_class_priority interactive_delegated_task = 2
execution_class_priority background_memory_migrate = 3
execution_class_priority background_memory_organize = 4
execution_class_priority background_search_rebuild = 4
execution_class_priority background_maintenance_replay = 4
execution_class_priority background_maintenance_rebuild_derived = 4
execution_class_priority background_maintenance_full = 5
execution_class_priority background_autonomy = 5
execution_class_priority background_cognition_thinker = 3

unfoldable pub kind_code : JobKind → ℕ
kind_code memory_migrate = 0
kind_code memory_organize = 1
kind_code task_run = 2
kind_code search_rebuild = 3
kind_code maintenance_replay_projection = 4
kind_code maintenance_rebuild_derived = 5
kind_code maintenance_full = 6
kind_code cognition_thinker = 7

-- `===` on kinds
unfoldable pub same_kind : JobKind → JobKind → Bool
unfolding kind_code
same_kind a b = kind_code a == kind_code b
