-- ===== src/Dispatch.antt =====
-- src/jobs/dispatcher.ts: the dispatcher over the queue in memory. A worker is code that runs between
-- two of its steps: `processNext` up to the worker's call is `start_next`, and what follows the call,
-- under what the worker returned or threw, is `end_job`. Events and recovery from a persistence are
-- left out.
pub mod Lookup
pub mod Keys
pub mod Exclusion
pub mod Runs
pub mod Steps
pub mod Once
mod Caps
unfoldable pub use Caps.*
use Prim.Native.String
use maids_claw.Common.{
  ℕ, ◌+◌, String, Bool, true, false, not, ◌&&◌, ◌||◌, Option, none, some, List, [], ◌∷◌, ltb, ◌==◌,
  starts_with, if◌then◌else◌, is_some, or_else, select, find_first, count_of, Result, ok, throw,
}
use maids_claw.Common.Maps.{get, set, has, add, remove}
use maids_claw.Jobs.Types.{
  JobKind, memory_migrate, memory_organize, task_run, search_rebuild, maintenance_replay_projection,
  maintenance_rebuild_derived, maintenance_full, cognition_thinker, job_max_attempts,
  memory_organize_global, search_rebuild_global, maintenance_replay_global,
  maintenance_rebuild_derived_global, maintenance_full_global, execution_class_priority,
}
use maids_claw.Queue.{
  JobStatus, Job, JobQueue, is_pending, enqueue, get_by_key, get_all, update_job, DedupAction,
  accept, check_duplicate,
}

pub record Dispatcher : Type 0 where
  pub workers : JobKind → Bool
  pub queue : JobQueue
  pub jobs_by_key : List (String × Job)
  pub in_flight_by_key : List String

unfoldable pub kind_name : JobKind → String
kind_name memory_migrate = "memory.migrate"
kind_name memory_organize = "memory.organize"
kind_name task_run = "task.run"
kind_name search_rebuild = "search.rebuild"
kind_name maintenance_replay_projection = "maintenance.replay_projection"
kind_name maintenance_rebuild_derived = "maintenance.rebuild_derived"
kind_name maintenance_full = "maintenance.full"
kind_name cognition_thinker = "cognition.thinker"

-- `sort` by priority, time and id; `id_first a b` is `a.localeCompare(b) <= 0`
unfoldable pub no_later : (id_first : String → String → Bool) → Job → Job → Bool
unfolding execution_class_priority
no_later id_first a b =
    let pa = execution_class_priority a.execution_class in
    let pb = execution_class_priority b.execution_class in
    ltb pa pb
    || (pa == pb
        && (ltb a.created_at b.created_at
            || (a.created_at == b.created_at && id_first a.job_id b.job_id)))

unfoldable pub put : (Job → Job → Bool) → Job → List Job → List Job
put first a [] = a ∷ []
put first a (b ∷ bs) = if first a b then a ∷ b ∷ bs else b ∷ put first a bs

unfoldable pub sort : (Job → Job → Bool) → List Job → List Job
unfolding put
sort first [] = []
sort first (a ∷ as') = put first a (sort first as')

unfoldable pub select_next_runnable_job : (String → String → Bool) → Dispatcher → Option Job
unfolding can_run_as sort no_later is_pending get_all
select_next_runnable_job id_first d =
    find_first (λ job. can_run job d.in_flight_by_key)
      (sort (no_later id_first) (select (λ job. is_pending job.status) (get_all d.queue)))

-- `jobsByKey` after the queue's job of the key was looked up
unfoldable pub known_jobs : String → Dispatcher → List (String × Job)
unfolding get_by_key
known_jobs key d = elim (get_by_key key d.queue) [
  | none ↦ d.jobs_by_key
  | some existing ↦ set existing.job_key existing d.jobs_by_key
]

unfoldable pub accepted_job : (uuid : String) → ℕ → Job → Job
unfolding job_max_attempts
accepted_job uuid now spec = record spec {
  job_id = uuid;
  status = JobStatus.pending;
  attempts = 0;
  created_at = now;
  ownership_accepted = false;
  max_attempts = if ltb 0 spec.max_attempts then spec.max_attempts else job_max_attempts spec.kind;
}

-- what `submit` does under the answer of the deduplication
unfoldable pub decide :
    (uuid : String) → ℕ → Job → Dispatcher → DedupAction → Option Job × Dispatcher
unfolding enqueue known_jobs accepted_job
decide uuid now spec d accept =
    let job = accepted_job uuid now spec in
    (
      some job,
      record d {
        queue = enqueue job d.queue;
        jobs_by_key = set job.job_key job (known_jobs spec.job_key d);
      },
    )
decide uuid now spec d _ = (none, record d { jobs_by_key = known_jobs spec.job_key d })

-- `submit`; of the job that is given as its specification, the fields that the dispatcher sets are not
-- read
unfoldable pub submit : (uuid : String) → ℕ → Job → Dispatcher → Option Job × Dispatcher
unfolding check_duplicate known_jobs decide
submit uuid now spec d =
    decide uuid now spec d (check_duplicate (known_jobs spec.job_key d) spec.job_key)

-- `getByKey` and, if there is one, the entry of `jobsByKey`
unfoldable pub refresh : String → Dispatcher → Dispatcher
unfolding get_by_key
refresh key d = elim (get_by_key key d.queue) [
  | none ↦ d
  | some job ↦ record d { jobs_by_key = set job.job_key job d.jobs_by_key }
]

abbrev pub update_queue : String → (Job → Job) → Dispatcher → Dispatcher
unfolding update_job
update_queue id updates d = record d { queue = update_job id updates d.queue }

pub data Started : Type 0 where
  idle : Started
  no_worker : (next : Job) → Started
  vanished : (next : Job) → Started
  works : (next running : Job) → Started

unfoldable pub begin_run : ℕ → Job → Job
begin_run now j = record j {
  ownership_accepted = true;
  status = JobStatus.running;
  started_at = some now;
  attempts = j.attempts + 1;
  error = none;
}

unfoldable pub fail_run : ℕ → String → Job → Job
fail_run now message j = record j {
  status = JobStatus.failed;
  completed_at = some now;
  error = some message;
}

unfoldable pub retry_run : String → Job → Job
retry_run message j = record j { status = JobStatus.pending; error = some message }

unfoldable pub complete_run : ℕ → Job → Job
complete_run now j = record j { status = JobStatus.completed; completed_at = some now }

-- the attempts that `updateJob` writes are those of the selected copy
unfoldable pub start_job : ℕ → Job → Dispatcher → Started × Dispatcher
unfolding concurrency_key_of update_job get_by_key begin_run
start_job now next d =
    let d' =
      update_queue next.job_id (λ j. record (begin_run now j) { attempts = next.attempts + 1 })
        (record d { in_flight_by_key = add (concurrency_key next) d.in_flight_by_key }) in
    elim (get_by_key next.job_key d'.queue) [
      | none ↦ (
        vanished next,
        record d' { in_flight_by_key = remove (concurrency_key next) d'.in_flight_by_key },
      )
      | some running ↦ (
        works next running,
        record d' { jobs_by_key = set running.job_key running d'.jobs_by_key },
      )
    ]

unfoldable pub start_next : (String → String → Bool) → ℕ → Dispatcher → Started × Dispatcher
unfolding select_next_runnable_job start_job refresh fail_run kind_name update_job
start_next id_first now d = elim (select_next_runnable_job id_first d) [
  | none ↦ (idle, d)
  | some next ↦ if d.workers next.kind then start_job now next d else (
    no_worker next,
    refresh next.job_key (
        update_queue next.job_id
          (fail_run now (String.◌++◌ "No worker registered for job kind: " (kind_name next.kind)))
          d),
  )
]

-- what is done to the job of the run, by what the worker did
unfoldable pub settle : ℕ → Result String (Unit {0}) → Job → Dispatcher → Dispatcher
unfolding refresh update_job complete_run retry_run fail_run get_by_key
settle now (ok u) running d =
    refresh running.job_key (update_queue running.job_id (complete_run now) d)
settle now (throw message) running d =
    let current = or_else (get_by_key running.job_key d.queue) running in
    refresh current.job_key (
      update_queue current.job_id
        (if current.retriable && ltb current.attempts current.max_attempts
          then retry_run message
          else fail_run now message)
        d)

unfoldable pub end_job :
    ℕ → Result String (Unit {0}) → (next running : Job) → Dispatcher → Dispatcher
unfolding settle concurrency_key_of
end_job now outcome next running d =
    let d' = settle now outcome running d in
    record d' { in_flight_by_key = remove (concurrency_key next) d'.in_flight_by_key }
