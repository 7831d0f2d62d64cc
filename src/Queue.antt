-- ===== src/Queue.antt =====
-- src/jobs/queue.ts, src/jobs/dedup.ts and src/jobs/types.ts: the queue that the dispatcher keeps in
-- memory. What it passes on to a persistence is left out: no operation waits for it or reads from it.
pub mod Selection
pub mod Tables
pub mod Steps
pub mod Runs
use maids_claw.Common.{
  ℕ, ◌+◌, String, Bool, true, false, not, ◌&&◌, ◌||◌, Option, none, some, List, [], ◌∷◌, ltb, ◌==◌,
  if◌then◌else◌, is_some, select, map,
}
use maids_claw.Common.Maps.{get, set, add, remove}
use maids_claw.Jobs.Types.{JobKind, ExecutionClass, execution_class_priority}

pub data JobStatus : Type 0 where
  pending running completed failed cancelled : JobStatus

-- the members of a payload that the dispatcher reads, as texts, and the rest of it
pub record JobPayload : Type 0 where
  pub parent_run_id : Option String
  pub parent_job_id : Option String
  pub rest : String

pub record Job : Type 0 where
  pub job_id : String
  pub job_key : String
  pub kind : JobKind
  pub execution_class : ExecutionClass
  pub session_id : Option String
  pub agent_id : Option String
  pub idempotency_key : Option String
  pub payload : JobPayload
  pub status : JobStatus
  pub attempts : ℕ
  pub max_attempts : ℕ
  pub retriable : Bool
  pub created_at : ℕ
  pub started_at : Option ℕ
  pub completed_at : Option ℕ
  pub error : Option String
  pub ownership_accepted : Bool

pub record StoredJob : Type 0 where
  pub job : Job
  pub enqueue_seq : ℕ

pub record JobQueue : Type 0 where
  pub jobs_by_id : List (String × StoredJob)
  pub jobs_by_key : List (String × String)
  pub pending_job_ids : List String
  pub enqueue_counter : ℕ

abbrev pub new_queue : JobQueue
new_queue = record { jobs_by_id = []; jobs_by_key = []; pending_job_ids = []; enqueue_counter = 0 }

unfoldable pub is_pending : JobStatus → Bool
is_pending pending = true
is_pending _ = false

unfoldable pub is_running : JobStatus → Bool
is_running running = true
is_running _ = false

unfoldable pub enqueue : Job → JobQueue → JobQueue
unfolding is_pending
enqueue job q = record {
  jobs_by_id = set job.job_id (record { job = job; enqueue_seq = q.enqueue_counter }) q.jobs_by_id;
  jobs_by_key = set job.job_key job.job_id q.jobs_by_key;
  pending_job_ids =
      if is_pending job.status then add job.job_id q.pending_job_ids else q.pending_job_ids;
  enqueue_counter = q.enqueue_counter + 1;
}

-- whether a candidate takes the place of the best one so far
unfoldable pub earlier : StoredJob → StoredJob → Bool
unfolding execution_class_priority
earlier c b =
    let pc = execution_class_priority c.job.execution_class in
    let pb = execution_class_priority b.job.execution_class in
    ltb pc pb
    || (pc == pb
        && (ltb c.job.created_at b.job.created_at
            || (c.job.created_at == b.job.created_at && ltb c.enqueue_seq b.enqueue_seq)))

unfoldable pub better : Option StoredJob → StoredJob → StoredJob
unfolding earlier
better none c = c
better (some b) c = if earlier c b then c else b

-- the loop over the pending ids
unfoldable pub best_pending :
    List (String × StoredJob) → List String → Option StoredJob → Option StoredJob
unfolding better
best_pending m [] best = best
best_pending m (id ∷ ids) best = elim (get id m) [
  | none ↦ best_pending m ids best
  | some c ↦ best_pending m ids (some (better best c))
]

-- The loop also drops the pending ids that name no job.
unfoldable pub select_next_pending : JobQueue → Option StoredJob × JobQueue
unfolding best_pending
select_next_pending q = (
  best_pending q.jobs_by_id q.pending_job_ids none,
  record q { pending_job_ids = select (λ id. is_some (get id q.jobs_by_id)) q.pending_job_ids },
)

unfoldable pub dequeue : JobQueue → Option Job × JobQueue
unfolding select_next_pending
dequeue q =
    let (next, q') = select_next_pending q in
    elim next [
      | none ↦ (none, q')
      | some s ↦
          (some s.job, record q' { pending_job_ids = remove s.job.job_id q'.pending_job_ids })
    ]

unfoldable pub peek : JobQueue → Option Job × JobQueue
unfolding select_next_pending
peek q =
    let (next, q') = select_next_pending q in
    elim next [ none ↦ (none, q') | some s ↦ (some s.job, q') ]

-- `getByKey`, whose test `!jobId` finds a missing entry, since no identifier is empty
unfoldable pub get_by_key : String → JobQueue → Option Job
get_by_key key q = elim (get key q.jobs_by_key) [
  | none ↦ none
  | some id ↦ elim (get id q.jobs_by_id) [ none ↦ none | some s ↦ some s.job ]
]

unfoldable pub get_all : JobQueue → List Job
get_all q = map (λ (e : String × StoredJob). (e.1).job) q.jobs_by_id

unfoldable pub sync_pending_state : (previous next : JobStatus) → String → List String → List String
unfolding is_pending
sync_pending_state previous next id ids =
    if not (is_pending previous) && is_pending next
    then add id ids
    else if is_pending previous && not (is_pending next)
    then remove id ids
    else if is_pending next
    then add id ids
    else ids

-- `{ ...existing, ...updates }`, where `updates` is what it does to the job
unfoldable pub update_job : String → (updates : Job → Job) → JobQueue → JobQueue
unfolding sync_pending_state
update_job id updates q = elim (get id q.jobs_by_id) [
  | none ↦ q
  | some existing ↦
      let merged = record existing { job = updates existing.job } in
      record q {
        jobs_by_id = set id merged q.jobs_by_id;
        jobs_by_key = set merged.job.job_key merged.job.job_id q.jobs_by_key;
        pending_job_ids =
            sync_pending_state existing.job.status merged.job.status merged.job.job_id
              q.pending_job_ids;
      }
]

pub data DedupAction : Type 0 where
  accept coalesce drop noop : DedupAction

unfoldable pub check_duplicate : List (String × Job) → String → DedupAction
unfolding is_pending is_running
check_duplicate jobs key = elim (get key jobs) [
  | none ↦ accept
  | some existing ↦
      if is_pending existing.status
      then coalesce
      else if is_running existing.status
      then drop
      else noop
]

-- `JOB_STATE_TRANSITIONS`
unfoldable pub can_transition_job_status : JobStatus → JobStatus → Bool
can_transition_job_status pending running = true
can_transition_job_status pending cancelled = true
can_transition_job_status running completed = true
can_transition_job_status running failed = true
can_transition_job_status running pending = true
can_transition_job_status running cancelled = true
can_transition_job_status failed pending = true
can_transition_job_status _ _ = false
