-- ===== src/Dispatch/Runs.antt =====
-- How a run ends: completed, tried again, or failed.
use maids_claw.Common.{
  ◌≡◌, refl, sym, ap, ◌∙◌, ℕ, ◌<◌, ◌≤◌, ◌⊎◌, String, true, false, ◌&&◌, some, arith, eq_iff,
  Option-cases, Bool-cases, inl, inr, if◌then◌else◌, ltb, ltb→lt, Result, ok, throw,
}
use maids_claw.Common.Maps.{get, has, has-remove}
use maids_claw.Queue.{
  JobStatus, StoredJob, Job, JobQueue, is_running, get_by_key, update_job,
  can_transition_job_status,
}
use maids_claw.Dispatch.{
  Dispatcher, concurrency_key, refresh, update_queue, complete_run, retry_run, fail_run, settle,
  end_job,
}
use maids_claw.Dispatch.Lookup.{get_by_key-update_job}

-- a run of `j` that ended in `s`, by what its worker did
pub data Settles (j s : Job) : Result String (Unit {0}) → Type 0 where
  completes : s.status ≡ JobStatus.completed → Settles j s (ok tt)
  retries :
      (message : String)
      → s.status ≡ JobStatus.pending
      → j.retriable ≡ true
      → j.attempts < j.max_attempts
      → s.error ≡ some message
      → Settles j s (throw message)
  fails :
      (message : String)
      → s.status ≡ JobStatus.failed
      → (j.retriable ≡ false) ⊎ (j.max_attempts ≤ j.attempts)
      → s.error ≡ some message
      → Settles j s (throw message)

-- what becomes of a job whose run ended
pub record Ended (outcome : Result String (Unit {0})) (j : Job) (key : String) (q : JobQueue)
    : Type 0 where
  pub job : Job
  pub found : get_by_key key q ≡ some job
  pub settles : Settles j job outcome
  pub attempts : job.attempts ≡ j.attempts
  pub legal : is_running j.status ≡ true → can_transition_job_status j.status job.status ≡ true

refresh_queue : (key : String) (d : Dispatcher) → (refresh key d).queue ≡ d.queue
unfolding refresh
refresh_queue key d = elim (Option-cases (get_by_key key d.queue)) [
  | inl missing ↦ rw (missing, refresh)
  | inr (j, there) ↦ rw (there, refresh)
]

running_to :
    (s t : JobStatus)
    → is_running s ≡ true
    → can_transition_job_status JobStatus.running t ≡ true
    → can_transition_job_status s t ≡ true
unfolding is_running can_transition_job_status
running_to s t r h = ground arith

module _ (now : ℕ) (running : Job) (d : Dispatcher) (e : StoredJob)
    (found : get running.job_id d.queue.jobs_by_id ≡ some e)
    (named : get_by_key running.job_key d.queue ≡ some e.job) (own : e.job.job_id ≡ running.job_id)
    (key : e.job.job_key ≡ running.job_key) where
  updated :
      (f : Job → Job)
      → (f e.job).job_id ≡ e.job.job_id
      → (f e.job).job_key ≡ e.job.job_key
      → get_by_key running.job_key (update_job running.job_id f d.queue) ≡ some (f e.job)
  updated f keeps same =
      ap (λ k. get_by_key k (update_job running.job_id f d.queue)) (sym (same ∙ key))
      ∙ get_by_key-update_job running.job_id f d.queue e found (keeps ∙ own)

  choose : String → Job → Job
  choose message =
      if e.job.retriable && ltb e.job.attempts e.job.max_attempts
      then retry_run message
      else fail_run now message

  settle_throw :
      (message : String)
      → (settle now (throw message) running d).queue
        ≡ update_job running.job_id (choose message) d.queue
  unfolding settle choose
  settle_throw message =
      rw (named, settle)
        (refresh_queue e.job.job_key _ ∙ ap (λ i. update_job i (choose message) d.queue) own)

  thrown :
      (message : String) (f : Job → Job)
      → choose message ≡ f
      → (f e.job).job_id ≡ e.job.job_id
      → (f e.job).job_key ≡ e.job.job_key
      → get_by_key running.job_key (settle now (throw message) running d).queue ≡ some (f e.job)
  thrown message f chosen keeps same =
      ap (get_by_key running.job_key)
        (settle_throw message ∙ ap (λ g. update_job running.job_id g d.queue) chosen)
      ∙ updated f keeps same

  settle-Ended :
      (outcome : Result String (Unit {0}))
      → Ended outcome e.job running.job_key (settle now outcome running d).queue
  unfolding settle complete_run retry_run fail_run can_transition_job_status
  settle-Ended (ok tt) = record {
    job = complete_run now e.job;
    found =
        ap (get_by_key running.job_key)
          (refresh_queue running.job_key (update_queue running.job_id (complete_run now) d))
        ∙ updated (complete_run now) refl refl;
    settles = completes refl;
    attempts = refl;
    legal = λ r. running_to e.job.status JobStatus.completed r refl;
  }
  settle-Ended (throw message) =
      elim (Bool-cases (e.job.retriable && ltb e.job.attempts e.job.max_attempts)) [
        | inl again ↦ record {
          job = retry_run message e.job;
          found = thrown message (retry_run message) (unfold choose in rw again refl) refl refl;
          settles = retries message refl (ground arith) (ltb→lt _ _ (ground arith)) refl;
          attempts = refl;
          legal = λ r. running_to e.job.status JobStatus.pending r refl;
        }
        | inr over ↦ record {
          job = fail_run now message e.job;
          found = thrown message (fail_run now message) (unfold choose in rw over refl) refl refl;
          settles = fails message refl (given_up over) refl;
          attempts = refl;
          legal = λ r. running_to e.job.status JobStatus.failed r refl;
        }
      ]
    where
      given_up :
          e.job.retriable && ltb e.job.attempts e.job.max_attempts ≡ false
          → (e.job.retriable ≡ false) ⊎ (e.job.max_attempts ≤ e.job.attempts)
      given_up h = ground arith

-- When a run of a job that the queue holds ends, its key is free, and the queue holds the job completed
-- if the worker returned; if it threw, waiting again with its error if the job can be retried and has
-- attempts left, and else failed; with its attempts as they were, and if it was running, by a legal
-- transition.
pub end_job-Ended :
    (now : ℕ) (outcome : Result String (Unit {0})) (next running : Job) (d : Dispatcher)
    (e : StoredJob)
    → get running.job_id d.queue.jobs_by_id ≡ some e
    → get_by_key running.job_key d.queue ≡ some e.job
    → e.job.job_id ≡ running.job_id
    → e.job.job_key ≡ running.job_key
    → Ended outcome e.job running.job_key (end_job now outcome next running d).queue
      × (has (concurrency_key next) (end_job now outcome next running d).in_flight_by_key ≡ false)
unfolding end_job
end_job-Ended now outcome next running d e found named own key = (
  settle-Ended now running d e found named own key outcome,
  has-remove (concurrency_key next) (concurrency_key next)
        (settle now outcome running d).in_flight_by_key
      ∙ rw ((eq_iff (concurrency_key next) (concurrency_key next)).1 refl),
)
