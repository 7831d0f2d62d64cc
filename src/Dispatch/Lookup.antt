-- ===== src/Dispatch/Lookup.antt =====
-- What a key of the queue names after an operation.
use maids_claw.Common.{◌≡◌, refl, ap, ◌∙◌, String, some, List, eq_iff}
use maids_claw.Common.Maps.{get, set, get-set}
use maids_claw.Queue.{StoredJob, JobQueue, Job, enqueue, get_by_key, update_job}

pub get-set_same :
    {A : Type 0} (k : String) (a : A) (m : List (String × A)) → get k (set k a m) ≡ some a
get-set_same k a m = get-set k k a m ∙ rw ((eq_iff k k).1 refl)

pub get_by_key-update_job :
    (id : String) (f : Job → Job) (q : JobQueue) (e : StoredJob)
    → get id q.jobs_by_id ≡ some e
    → (f e.job).job_id ≡ id
    → get_by_key (f e.job).job_key (update_job id f q) ≡ some (f e.job)
unfolding get_by_key update_job
get_by_key-update_job id f q e found own =
    let merged = record e { job = f e.job } in
    let stored : get (f e.job).job_id (set id merged q.jobs_by_id) ≡ some merged =
      ap (λ k. get k (set id merged q.jobs_by_id)) own ∙ get-set_same id merged q.jobs_by_id in
    rw (found, update_job)
      (rw (get-set_same (f e.job).job_key (f e.job).job_id q.jobs_by_key, get_by_key) (rw stored))

pub get_by_key-enqueue :
    (job : Job) (q : JobQueue) → get_by_key job.job_key (enqueue job q) ≡ some job
unfolding get_by_key enqueue
get_by_key-enqueue job q =
    rw (get-set_same job.job_key job.job_id q.jobs_by_key, get_by_key)
      (rw (
        get-set_same job.job_id (record { job = job; enqueue_seq = q.enqueue_counter })
          q.jobs_by_id))
