-- ===== src/Queue/Runs.antt =====
-- No sequence of operations takes the tables of the queue apart.
use maids_claw.Common.{◌≡◌, String, none, List, [], ◌∷◌}
use maids_claw.Common.Maps.{get}
use maids_claw.Queue.{JobQueue, Job, enqueue, dequeue, update_job}
use maids_claw.Queue.Tables.{IsConsistent}
use maids_claw.Queue.Steps.{enqueue-IsConsistent, dequeue-IsConsistent, update_job-IsConsistent}

pub data QueueOp : Type 0 where
  enqueues : Job → QueueOp
  dequeues : QueueOp
  updates : (job_id : String) → (Job → Job) → QueueOp

unfoldable pub apply_op : QueueOp → JobQueue → JobQueue
apply_op (enqueues job) q = enqueue job q
apply_op dequeues q = (dequeue q).1
apply_op (updates id f) q = update_job id f q

unfoldable pub run : List QueueOp → JobQueue → JobQueue
unfolding apply_op
run [] q = q
run (o ∷ os) q = run os (apply_op o q)

-- an enqueued id is new, and an update keeps the id
abbrev pub IsAllowed : QueueOp → JobQueue → Type 0
IsAllowed (enqueues job) q = get job.job_id q.jobs_by_id ≡ none
IsAllowed dequeues q = Unit
IsAllowed (updates id f) q = (j : Job) → (f j).job_id ≡ j.job_id

abbrev pub AreAllowed : List QueueOp → JobQueue → Type 0
AreAllowed [] q = Unit
AreAllowed (o ∷ os) q = IsAllowed o q × AreAllowed os (apply_op o q)

apply_op-IsConsistent :
    (o : QueueOp) (q : JobQueue) → IsConsistent q → IsAllowed o q → IsConsistent (apply_op o q)
unfolding apply_op
apply_op-IsConsistent (enqueues job) q good fresh = enqueue-IsConsistent job q good fresh
apply_op-IsConsistent dequeues q good a = dequeue-IsConsistent q good
apply_op-IsConsistent (updates id f) q good keeps = update_job-IsConsistent q good id f keeps

-- Enqueues under new ids, dequeues and updates that keep the id, in any order, keep a queue consistent:
-- every id names the job of that id, every pending id names a job that waits, and no two jobs have the
-- same sequence number.
pub run-IsConsistent :
    (os : List QueueOp) (q : JobQueue) → IsConsistent q → AreAllowed os q → IsConsistent (run os q)
unfolding run
run-IsConsistent [] q good a = good
run-IsConsistent (o ∷ os) q good (a, as') =
    run-IsConsistent os (apply_op o q) (apply_op-IsConsistent o q good a) as'
