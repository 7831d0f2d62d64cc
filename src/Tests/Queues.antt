-- ===== src/Tests/Queues.antt =====
-- Runs of the queue.
use maids_claw.Common.{◌≡◌, refl, ℕ, String, true, false, ◌⊎◌, none, some, List, [], ◌∷◌}
use maids_claw.Common.Maps.{has}
use maids_claw.Jobs.Types.{ExecutionClass, task_run, background_autonomy, interactive_user_turn}
use maids_claw.Queue.{JobQueue, StoredJob, Job, pending, running, new_queue, enqueue, dequeue}
use maids_claw.Queue.Tables.{IsConsistent, HandsOut, dequeue_lem, new_queue-IsConsistent}
use maids_claw.Queue.Runs.{QueueOp, enqueues, dequeues, updates, run, AreAllowed, run-IsConsistent}

abbrev pub job : (id : String) → ExecutionClass → ℕ → Job
job id class now = record {
  job_id = id;
  job_key = id;
  kind = task_run;
  execution_class = class;
  session_id = none;
  agent_id = none;
  idempotency_key = none;
  payload = record { parent_run_id = none; parent_job_id = none; rest = "{}" };
  status = pending;
  attempts = 0;
  max_attempts = 2;
  retriable = true;
  created_at = now;
  started_at = none;
  completed_at = none;
  error = none;
  ownership_accepted = false;
}

abbrev start : Job → Job
start j = record j { status = running }

abbrev steps : List QueueOp
steps =
    enqueues (job "a" background_autonomy 1)
    ∷ enqueues (job "b" interactive_user_turn 2)
    ∷ enqueues (job "c" background_autonomy 1)
    ∷ dequeues
    ∷ updates "b" start
    ∷ []

steps-AreAllowed : AreAllowed steps new_queue
unfolding run dequeue enqueue
steps-AreAllowed = (refl, (refl, (refl, (tt, ((λ j. refl), tt)))))

run-IsConsistent_example : IsConsistent (run steps new_queue)
run-IsConsistent_example = run-IsConsistent steps new_queue new_queue-IsConsistent steps-AreAllowed

abbrev two_left : JobQueue
two_left = run steps new_queue

two_left-IsConsistent : IsConsistent two_left
two_left-IsConsistent = run-IsConsistent steps new_queue new_queue-IsConsistent steps-AreAllowed

dequeue_lem_example :
    (((dequeue two_left).0 ≡ none) × ((id : String) → has id two_left.pending_job_ids ≡ false))
    ⊎ ((s : StoredJob) × (((dequeue two_left).0 ≡ some s.job)
          × HandsOut two_left s (dequeue two_left).1))
dequeue_lem_example = dequeue_lem two_left two_left-IsConsistent
