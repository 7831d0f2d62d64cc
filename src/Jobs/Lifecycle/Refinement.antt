-- ===== src/Jobs/Lifecycle/Refinement.antt =====
-- The store refines the machine of one job, and what follows for every sequence of operations.
use maids_claw.Common.{◌≡◌, ℕ, true, some, List, [], ◌∷◌, String}
use maids_claw.Jobs.Rows.{is_terminal_status, Db, row_of}
use maids_claw.Jobs.Rows.Updates.{Row, UniqueKeys}
use maids_claw.Jobs.Machine.{
  IsSound, RowSteps-IsSound, RowSteps-terminal, ClaimedSince, RowSteps-ClaimedSince,
}
use maids_claw.Jobs.Lifecycle.{
  StoreOp, enqueues, claims, heartbeats, completes, fails, cancels, reclaims, apply_op, run,
}
use maids_claw.Jobs.Lifecycle.Steps.{IsStep, IsStep-refl, IsStep-trans}
use maids_claw.Jobs.Lifecycle.Fenced.{heartbeat-IsStep, cancel-IsStep, fail-IsStep}
use maids_claw.Jobs.Lifecycle.Entering.{enqueue-IsStep, complete-IsStep}
use maids_claw.Jobs.Lifecycle.Claiming.{claim_next-IsStep, reclaim-IsStep}

pub apply_op-IsStep :
    (o : StoreOp) (db : Db)
    → UniqueKeys db.jobs_current
    → IsStep db.jobs_current (apply_op o db).jobs_current
unfolding apply_op
apply_op-IsStep (enqueues input) db u = enqueue-IsStep input db u
apply_op-IsStep (claims env input) db u = claim_next-IsStep env input db u
apply_op-IsStep (heartbeats k v now) db u = heartbeat-IsStep k v db u now
apply_op-IsStep (completes uuid k v now) db u = complete-IsStep uuid k v now db u
apply_op-IsStep (fails k v e) db u = fail-IsStep k v db u e
apply_op-IsStep (cancels k v now) db u = cancel-IsStep k v db u now
apply_op-IsStep (reclaims now) db u = reclaim-IsStep now db u

-- Any sequence of store operations, from tables with unique job keys, keeps the keys unique and takes
-- the row of every job key by steps of the state machine of one job.
pub run-IsStep :
    (os : List StoreOp) (db : Db)
    → UniqueKeys db.jobs_current
    → IsStep db.jobs_current (run os db).jobs_current
unfolding run
run-IsStep [] db u = IsStep-refl u
run-IsStep (o ∷ os) db u =
    let first = apply_op-IsStep o db u in
    IsStep-trans first (run-IsStep os (apply_op o db) first.unique)

-- In tables with unique job keys an ended job is final: no sequence of store operations, of which the
-- deletion of old jobs is none, changes any column of its row.
pub run_terminal :
    (os : List StoreOp) (db : Db) (k : String) {r : Row}
    → UniqueKeys db.jobs_current
    → row_of k db ≡ some r
    → is_terminal_status r.status ≡ true
    → row_of k (run os db) ≡ some r
run_terminal os db k u there ended = RowSteps-terminal ((run-IsStep os db u).advances k) there ended

-- From empty tables, every row has an owner and a lease exactly while it runs, an end time exactly
-- once it has ended, and as many claims as attempts.
pub run-IsSound :
    (os : List StoreOp) (k : String)
    → IsSound (row_of k (run os (record { jobs_current = []; job_attempts = [] })))
run-IsSound os k = RowSteps-IsSound ((run-IsStep os _ tt).advances k) tt

-- The claim version of a job never goes down.
pub run-ClaimedSince :
    (os : List StoreOp) (db : Db) (k : String) (v : ℕ)
    → UniqueKeys db.jobs_current
    → ClaimedSince v (row_of k db)
    → ClaimedSince v (row_of k (run os db))
run-ClaimedSince os db k v u h = RowSteps-ClaimedSince v ((run-IsStep os db u).advances k) h
