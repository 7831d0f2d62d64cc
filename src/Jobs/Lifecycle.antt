-- ===== src/Jobs/Lifecycle.antt =====
-- The operations of `PgJobStore` that workers and sweeps call, as events on the two tables. Each is one
-- transaction, and one runs after the other; one that raises is rolled back.
pub mod Steps
pub mod Fenced
pub mod Entering
pub mod Claiming
pub mod Refinement
pub mod Fencing
pub mod Families
pub mod Rerun
pub mod Attempts
pub mod Quiet
use maids_claw.Common.{ℕ, String, Option, none, some, List, [], ◌∷◌, Result, ok, throw}
use maids_claw.Jobs.Rows.{PgJobCurrentRow, Db}
use maids_claw.Jobs.Enqueue.{EnqueueJobInput, StoreFault, enqueue, alone}
use maids_claw.Jobs.Claim.{ClaimEnv, ClaimNextInput, claim_next}
use maids_claw.Jobs.Fence.{PgJobFailInput, heartbeat, complete, fail, cancel}
use maids_claw.Jobs.Sweep.{reclaim_expired_leases}

pub data StoreOp : Type 0 where
  enqueues : EnqueueJobInput → StoreOp
  claims : ClaimEnv → ClaimNextInput → StoreOp
  heartbeats : (job_key : String) (claim_version now : ℕ) → StoreOp
  completes : (uuid job_key : String) (claim_version now : ℕ) → StoreOp
  fails : (job_key : String) (claim_version : ℕ) → PgJobFailInput → StoreOp
  cancels : (job_key : String) (claim_version now : ℕ) → StoreOp
  reclaims : (now : ℕ) → StoreOp

-- commit or roll back
abbrev pub committed : {A : Type 0} → Db → Result StoreFault (A × Db) → Db
committed db (ok (a, db')) = db'
committed db (throw e) = db

abbrev pub claimed : Db → Option (Result StoreFault (Option (PgJobCurrentRow × Db))) → Db
claimed db (some (ok (some (r, db')))) = db'
claimed db (some (ok none)) = db
claimed db (some (throw e)) = db
claimed db none = db

unfoldable pub apply_op : StoreOp → Db → Db
apply_op (enqueues input) db = committed db (enqueue alone input db)
apply_op (claims env input) db = claimed db (claim_next env input db)
apply_op (heartbeats k v now) db = (heartbeat k v now db).1
apply_op (completes uuid k v now) db = committed db (complete uuid k v now db)
apply_op (fails k v e) db = (fail k v e db).1
apply_op (cancels k v now) db = (cancel k v now db).1
apply_op (reclaims now) db = (reclaim_expired_leases now db).1

unfoldable pub run : List StoreOp → Db → Db
unfolding apply_op
run [] db = db
run (o ∷ os) db = run os (apply_op o db)
