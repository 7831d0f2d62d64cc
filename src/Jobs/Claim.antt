-- ===== src/Jobs/Claim.antt =====
-- src/jobs/pg-store.ts, `claimNext`: the scan for a job that may run, in batches, and its claim. What
-- Postgres and the other transactions decide is the argument `env`. It is one answer for the whole
-- call: nothing else commits between two rounds of the scan, and a query has the same answer in each.
pub mod Scan
pub mod Take
pub mod Ready
pub mod Caps
pub mod Order
mod Room
unfoldable pub use Room.*
use Prim.Native.String
use Prim.Native.String.{slice}
use text.Mathlib.Text.{find?}
use maids_claw.Common.{
  ℕ, zero, suc, ◌+◌, String, Bool, true, false, not, ◌&&◌, ◌||◌, Option, none, some, List, [], ◌∷◌,
  ◌++◌, str_eq, ◌==◌, ltb, leb, if◌then◌else◌, or_else, is_some, any_of, count_of, select,
  find_first, take, drop, length, Result, ok, throw, ◌>>=◌,
}
use maids_claw.Jobs.Types
use maids_claw.Jobs.Types.{
  ExecutionClass, interactive_user_turn, interactive_delegated_task, background_memory_migrate,
  background_memory_organize, background_search_rebuild, background_autonomy, search_rebuild_global,
  memory_organize_global, maintenance_replay_global, maintenance_rebuild_derived_global,
  maintenance_full_global, cognition_thinker_global, JobKind, same_kind,
}
use maids_claw.Jobs.Rows.{
  PgJobStatus, PgJobAttemptOutcome, is_pending, is_running, job_type, PgJobCurrentRow,
  PgJobAttemptHistoryRow, Db, update_where, has_key,
}
use maids_claw.Jobs.Enqueue.{StoreFault, unique_violation}

-- the `CASE execution_class` of the claim's `ORDER BY`
unfoldable pub claim_rank : ExecutionClass → ℕ
claim_rank interactive_user_turn = 1
claim_rank interactive_delegated_task = 2
claim_rank background_memory_migrate = 3
claim_rank background_memory_organize = 4
claim_rank background_search_rebuild = 4
claim_rank background_autonomy = 5
claim_rank _ = 9

-- the `ORDER BY`: whether `a` may stand before `b`
unfoldable pub claim_order : PgJobCurrentRow → PgJobCurrentRow → Bool
unfolding claim_rank
claim_order a b =
    ltb (claim_rank a.execution_class) (claim_rank b.execution_class)
    || (claim_rank a.execution_class == claim_rank b.execution_class
        && leb a.next_attempt_at b.next_attempt_at)

-- `order_by` sorts, `locked` are the rows that `SKIP LOCKED` skips, `lock` is the answer of
-- `pg_try_advisory_xact_lock`, and the cap is the option of the store's constructor.
pub record ClaimEnv : Type 0 where
  pub order_by :
      (PgJobCurrentRow → PgJobCurrentRow → Bool) → List PgJobCurrentRow → List PgJobCurrentRow
  pub locked : PgJobCurrentRow → Bool
  pub lock : String → Bool
  pub thinker_global_concurrency_cap : Option ℕ

pub record ClaimNextInput : Type 0 where
  pub worker_id : String
  pub now_ms : ℕ
  pub lease_duration_ms : ℕ

unfoldable pub claim_row : ClaimNextInput → PgJobCurrentRow → PgJobCurrentRow
claim_row input r = record r {
  status = PgJobStatus.running;
  claim_version = r.claim_version + 1;
  claimed_by = some input.worker_id;
  claimed_at = some input.now_ms;
  lease_expires_at = some (input.now_ms + input.lease_duration_ms);
  last_heartbeat_at = some input.now_ms;
  attempt_count = r.attempt_count + 1;
  updated_at = input.now_ms;
}

unfoldable pub new_attempt : ClaimNextInput → PgJobCurrentRow → PgJobAttemptHistoryRow
new_attempt input r = record {
  job_key = r.job_key;
  job_family_key = r.job_family_key;
  execution_class = r.execution_class;
  concurrency_key = r.concurrency_key;
  claim_version = r.claim_version;
  attempt_no = r.attempt_count;
  worker_id = input.worker_id;
  outcome = PgJobAttemptOutcome.running;
  payload_schema_version = r.payload_schema_version;
  payload_snapshot_json = r.payload_json;
  family_state_snapshot_json = r.family_state_json;
  started_at = input.now_ms;
  last_heartbeat_at = some input.now_ms;
  lease_expires_at = input.now_ms + input.lease_duration_ms;
  finished_at = none;
  error_code = none;
  error_message = none;
  backoff_until = none;
}

-- `WHERE job_key = k AND status = 'pending'`
unfoldable pub waits : String → PgJobCurrentRow → Bool
unfolding is_pending
waits k r = str_eq r.job_key k && is_pending r.status

-- the unique index `ux_job_attempts_job_key_claim_version`
unfoldable pub same_claim : String → ℕ → PgJobAttemptHistoryRow → Bool
same_claim k v a = str_eq a.job_key k && a.claim_version == v

unfoldable pub insert_attempt : PgJobAttemptHistoryRow → Db → Result StoreFault Db
unfolding same_claim
insert_attempt a db =
    if any_of (same_claim a.job_key a.claim_version) db.job_attempts
    then throw unique_violation
    else ok (record db { job_attempts = db.job_attempts ++ a ∷ [] })

-- the `UPDATE … RETURNING *` of the candidate and the `INSERT` of its attempt; `none` if no row came
-- back
unfoldable pub take_claim :
    ClaimNextInput → PgJobCurrentRow → Db → Result StoreFault (Option (PgJobCurrentRow × Db))
unfolding waits claim_row new_attempt insert_attempt
take_claim input candidate db = elim (find_first (waits candidate.job_key) db.jobs_current) [
  | none ↦ ok none
  | some r ↦
      let claimed = claim_row input r in
      let jobs = update_where (waits candidate.job_key) (claim_row input) db.jobs_current in
      elim (insert_attempt (new_attempt input claimed) (record db { jobs_current = jobs })) [
        | ok db' ↦ ok (some (claimed, db'))
        | throw e ↦ throw e
      ]
]

-- `continue` while nothing is claimed
abbrev pub or_continue :
    Result StoreFault (Option (PgJobCurrentRow × Db))
    → Result StoreFault (Option (PgJobCurrentRow × Db))
    → Result StoreFault (Option (PgJobCurrentRow × Db))
or_continue (throw e) rest = throw e
or_continue (ok (some done)) rest = ok (some done)
or_continue (ok none) rest = rest

-- one candidate: the advisory lock, the caps, the claim
unfoldable pub try_claim :
    ClaimEnv
    → ClaimNextInput
    → Db
    → PgJobCurrentRow
    → Result StoreFault (Option (PgJobCurrentRow × Db))
unfolding has_room take_claim
try_claim env input db r =
    if env.lock r.concurrency_key && has_room env.thinker_global_concurrency_cap r db
    then take_claim input r db
    else ok none

-- the `for` over a batch; `none` is the end of the batch
unfoldable pub scan_batch :
    ClaimEnv
    → ClaimNextInput
    → Db
    → List PgJobCurrentRow
    → Result StoreFault (Option (PgJobCurrentRow × Db))
unfolding try_claim
scan_batch env input db [] = ok none
scan_batch env input db (r ∷ rs) =
    or_continue (try_claim env input db r) (scan_batch env input db rs)

abbrev pub claim_scan_batch_size : ℕ
claim_scan_batch_size = 20

-- `if (candidates.length === 0) return none_ready`, else what the batch gave, else the next round
abbrev pub or_next :
    List PgJobCurrentRow
    → Result StoreFault (Option (PgJobCurrentRow × Db))
    → Option (Result StoreFault (Option (PgJobCurrentRow × Db)))
    → Option (Result StoreFault (Option (PgJobCurrentRow × Db)))
or_next [] done rest = some (ok none)
or_next (r ∷ rs) (throw e) rest = some (throw e)
or_next (r ∷ rs) (ok (some done)) rest = some (ok (some done))
or_next (r ∷ rs) (ok none) rest = rest

-- `WHERE status = 'pending' AND next_attempt_at <= now`, `SKIP LOCKED`
unfoldable pub is_ready : ClaimEnv → ℕ → PgJobCurrentRow → Bool
unfolding is_pending
is_ready env now r = is_pending r.status && (leb r.next_attempt_at now && not (env.locked r))

unfoldable pub ready_rows : ClaimEnv → ℕ → Db → List PgJobCurrentRow
unfolding is_ready claim_order
ready_rows env now db = env.order_by claim_order (select (is_ready env now) db.jobs_current)

-- the `while (true)` with its offset, which asks for the ready rows anew in every round; the last
-- `none` is fuel that ran out
unfoldable pub scan_from :
    ClaimEnv
    → ClaimNextInput
    → Db
    → (fuel offset : ℕ) → Option (Result StoreFault (Option (PgJobCurrentRow × Db)))
unfolding ready_rows scan_batch
scan_from env input db zero offset = none
scan_from env input db (suc fuel) offset =
    let rows = ready_rows env input.now_ms db in
    let batch = take claim_scan_batch_size (drop offset rows) in
    let rest = scan_from env input db fuel (offset + length batch) in
    or_next batch (scan_batch env input db batch) rest

unfoldable pub claim_next :
    ClaimEnv → ClaimNextInput → Db → Option (Result StoreFault (Option (PgJobCurrentRow × Db)))
unfolding ready_rows scan_from
claim_next env input db = scan_from env input db (suc (length (ready_rows env input.now_ms db))) 0
