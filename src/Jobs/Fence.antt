-- ===== src/Jobs/Fence.antt =====
-- src/jobs/pg-store.ts: how the holder of a claim renews or ends its job. Every statement is fenced
-- by the claim version. A result leaves out the job key and the claim version of the call.
mod Statements
unfoldable pub use Statements.*
use Prim.Native.String
use Prim.Native.String.{slice, len}
use maids_claw.Common.{
  ℕ, ◌+◌, String, Bool, true, false, ◌&&◌, Option, none, some, List, [], ◌∷◌, ◌++◌, str_eq, ◌==◌,
  ltb, if◌then◌else◌, or_else, find_first, Result, ok, throw, starts_with,
}
use maids_claw.Jobs.Rows
use maids_claw.Jobs.Rows.{
  PgJobStatus, PgJobAttemptOutcome, is_running, is_open, Payload, PgJobCurrentRow,
  PgJobAttemptHistoryRow, Db, FamilyState, update_where, has_key, row_of,
}
use maids_claw.Jobs.Family.{normalize_family_state, successor_family_state}
use maids_claw.Jobs.Enqueue.{
  StoreFault, unique_violation, key_taken, family_taken, insert_row, rebuild_family,
}

unfoldable pub heartbeat : String → ℕ → ℕ → Db → FenceResult × Db
unfolding update_held fence_miss renew_row renew_attempt holds_claim
heartbeat k v now db = elim (held_row k v db) [
  | none ↦ fence_miss k v now db
  | some r ↦ (
    renewed (now + default_heartbeat_lease_extension_ms) now,
    update_held k v (renew_row now) (renew_attempt now) db,
  )
]

unfoldable pub successor_row : String → ℕ → PgJobCurrentRow → PgJobCurrentRow
unfolding successor_family_state
successor_row key now r = record {
  job_key = key;
  job_family_key = r.job_family_key;
  execution_class = r.execution_class;
  concurrency_key = r.concurrency_key;
  status = PgJobStatus.pending;
  payload_schema_version = r.payload_schema_version;
  payload_json = r.payload_json;
  family_state_json = some (successor_family_state r.family_state_json);
  claim_version = 0;
  claimed_by = none;
  claimed_at = none;
  lease_expires_at = none;
  last_heartbeat_at = none;
  attempt_count = 0;
  max_attempts = r.max_attempts;
  next_attempt_at = now;
  last_error_code = none;
  last_error_message = none;
  last_error_at = none;
  created_at = now;
  updated_at = now;
  terminal_at = none;
}

-- an `INSERT` with no `ON CONFLICT`
unfoldable pub insert_or_raise : PgJobCurrentRow → Db → Result StoreFault Db
unfolding key_taken family_taken insert_row
insert_or_raise r db =
    if key_taken r db
    then throw unique_violation
    else if family_taken r db
    then throw unique_violation
    else ok (insert_row r db)

-- the family key without its prefix
unfoldable pub family_fragment : String → String
family_fragment f =
    if starts_with f "search.rebuild:" then slice f (len "search.rebuild:") (len f) else f

unfoldable pub successor_job_key : String → (uuid : String) → String
unfolding family_fragment
successor_job_key f uuid =
    String.◌++◌ "search.rebuild:" (String.◌++◌ (family_fragment f) (String.◌++◌ ":req:" uuid))

-- the successor of a completed rebuild that was asked for again
unfoldable pub insert_successor : (uuid : String) → ℕ → PgJobCurrentRow → Db → Result StoreFault Db
unfolding rebuild_family normalize_family_state insert_or_raise successor_row successor_job_key
insert_successor uuid now r db = elim (rebuild_family r.payload_json r.job_family_key) [
  | none ↦ ok db
  | some (_, f) ↦
      if (normalize_family_state r.family_state_json).rerun_requested
      then insert_or_raise (successor_row (successor_job_key f uuid) now r) db
      else ok db
]

unfoldable pub complete :
    (uuid : String) → String → ℕ → ℕ → Db → Result StoreFault (FenceResult × Db)
unfolding fence_miss update_held end_row end_attempt insert_successor holds_claim
complete uuid k v now db = elim (held_row k v db) [
  | none ↦ ok (fence_miss k v now db)
  | some r ↦
      elim (insert_successor uuid now r (
        update_held k v (end_row PgJobStatus.succeeded now)
          (end_attempt PgJobAttemptOutcome.succeeded now) db)) [
            | ok db' ↦ ok (succeeded now, db')
            | throw e ↦ throw e
          ]
]

unfoldable pub fail : String → ℕ → PgJobFailInput → Db → FenceResult × Db
unfolding fence_miss update_held retry_row retry_attempt fail_attempt end_row with_error holds_claim
fail k v e db =
    let at = e.now_ms + or_else e.retry_delay_ms 5000 in
    elim (held_row k v db) [
      | none ↦ fence_miss k v e.now_ms db
      | some r ↦
          if ltb r.attempt_count r.max_attempts
          then (retry_scheduled at, update_held k v (retry_row e at) (retry_attempt e at) db)
          else (
            failed_terminal e.now_ms,
            update_held k v (λ r. with_error e (end_row PgJobStatus.failed_terminal e.now_ms r))
                (fail_attempt PgJobAttemptOutcome.failed_terminal e) db,
          )
    ]

unfoldable pub cancel : String → ℕ → ℕ → Db → FenceResult × Db
unfolding fence_miss update_held end_row end_attempt holds_claim
cancel k v now db = elim (held_row k v db) [
  | none ↦ fence_miss k v now db
  | some r ↦ (
    cancelled now,
    update_held k v (end_row PgJobStatus.cancelled now)
        (end_attempt PgJobAttemptOutcome.cancelled now) db,
  )
]
