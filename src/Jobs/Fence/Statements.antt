-- ===== src/Jobs/Fence/Statements.antt =====
-- src/jobs/pg-store.ts: the statements that the holder of a claim runs, and what they do to a row.
use maids_claw.Common.{
  ℕ, ◌+◌, String, Bool, ◌&&◌, Option, none, some, str_eq, ◌==◌, if◌then◌else◌, find_first,
}
use maids_claw.Jobs.Rows.{
  PgJobStatus, PgJobAttemptOutcome, is_running, is_open, PgJobCurrentRow, PgJobAttemptHistoryRow,
  Db, update_where, row_of,
}

pub data FenceMissOutcome : Type 0 where
  not_found stale_claim not_running : FenceMissOutcome

pub data FenceResult : Type 0 where
  renewed : (lease_expires_at heartbeat_at : ℕ) → FenceResult
  succeeded : (terminal_at : ℕ) → FenceResult
  retry_scheduled : (next_attempt_at : ℕ) → FenceResult
  failed_terminal : (terminal_at : ℕ) → FenceResult
  cancelled : (terminal_at : ℕ) → FenceResult
  missed : FenceMissOutcome → FenceResult

-- `WHERE job_key = k AND claim_version = v AND status = 'running'`
unfoldable pub holds_claim : String → ℕ → PgJobCurrentRow → Bool
unfolding is_running
holds_claim k v r = str_eq r.job_key k && (r.claim_version == v && is_running r.status)

-- `WHERE job_key = k AND claim_version = v AND outcome = 'running'`
unfoldable pub open_attempt : String → ℕ → PgJobAttemptHistoryRow → Bool
unfolding is_open
open_attempt k v a = str_eq a.job_key k && (a.claim_version == v && is_open a.outcome)

unfoldable pub classify_fence_miss : String → ℕ → Db → FenceMissOutcome
classify_fence_miss k v db = elim (row_of k db) [
  | none ↦ not_found
  | some r ↦ if r.claim_version == v then not_running else stale_claim
]

unfoldable pub mark_attempt_lease_lost : String → ℕ → ℕ → Db → Db
unfolding open_attempt
mark_attempt_lease_lost k v now db = record db {
  job_attempts =
      update_where (open_attempt k v)
        (λ a. record a { outcome = PgJobAttemptOutcome.lease_lost; finished_at = some now })
        db.job_attempts;
}

-- the common end of a statement that found no row
unfoldable pub fence_miss : String → ℕ → ℕ → Db → FenceResult × Db
unfolding classify_fence_miss mark_attempt_lease_lost
fence_miss k v now db =
    let outcome = classify_fence_miss k v db in
    (
      missed outcome,
      elim outcome [
        | stale_claim ↦ mark_attempt_lease_lost k v now db
        | not_found ↦ db
        | not_running ↦ db
      ],
    )

abbrev pub default_heartbeat_lease_extension_ms : ℕ
default_heartbeat_lease_extension_ms = 30000

-- a fenced update of the job and of its open attempt
unfoldable pub update_held :
    String
    → ℕ
    → (PgJobCurrentRow → PgJobCurrentRow)
    → (PgJobAttemptHistoryRow → PgJobAttemptHistoryRow)
    → Db
    → Db
unfolding holds_claim open_attempt
update_held k v f g db = record {
  jobs_current = update_where (holds_claim k v) f db.jobs_current;
  job_attempts = update_where (open_attempt k v) g db.job_attempts;
}

abbrev pub held_row : String → ℕ → Db → Option PgJobCurrentRow
held_row k v db = find_first (holds_claim k v) db.jobs_current

unfoldable pub renew_row : ℕ → PgJobCurrentRow → PgJobCurrentRow
renew_row now r = record r {
  last_heartbeat_at = some now;
  lease_expires_at = some (now + default_heartbeat_lease_extension_ms);
  updated_at = now;
}

unfoldable pub renew_attempt : ℕ → PgJobAttemptHistoryRow → PgJobAttemptHistoryRow
renew_attempt now a = record a {
  last_heartbeat_at = some now;
  lease_expires_at = now + default_heartbeat_lease_extension_ms;
}

-- the columns that a claim sets, cleared
unfoldable pub release : PgJobStatus → ℕ → PgJobCurrentRow → PgJobCurrentRow
release status now r = record r {
  status = status;
  claimed_by = none;
  claimed_at = none;
  lease_expires_at = none;
  last_heartbeat_at = none;
  updated_at = now;
}

unfoldable pub end_row : PgJobStatus → ℕ → PgJobCurrentRow → PgJobCurrentRow
unfolding release
end_row status now r = record (release status now r) { terminal_at = some now }

unfoldable pub end_attempt :
    PgJobAttemptOutcome → ℕ → PgJobAttemptHistoryRow → PgJobAttemptHistoryRow
end_attempt outcome now a = record a { outcome = outcome; finished_at = some now }

pub record PgJobFailInput : Type 0 where
  pub now_ms : ℕ
  pub error_code : Option String
  pub error_message : String
  pub retry_delay_ms : Option ℕ

unfoldable pub with_error : PgJobFailInput → PgJobCurrentRow → PgJobCurrentRow
with_error e r = record r {
  last_error_code = e.error_code;
  last_error_message = some e.error_message;
  last_error_at = some e.now_ms;
}

unfoldable pub retry_row : PgJobFailInput → ℕ → PgJobCurrentRow → PgJobCurrentRow
unfolding release with_error
retry_row e at r = record (with_error e (release PgJobStatus.pending e.now_ms r)) {
  next_attempt_at = at;
  terminal_at = none;
}

unfoldable pub fail_attempt :
    PgJobAttemptOutcome → PgJobFailInput → PgJobAttemptHistoryRow → PgJobAttemptHistoryRow
unfolding end_attempt
fail_attempt outcome e a = record (end_attempt outcome e.now_ms a) {
  error_code = e.error_code;
  error_message = some e.error_message;
}

unfoldable pub retry_attempt : PgJobFailInput → ℕ → PgJobAttemptHistoryRow → PgJobAttemptHistoryRow
unfolding fail_attempt
retry_attempt e at a = record (fail_attempt PgJobAttemptOutcome.failed_retry_scheduled e a) {
  backoff_until = some at;
}
