-- ===== src/Jobs/Enqueue.antt =====
-- src/jobs/pg-store.ts, `enqueue`: one row for a job key, one active row for a search-rebuild family.
-- What other transactions commit before the n-th statement is the argument `between n`; the rows of
-- a result that only repeat the call's arguments are left out.
pub mod Once
use maids_claw.Common.{
  ℕ, String, Bool, true, false, not, ◌&&◌, ◌||◌, Option, none, some, List, [], ◌∷◌, ◌++◌, str_eq,
  if◌then◌else◌, or_else, is_some, any_of, find_first, Result, ok, throw,
}
use maids_claw.Jobs.Types.{ExecutionClass}
use maids_claw.Jobs.Rows.{
  PgJobStatus, pending, is_active, is_running, Payload, search_rebuild, DurableSearchRebuildPayload,
  FamilyState, PgJobCurrentRow, Db, update_where, has_key, row_of, is_text, in_active_family,
}
use maids_claw.Jobs.Family.{coalesced_family_state, initial_family_state}

pub record EnqueueJobInput : Type 0 where
  pub job_key : String
  pub job_family_key : Option String
  pub execution_class : ExecutionClass
  pub concurrency_key : String
  pub payload_schema_version : ℕ
  pub payload_json : Payload
  pub max_attempts : ℕ
  pub now_ms : ℕ
  pub next_attempt_at : Option ℕ

pub data EnqueueResult : Type 0 where
  created : EnqueueResult
  duplicate :
      (job_family_key : Option String) (status : PgJobStatus) (claim_version : ℕ) → EnqueueResult
  coalesced : (job_family_key : String) (coalesced_into_job_key : String) → EnqueueResult

-- a raised statement or an `Error`; the transaction is rolled back
pub data StoreFault : Type 0 where
  unique_violation enqueue_conflict : StoreFault

-- `??` on two nullable columns
abbrev pub coalesce_text : Option String → Option String → Option String
coalesce_text none b = b
coalesce_text (some a) b = some a

unfoldable pub new_row : EnqueueJobInput → Option FamilyState → PgJobCurrentRow
new_row input family_state = record {
  job_key = input.job_key;
  job_family_key = input.job_family_key;
  execution_class = input.execution_class;
  concurrency_key = input.concurrency_key;
  status = pending;
  payload_schema_version = input.payload_schema_version;
  payload_json = input.payload_json;
  family_state_json = family_state;
  claim_version = 0;
  claimed_by = none;
  claimed_at = none;
  lease_expires_at = none;
  last_heartbeat_at = none;
  attempt_count = 0;
  max_attempts = input.max_attempts;
  next_attempt_at = or_else input.next_attempt_at input.now_ms;
  last_error_code = none;
  last_error_message = none;
  last_error_at = none;
  created_at = input.now_ms;
  updated_at = input.now_ms;
  terminal_at = none;
}

unfoldable pub key_taken : PgJobCurrentRow → Db → Bool
key_taken r db = any_of (has_key r.job_key) db.jobs_current

-- the partial unique index `idx_jobs_current_family_active`
unfoldable pub family_taken : PgJobCurrentRow → Db → Bool
unfolding in_active_family
family_taken r db = elim r.job_family_key [
  | none ↦ false
  | some f ↦ is_active r.status && any_of (in_active_family f) db.jobs_current
]

unfoldable pub insert_row : PgJobCurrentRow → Db → Db
insert_row r db = record db { jobs_current = db.jobs_current ++ r ∷ [] }

-- `input.job_type === "search.rebuild" && input.job_family_key`
unfoldable pub rebuild_family :
    Payload → Option String → Option (DurableSearchRebuildPayload × String)
rebuild_family (search_rebuild p) (some f) = if str_eq f "" then none else some (p, f)
rebuild_family _ _ = none

unfoldable pub duplicate_of : EnqueueJobInput → PgJobCurrentRow → EnqueueResult
duplicate_of input r =
    duplicate (coalesce_text r.job_family_key input.job_family_key) r.status r.claim_version

unfoldable pub join_row : EnqueueJobInput → DurableSearchRebuildPayload → PgJobCurrentRow → Db → Db
unfolding coalesced_family_state is_running
join_row input payload active db =
    let merged =
      coalesced_family_state active.family_state_json payload (is_running active.status)
        input.now_ms in
    record db {
      jobs_current =
          update_where (has_key active.job_key)
            (λ r. record r { family_state_json = some merged; updated_at = input.now_ms })
            db.jobs_current;
    }

-- the search for an active row of the family, and the merge into it
unfoldable pub join_family :
    EnqueueJobInput → DurableSearchRebuildPayload → String → Db → Option (EnqueueResult × Db)
unfolding join_row in_active_family
join_family input payload f db = elim (find_first (in_active_family f) db.jobs_current) [
  | none ↦ none
  | some active ↦ some (coalesced f active.job_key, join_row input payload active db)
]

-- the reads after an insert that changed nothing
unfoldable pub after_conflict :
    (between : ℕ → Db → Db)
    → EnqueueJobInput
    → DurableSearchRebuildPayload
    → String
    → Db
    → Result StoreFault (EnqueueResult × Db)
unfolding duplicate_of join_family
after_conflict between input payload f db = elim (row_of input.job_key db) [
  | some r ↦ ok (duplicate_of input r, db)
  | none ↦ elim (join_family input payload f (between 4 db)) [
    | some joined ↦ ok joined
    | none ↦ throw enqueue_conflict
  ]
]

unfoldable pub enqueue_rebuild :
    (between : ℕ → Db → Db)
    → EnqueueJobInput
    → DurableSearchRebuildPayload
    → String
    → Db
    → Result StoreFault (EnqueueResult × Db)
unfolding join_family new_row initial_family_state key_taken family_taken insert_row after_conflict
enqueue_rebuild between input payload f db = elim (join_family input payload f db) [
  | some joined ↦ ok joined
  | none ↦
      let row = new_row input (some (initial_family_state payload)) in
      let db' = between 2 db in
      if key_taken row db' || family_taken row db'
      then after_conflict between input payload f (between 3 db')
      else ok (created, insert_row row db')
]

-- `status: row?.status ?? "pending"`, `claim_version: row?.claim_version ?? 0`
unfoldable pub duplicate_or_default : EnqueueJobInput → Option PgJobCurrentRow → EnqueueResult
unfolding duplicate_of
duplicate_or_default input none = duplicate input.job_family_key pending 0
duplicate_or_default input (some r) = duplicate_of input r

unfoldable pub enqueue_plain :
    (between : ℕ → Db → Db) → EnqueueJobInput → Db → Result StoreFault (EnqueueResult × Db)
unfolding new_row key_taken family_taken insert_row duplicate_or_default
enqueue_plain between input db =
    let row = new_row input none in
    if key_taken row db
    then (let db' = between 2 db in ok (duplicate_or_default input (row_of input.job_key db'), db'))
    else if family_taken row db
    then throw unique_violation
    else ok (created, insert_row row db)

unfoldable pub enqueue_new :
    (between : ℕ → Db → Db) → EnqueueJobInput → Db → Result StoreFault (EnqueueResult × Db)
unfolding rebuild_family enqueue_rebuild enqueue_plain
enqueue_new between input db = elim (rebuild_family input.payload_json input.job_family_key) [
  | some (payload, f) ↦ enqueue_rebuild between input payload f db
  | none ↦ enqueue_plain between input db
]

unfoldable pub enqueue :
    (between : ℕ → Db → Db) → EnqueueJobInput → Db → Result StoreFault (EnqueueResult × Db)
unfolding duplicate_of enqueue_new
enqueue between input db = elim (row_of input.job_key db) [
  | some r ↦ ok (duplicate_of input r, db)
  | none ↦ enqueue_new between input (between 1 db)
]

-- no other transaction commits meanwhile
abbrev pub alone : ℕ → Db → Db
alone n db = db
