-- ===== src/Jobs/Rows.antt =====
-- src/jobs/durable-store.ts and src/jobs/pg-schema.ts: the rows of `jobs_current` and `job_attempts`,
-- and the statements over them. Times are epoch milliseconds.
pub mod Updates
use maids_claw.Common.{
  ℕ, String, Bool, true, false, ◌&&◌, Option, none, some, List, [], ◌∷◌, ◌++◌, str_eq, ◌==◌,
  if◌then◌else◌, find_first, Result, ok, throw, or_else,
}
use maids_claw.Jobs.Types
use maids_claw.Jobs.Types.{JobKind, ExecutionClass}

pub data PgJobStatus : Type 0 where
  pending running succeeded failed_terminal cancelled : PgJobStatus

pub data PgJobAttemptOutcome : Type 0 where
  running succeeded failed_retry_scheduled failed_terminal cancelled lease_lost :
      PgJobAttemptOutcome

pub data SearchRebuildScope : Type 0 where
  private area world cognition : SearchRebuildScope

pub record DurableSearchRebuildPayload : Type 0 where
  pub scope : SearchRebuildScope
  pub target_agent_id : Option String
  pub trigger_source : String
  pub trigger_reason : String
  pub requested_by : Option String
  pub requested_at : Option ℕ

pub record CognitionThinkerJobPayload : Type 0 where
  pub session_id : String
  pub agent_id : String
  pub settlement_id : String
  pub talker_turn_version : ℕ

-- `DurablePayloadByKind`: a payload of the type that belongs to its kind; the `unknown` ones are JSON
-- texts that the store passes on unread.
pub data Payload : Type 0 where
  memory_migrate memory_organize task_run maintenance_replay_projection maintenance_rebuild_derived
        maintenance_full :
      String → Payload
  search_rebuild : DurableSearchRebuildPayload → Payload
  cognition_thinker : CognitionThinkerJobPayload → Payload

-- the `job_type` column
unfoldable pub job_type : Payload → JobKind
job_type (memory_migrate _) = Types.memory_migrate
job_type (memory_organize _) = Types.memory_organize
job_type (task_run _) = Types.task_run
job_type (maintenance_replay_projection _) = Types.maintenance_replay_projection
job_type (maintenance_rebuild_derived _) = Types.maintenance_rebuild_derived
job_type (maintenance_full _) = Types.maintenance_full
job_type (search_rebuild _) = Types.search_rebuild
job_type (cognition_thinker _) = Types.cognition_thinker

-- `SearchRebuildFamilyState`; a counter map is an association list
pub record FamilyState : Type 0 where
  pub rerun_requested : Bool
  pub coalesced_request_count : ℕ
  pub latest_requested_at : Option ℕ
  pub trigger_source_counts : List (String × ℕ)
  pub trigger_reason_counts : List (String × ℕ)

-- `family_state_json` is `none` where it is `{}`
pub record PgJobCurrentRow : Type 0 where
  pub job_key : String
  pub job_family_key : Option String
  pub execution_class : ExecutionClass
  pub concurrency_key : String
  pub status : PgJobStatus
  pub payload_schema_version : ℕ
  pub payload_json : Payload
  pub family_state_json : Option FamilyState
  pub claim_version : ℕ
  pub claimed_by : Option String
  pub claimed_at : Option ℕ
  pub lease_expires_at : Option ℕ
  pub last_heartbeat_at : Option ℕ
  pub attempt_count : ℕ
  pub max_attempts : ℕ
  pub next_attempt_at : ℕ
  pub last_error_code : Option String
  pub last_error_message : Option String
  pub last_error_at : Option ℕ
  pub created_at : ℕ
  pub updated_at : ℕ
  pub terminal_at : Option ℕ

pub record PgJobAttemptHistoryRow : Type 0 where
  pub job_key : String
  pub job_family_key : Option String
  pub execution_class : ExecutionClass
  pub concurrency_key : String
  pub claim_version : ℕ
  pub attempt_no : ℕ
  pub worker_id : String
  pub outcome : PgJobAttemptOutcome
  pub payload_schema_version : ℕ
  pub payload_snapshot_json : Payload
  pub family_state_snapshot_json : Option FamilyState
  pub started_at : ℕ
  pub last_heartbeat_at : Option ℕ
  pub lease_expires_at : ℕ
  pub finished_at : Option ℕ
  pub error_code : Option String
  pub error_message : Option String
  pub backoff_until : Option ℕ

pub record Db : Type 0 where
  pub jobs_current : List PgJobCurrentRow
  pub job_attempts : List PgJobAttemptHistoryRow

unfoldable pub is_pending : PgJobStatus → Bool
is_pending pending = true
is_pending _ = false

unfoldable pub is_running : PgJobStatus → Bool
is_running running = true
is_running _ = false

-- `status IN ('pending', 'running')`
unfoldable pub is_active : PgJobStatus → Bool
is_active pending = true
is_active running = true
is_active _ = false

unfoldable pub is_terminal_status : PgJobStatus → Bool
is_terminal_status succeeded = true
is_terminal_status failed_terminal = true
is_terminal_status cancelled = true
is_terminal_status _ = false

unfoldable pub is_open : PgJobAttemptOutcome → Bool
is_open running = true
is_open _ = false

-- `UPDATE … SET f WHERE p`
abbrev pub update_where {ℓ} : {A : Type ℓ} → (A → Bool) → (A → A) → List A → List A
update_where p f [] = []
update_where p f (x ∷ xs) = (if p x then f x else x) ∷ update_where p f xs

-- `WHERE job_key = k`
abbrev pub has_key : String → PgJobCurrentRow → Bool
has_key k r = str_eq r.job_key k

-- the only row of a primary key
abbrev pub row_of : String → Db → Option PgJobCurrentRow
row_of k db = find_first (has_key k) db.jobs_current

-- `x = k` on a nullable text column
unfoldable pub is_text : Option String → String → Bool
is_text none k = false
is_text (some s) k = str_eq s k

-- `WHERE job_family_key = f AND status IN ('pending', 'running')`
unfoldable pub in_active_family : String → PgJobCurrentRow → Bool
unfolding is_text is_active
in_active_family f r = is_text r.job_family_key f && is_active r.status
