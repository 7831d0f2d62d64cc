-- ===== src/Tests/Sample.antt =====
-- Jobs and operations that the runs share.
use maids_claw.Common.{ℕ, String, none, some, List, [], ◌∷◌}
use maids_claw.Jobs.Types.{
  background_search_rebuild, background_memory_organize, background_cognition_thinker,
}
use maids_claw.Jobs.Rows.{
  DurableSearchRebuildPayload, private, search_rebuild, memory_organize, cognition_thinker, Db,
}
use maids_claw.Jobs.Enqueue.{EnqueueJobInput}
use maids_claw.Jobs.Claim.{ClaimNextInput}
use maids_claw.Jobs.Fence.{PgJobFailInput}
use maids_claw.Jobs.Lifecycle.{StoreOp, enqueues, claims, completes, reclaims}
use maids_claw.Tests.Sorting.{calm}

abbrev pub empty : Db
empty = record { jobs_current = []; job_attempts = [] }

abbrev pub repair : String → DurableSearchRebuildPayload
repair reason = record {
  scope = private;
  target_agent_id = some "rp:1";
  trigger_source = "manual_cli";
  trigger_reason = reason;
  requested_by = none;
  requested_at = none;
}

abbrev pub rebuild : (key reason : String) (now : ℕ) → EnqueueJobInput
rebuild key reason now = record {
  job_key = key;
  job_family_key = some "search.rebuild:private:rp:1";
  execution_class = background_search_rebuild;
  concurrency_key = "search.rebuild:global";
  payload_schema_version = 1;
  payload_json = search_rebuild (repair reason);
  max_attempts = 3;
  now_ms = now;
  next_attempt_at = none;
}

abbrev pub organize : (key : String) (now : ℕ) → EnqueueJobInput
organize key now = record {
  job_key = key;
  job_family_key = none;
  execution_class = background_memory_organize;
  concurrency_key = "memory.organize:global";
  payload_schema_version = 1;
  payload_json = memory_organize "{}";
  max_attempts = 4;
  now_ms = now;
  next_attempt_at = none;
}

abbrev pub by : String → ℕ → ClaimNextInput
by worker now = record { worker_id = worker; now_ms = now; lease_duration_ms = 1000 }

abbrev pub error : ℕ → PgJobFailInput
error now = record {
  now_ms = now;
  error_code = none;
  error_message = "boom";
  retry_delay_ms = none;
}

-- one worker claims, its lease runs out, another claims
abbrev pub taken_twice : List StoreOp
taken_twice =
    enqueues (organize "o1" 10)
    ∷ claims calm (by "w1" 20)
    ∷ reclaims 2000
    ∷ claims calm (by "w2" 2010)
    ∷ []

abbrev pub finished : List StoreOp
finished = enqueues (organize "o1" 10) ∷ claims calm (by "w1" 20) ∷ completes "u" "o1" 1 30 ∷ []

abbrev pub two_waiting : List StoreOp
two_waiting = enqueues (organize "o1" 10) ∷ enqueues (rebuild "s1" "fts_repair" 11) ∷ []

abbrev pub think : (key : String) (now : ℕ) → EnqueueJobInput
think key now = record {
  job_key = key;
  job_family_key = none;
  execution_class = background_cognition_thinker;
  concurrency_key = "cognition.thinker:session:s1";
  payload_schema_version = 1;
  payload_json = cognition_thinker (record {
    session_id = "s1";
    agent_id = "rp:1";
    settlement_id = "stl:1";
    talker_turn_version = 1;
  });
  max_attempts = 3;
  now_ms = now;
  next_attempt_at = none;
}
