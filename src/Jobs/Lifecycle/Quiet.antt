-- ===== src/Jobs/Lifecycle/Quiet.antt =====
-- What each operation of the store does to the attempt history, and the errors of a claim.
use maids_claw.Common.{
  ◌≡◌, refl, ap, ◌∙◌, ℕ, Option, none, some, List, [], ◌∷◌, String, arith, Bool-cases, Option-cases,
  inl, inr, Result, ok, throw, Result-cases, ltb, select, ◌⊎◌,
}
use maids_claw.Jobs.Rows.{
  PgJobStatus, PgJobAttemptHistoryRow, PgJobAttemptOutcome, Db, update_where,
}
use maids_claw.Jobs.Rows.Updates.{Row, UniqueKeys, All-update_where}
use maids_claw.Jobs.Enqueue.{
  EnqueueJobInput, StoreFault, enqueue, alone, insert_row, enqueue_new, enqueue_rebuild,
  enqueue_plain, after_conflict, join_family, join_row,
}
use maids_claw.Jobs.Claim.{ClaimEnv, ClaimNextInput, scan_batch, ready_rows, claim_next}
use maids_claw.Jobs.Claim.Take.{take_claim-Took, try_claim_took}
use maids_claw.Jobs.Claim.Scan.{claim_next_lem, scan_batch_found}
use maids_claw.Jobs.Fence.{
  FenceMissOutcome, not_found, stale_claim, not_running, classify_fence_miss,
  mark_attempt_lease_lost, fence_miss, update_held, open_attempt, held_row, renew_attempt,
  heartbeat, renew_row, end_row, end_attempt, fail_attempt, retry_attempt, PgJobFailInput, fail,
  cancel, complete, insert_successor, insert_or_raise,
}
use maids_claw.Jobs.Sweep.{is_expired, reclaim_one, reclaim_all, reclaim_expired_leases}
use maids_claw.Jobs.Lifecycle.{
  StoreOp, enqueues, claims, heartbeats, completes, fails, cancels, reclaims, apply_op, run,
  committed, claimed,
}
use maids_claw.Jobs.Lifecycle.Steps.{Jobs, IsStep}
use maids_claw.Jobs.Lifecycle.Refinement.{apply_op-IsStep, run-IsStep}
use maids_claw.Jobs.Lifecycle.Attempts.{
  IsRecorded, IsRecorded-IsStep, Took-IsRecorded, scan_batch_quiet,
}

-- that a call only updates attempts, none of which changes its job or its claim version
abbrev Keeps : Db → Db → Type 0
Keeps db db' = (jobs : Jobs) → IsRecorded jobs db.job_attempts → IsRecorded jobs db'.job_attempts

update_Keeps :
    (p : PgJobAttemptHistoryRow → _) (f : PgJobAttemptHistoryRow → PgJobAttemptHistoryRow)
    (jobs : Jobs) (attempts : List PgJobAttemptHistoryRow)
    → ((a : PgJobAttemptHistoryRow)
        → ((f a).job_key ≡ a.job_key) × ((f a).claim_version ≡ a.claim_version))
    → IsRecorded jobs attempts
    → IsRecorded jobs (update_where p f attempts)
update_Keeps p f jobs attempts keeps h =
    All-update_where _ p f attempts (λ a hit known. rw ((keeps a).0) (rw ((keeps a).1) known)) h

lease_lost-Keeps :
    (k : String) (v now : ℕ) (db : Db) → Keeps db (mark_attempt_lease_lost k v now db)
unfolding mark_attempt_lease_lost
lease_lost-Keeps k v now db jobs h =
    update_Keeps (open_attempt k v) _ jobs db.job_attempts (λ a. (refl, refl)) h

outcomes : (o : FenceMissOutcome) → (o ≡ stale_claim) ⊎ ((o ≡ not_found) ⊎ (o ≡ not_running))
outcomes not_found = inr (inl refl)
outcomes stale_claim = inl refl
outcomes not_running = inr (inr refl)

fence_miss-Keeps : (k : String) (v now : ℕ) (db : Db) → Keeps db (fence_miss k v now db).1
unfolding fence_miss
fence_miss-Keeps k v now db jobs h = elim (outcomes (classify_fence_miss k v db)) [
  | inl stale ↦ rw (stale, fence_miss) (lease_lost-Keeps k v now db jobs h)
  | inr (inl missing) ↦ rw (missing, fence_miss) h
  | inr (inr ended) ↦ rw (ended, fence_miss) h
]

enqueue-Keeps :
    (input : EnqueueJobInput) (db : Db) → Keeps db (committed db (enqueue alone input db))
unfolding enqueue enqueue_new enqueue_rebuild enqueue_plain after_conflict join_family join_row
    insert_row
enqueue-Keeps input db jobs h = ground arith

held_Keeps :
    (k : String) (v : ℕ) (f : Row → Row) (g : PgJobAttemptHistoryRow → PgJobAttemptHistoryRow)
    (db : Db)
    → ((a : PgJobAttemptHistoryRow)
        → ((g a).job_key ≡ a.job_key) × ((g a).claim_version ≡ a.claim_version))
    → Keeps db (update_held k v f g db)
unfolding update_held
held_Keeps k v f g db keeps jobs h = update_Keeps (open_attempt k v) g jobs db.job_attempts keeps h

abbrev Inserts : Db → Result StoreFault Db → Type 0
Inserts db (ok db') = db'.job_attempts ≡ db.job_attempts
Inserts db (throw e) = Unit

insert_successor-Inserts :
    (uuid : String) (now : ℕ) (r : Row) (db : Db) → Inserts db (insert_successor uuid now r db)
unfolding insert_successor insert_or_raise insert_row
insert_successor-Inserts uuid now r db = ground arith

complete-Keeps :
    (uuid k : String) (v now : ℕ) (db : Db) → Keeps db (committed db (complete uuid k v now db))
unfolding complete
complete-Keeps uuid k v now db jobs h = elim (Option-cases (held_row k v db)) [
  | inl miss ↦ rw (miss, complete) (fence_miss-Keeps k v now db jobs h)
  | inr (r, held) ↦
      let mid =
        update_held k v (end_row PgJobStatus.succeeded now)
          (end_attempt PgJobAttemptOutcome.succeeded now) db in
      let ended : IsRecorded jobs mid.job_attempts =
        held_Keeps k v (end_row PgJobStatus.succeeded now)
          (end_attempt PgJobAttemptOutcome.succeeded now) db
          (unfold end_attempt in λ a. (refl, refl)) jobs h in
      let entered = insert_successor-Inserts uuid now r mid in
      elim (Result-cases (insert_successor uuid now r mid)) [
        | inl (db', done) ↦ rw (held, complete) (rw done (rw (rw done at entered) ended))
        | inr (e, raised) ↦ rw (held, complete) (rw raised h)
      ]
]

module _ (k : String) (v : ℕ) (db : Db) where
  heartbeat-Keeps : (now : ℕ) → Keeps db (heartbeat k v now db).1
  unfolding heartbeat
  heartbeat-Keeps now jobs h = elim (Option-cases (held_row k v db)) [
    | inl miss ↦ rw (miss, heartbeat) (fence_miss-Keeps k v now db jobs h)
    | inr (r, held) ↦
        rw (held, heartbeat)
          (held_Keeps k v (renew_row now) (renew_attempt now) db
            (unfold renew_attempt in λ a. (refl, refl)) jobs h)
  ]

  cancel-Keeps : (now : ℕ) → Keeps db (cancel k v now db).1
  unfolding cancel
  cancel-Keeps now jobs h = elim (Option-cases (held_row k v db)) [
    | inl miss ↦ rw (miss, cancel) (fence_miss-Keeps k v now db jobs h)
    | inr (r, held) ↦
        rw (held, cancel)
          (held_Keeps k v (end_row PgJobStatus.cancelled now)
            (end_attempt PgJobAttemptOutcome.cancelled now) db
            (unfold end_attempt in λ a. (refl, refl)) jobs h)
  ]

  fail-Keeps : (e : PgJobFailInput) → Keeps db (fail k v e db).1
  unfolding fail update_held
  fail-Keeps e jobs h = elim (Option-cases (held_row k v db)) [
    | inl miss ↦ rw (miss, fail) (fence_miss-Keeps k v e.now_ms db jobs h)
    | inr (r, held) ↦ elim (Bool-cases (ltb r.attempt_count r.max_attempts)) [
      | inl again ↦
          rw (held, fail)
            (rw again (
              update_Keeps (open_attempt k v) _ jobs db.job_attempts
                (unfold retry_attempt fail_attempt end_attempt in λ a. (refl, refl)) h))
      | inr last ↦
          rw (held, fail)
            (rw last (
              update_Keeps (open_attempt k v) _ jobs db.job_attempts
                (unfold fail_attempt end_attempt in λ a. (refl, refl)) h))
    ]
  ]

reclaim_all-Keeps : (now : ℕ) (rows : Jobs) (db : Db) → Keeps db (reclaim_all now rows db)
unfolding reclaim_all reclaim_one
reclaim_all-Keeps now [] db jobs h = h
reclaim_all-Keeps now (row ∷ rows) db jobs h =
    reclaim_all-Keeps now rows (reclaim_one now row db) jobs
      (lease_lost-Keeps row.job_key row.claim_version now db jobs h)

abbrev Recorded : Db → Type 0
Recorded db = IsRecorded db.jobs_current db.job_attempts

kept :
    (db db' : Db)
    → IsStep db.jobs_current db'.jobs_current
    → Keeps db db'
    → Recorded db
    → Recorded db'
kept db db' step keeps h = keeps db'.jobs_current (IsRecorded-IsStep db.job_attempts step h)

claim_ends :
    (env : ClaimEnv) (input : ClaimNextInput) (db : Db) (r : Result StoreFault (Option (Row × Db)))
    → UniqueKeys db.jobs_current
    → scan_batch env input db (ready_rows env input.now_ms db) ≡ r
    → IsStep db.jobs_current (claimed db (some r)).jobs_current
    → Recorded db
    → Recorded (claimed db (some r))
claim_ends env input db (throw e) u h step known = known
claim_ends env input db (ok none) u h step known = known
claim_ends env input db (ok (some done)) u h step known =
    let (c, listed, tried) = scan_batch_found env input db _ h in
    Took-IsRecorded input c db done u step
      (take_claim-Took input c db (try_claim_took env input db c tried).2) known

claim_next-Recorded :
    (env : ClaimEnv) (input : ClaimNextInput) (db : Db)
    → UniqueKeys db.jobs_current
    → IsStep db.jobs_current (claimed db (claim_next env input db)).jobs_current
    → Recorded db
    → Recorded (claimed db (claim_next env input db))
claim_next-Recorded env input db u =
    rw (claim_next_lem env input db) (claim_ends env input db _ u refl)

apply_op-Recorded :
    (o : StoreOp) (db : Db) → UniqueKeys db.jobs_current → Recorded db → Recorded (apply_op o db)
unfolding apply_op reclaim_expired_leases
apply_op-Recorded (claims env input) db u h =
    claim_next-Recorded env input db u (apply_op-IsStep (claims env input) db u) h
apply_op-Recorded (enqueues input) db u h =
    kept db _ (apply_op-IsStep (enqueues input) db u) (enqueue-Keeps input db) h
apply_op-Recorded (heartbeats k v now) db u h =
    kept db _ (apply_op-IsStep (heartbeats k v now) db u) (heartbeat-Keeps k v db now) h
apply_op-Recorded (completes uuid k v now) db u h =
    kept db _ (apply_op-IsStep (completes uuid k v now) db u) (complete-Keeps uuid k v now db) h
apply_op-Recorded (fails k v e) db u h =
    kept db _ (apply_op-IsStep (fails k v e) db u) (fail-Keeps k v db e) h
apply_op-Recorded (cancels k v now) db u h =
    kept db _ (apply_op-IsStep (cancels k v now) db u) (cancel-Keeps k v db now) h
apply_op-Recorded (reclaims now) db u h =
    kept db _ (apply_op-IsStep (reclaims now) db u)
      (reclaim_all-Keeps now (select (is_expired now) db.jobs_current) db) h

run-Recorded :
    (os : List StoreOp) (db : Db) → UniqueKeys db.jobs_current → Recorded db → Recorded (run os db)
unfolding run
run-Recorded [] db u h = h
run-Recorded (o ∷ os) db u h =
    run-Recorded os (apply_op o db) (apply_op-IsStep o db u).unique (apply_op-Recorded o db u h)

-- In the tables that any sequence of store operations, of which the deletion of old jobs is none, makes
-- of empty ones, no claim raises: it always ends, either with a claimed job or with none.
pub claim_next_quiet :
    (os : List StoreOp) (env : ClaimEnv) (input : ClaimNextInput)
    → (done : Option (Row × Db)) × (claim_next env input
          (run os (record { jobs_current = []; job_attempts = [] }))
        ≡ some (ok done))
claim_next_quiet os env input =
    let empty : Db = record { jobs_current = []; job_attempts = [] } in
    let db = run os empty in
    let rows = ready_rows env input.now_ms db in
    elim (Result-cases (scan_batch env input db rows)) [
      | inl (done, scanned) ↦ (done, claim_next_lem env input db ∙ ap some scanned)
      | inr (e, raised) ↦ absurd (
          scan_batch_quiet env input db (run-IsStep os empty tt).unique
            (run-Recorded os empty tt tt) rows e raised)
    ]
