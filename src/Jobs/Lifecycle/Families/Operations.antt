-- ===== src/Jobs/Lifecycle/Families/Operations.antt =====
-- The active jobs of a family under every operation of the store.
use maids_claw.Common.{
  ◌≡◌, refl, ℕ, true, none, some, List, [], ◌∷◌, String, ltb, Bool-cases, Option-cases, inl, inr,
  arith, Option, Result, ok, throw, select,
}
use maids_claw.Jobs.Rows.{PgJobStatus, is_pending, is_active, Db}
use maids_claw.Jobs.Rows.Updates.{Row}
use maids_claw.Jobs.Enqueue.{StoreFault}
use maids_claw.Jobs.Claim.{
  ClaimEnv, ClaimNextInput, waits, claim_row, scan_batch, ready_rows, claim_next,
}
use maids_claw.Jobs.Claim.Take.{take_claim-Took, try_claim_took}
use maids_claw.Jobs.Claim.Scan.{claim_next_lem, scan_batch_found}
use maids_claw.Jobs.Fence.{
  update_held, held_row, renew_row, heartbeat, end_row, PgJobFailInput, retry_row, with_error, fail,
  cancel, mark_attempt_lease_lost,
}
use maids_claw.Jobs.Sweep.{
  is_expired, reclaim_row, reclaim_one, reclaim_all, reclaim_expired_leases,
}
use maids_claw.Jobs.Lifecycle.{
  StoreOp, enqueues, claims, heartbeats, completes, fails, cancels, reclaims, apply_op, run,
  claimed,
}
use maids_claw.Jobs.Lifecycle.Fenced.{fence_miss_jobs}
use maids_claw.Jobs.Lifecycle.Families.{IsSingle, KeepsSingle, update_KeepsSingle}
use maids_claw.Jobs.Lifecycle.Families.Entering.{
  held_KeepsSingle, enqueue-KeepsSingle, complete-KeepsSingle,
}

waits_active : (k : String) (r : Row) → waits k r ≡ true → is_active r.status ≡ true
unfolding waits is_pending is_active
waits_active k r h = ground arith

claim_ends :
    (env : ClaimEnv) (input : ClaimNextInput) (db : Db) (r : Result StoreFault (Option (Row × Db)))
    → scan_batch env input db (ready_rows env input.now_ms db) ≡ r
    → KeepsSingle db.jobs_current (claimed db (some r)).jobs_current
claim_ends env input db (throw e) h f s = s
claim_ends env input db (ok none) h f s = s
claim_ends env input db (ok (some done)) h f s =
    let (c, listed, tried) = scan_batch_found env input db _ h in
    let took = take_claim-Took input c db (try_claim_took env input db c tried).2 in
    rw (took.jobs) (
      update_KeepsSingle (waits c.job_key) (claim_row input) db.jobs_current
        (waits_active c.job_key) (unfold claim_row in λ r. refl) f s)

claim_next-KeepsSingle :
    (env : ClaimEnv) (input : ClaimNextInput) (db : Db)
    → KeepsSingle db.jobs_current (claimed db (claim_next env input db)).jobs_current
claim_next-KeepsSingle env input db =
    rw (claim_next_lem env input db) (claim_ends env input db _ refl)

reclaim_all-KeepsSingle :
    (now : ℕ) (rows : List Row) (db : Db)
    → KeepsSingle db.jobs_current (reclaim_all now rows db).jobs_current
unfolding reclaim_all reclaim_one mark_attempt_lease_lost
reclaim_all-KeepsSingle now [] db f h = h
reclaim_all-KeepsSingle now (row ∷ rows) db f h =
    reclaim_all-KeepsSingle now rows (reclaim_one now row db) f (
      held_KeepsSingle row.job_key row.claim_version (reclaim_row now) db
        (unfold reclaim_row in λ r. refl) f h)

module _ (k : String) (v : ℕ) (db : Db) where
  heartbeat-KeepsSingle :
      (now : ℕ) → KeepsSingle db.jobs_current (heartbeat k v now db).1.jobs_current
  unfolding heartbeat update_held
  heartbeat-KeepsSingle now f h = elim (Option-cases (held_row k v db)) [
    | inl miss ↦ rw (miss, heartbeat) (rw (fence_miss_jobs k v now db) h)
    | inr (r, held) ↦
        rw (held, heartbeat)
          (held_KeepsSingle k v (renew_row now) db (unfold renew_row in λ s. refl) f h)
  ]

  cancel-KeepsSingle : (now : ℕ) → KeepsSingle db.jobs_current (cancel k v now db).1.jobs_current
  unfolding cancel update_held
  cancel-KeepsSingle now f h = elim (Option-cases (held_row k v db)) [
    | inl miss ↦ rw (miss, cancel) (rw (fence_miss_jobs k v now db) h)
    | inr (r, held) ↦
        rw (held, cancel)
          (held_KeepsSingle k v (end_row PgJobStatus.cancelled now) db (unfold end_row in λ s. refl)
            f h)
  ]

  fail-KeepsSingle :
      (e : PgJobFailInput) → KeepsSingle db.jobs_current (fail k v e db).1.jobs_current
  unfolding fail update_held
  fail-KeepsSingle e f h = elim (Option-cases (held_row k v db)) [
    | inl miss ↦ rw (miss, fail) (rw (fence_miss_jobs k v e.now_ms db) h)
    | inr (r, held) ↦ elim (Bool-cases (ltb r.attempt_count r.max_attempts)) [
      | inl again ↦
          rw (held, fail)
            (rw again (held_KeepsSingle k v (retry_row e _) db (unfold retry_row in λ s. refl) f h))
      | inr last ↦
          rw (held, fail)
            (rw last (
              held_KeepsSingle k v (λ s. with_error e (end_row _ e.now_ms s)) db
                (unfold with_error end_row in λ s. refl) f h))
    ]
  ]

apply_op-KeepsSingle :
    (o : StoreOp) (db : Db) → KeepsSingle db.jobs_current (apply_op o db).jobs_current
unfolding apply_op reclaim_expired_leases
apply_op-KeepsSingle (enqueues input) db = enqueue-KeepsSingle input db
apply_op-KeepsSingle (claims env input) db = claim_next-KeepsSingle env input db
apply_op-KeepsSingle (heartbeats k v now) db = heartbeat-KeepsSingle k v db now
apply_op-KeepsSingle (completes uuid k v now) db = complete-KeepsSingle uuid k v now db
apply_op-KeepsSingle (fails k v e) db = fail-KeepsSingle k v db e
apply_op-KeepsSingle (cancels k v now) db = cancel-KeepsSingle k v db now
apply_op-KeepsSingle (reclaims now) db =
    reclaim_all-KeepsSingle now (select (is_expired now) db.jobs_current) db

-- From tables where a family has at most one active job, no sequence of store operations gives it two.
pub run-IsSingle :
    (os : List StoreOp) (db : Db) (f : String)
    → IsSingle f db.jobs_current
    → IsSingle f (run os db).jobs_current
unfolding run
run-IsSingle [] db f h = h
run-IsSingle (o ∷ os) db f h = run-IsSingle os (apply_op o db) f (apply_op-KeepsSingle o db f h)
