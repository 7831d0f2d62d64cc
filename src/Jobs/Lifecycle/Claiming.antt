-- ===== src/Jobs/Lifecycle/Claiming.antt =====
-- Claiming and reclaiming are steps of the machine.
use maids_claw.Common.{
  ◌≡◌, refl, ℕ, true, Option, none, some, [], ◌∷◌, String, arith, Result, ok, throw, select,
}
use maids_claw.Jobs.Rows.{is_pending, Db}
use maids_claw.Jobs.Rows.Updates.{Row, UniqueKeys}
use maids_claw.Jobs.Enqueue.{StoreFault}
use maids_claw.Jobs.Claim.{
  ClaimEnv, ClaimNextInput, waits, claim_row, scan_batch, ready_rows, claim_next,
}
use maids_claw.Jobs.Claim.Take.{Took, take_claim-Took, try_claim_took}
use maids_claw.Jobs.Claim.Scan.{claim_next_lem, scan_batch_found}
use maids_claw.Jobs.Fence.{holds_claim, mark_attempt_lease_lost}
use maids_claw.Jobs.Sweep.{
  is_expired, reclaim_row, reclaim_one, reclaim_all, reclaim_expired_leases,
}
use maids_claw.Jobs.Machine.{claim, reclaim}
use maids_claw.Jobs.Lifecycle.{claimed}
use maids_claw.Jobs.Lifecycle.Steps.{
  Jobs, IsStep, IsStep-refl, IsStep-trans, update_IsStep, running_of_holds,
}

waits_pending : (k : String) (r : Row) → waits k r ≡ true → is_pending r.status ≡ true
unfolding waits
waits_pending k r h = ground arith

Took-IsStep :
    (input : ClaimNextInput) (c : Row) (db : Db) (done : Row × Db)
    → UniqueKeys db.jobs_current
    → Took input c db done
    → IsStep db.jobs_current done.1.jobs_current
Took-IsStep input c db done u took = rw (took.jobs) (
    update_IsStep (waits c.job_key) (claim_row input) db.jobs_current u
      (unfold claim_row in λ s. refl)
      (λ k s named hit. claim input (waits_pending c.job_key s hit)))

-- the three ends of a scan
claim_ends :
    (env : ClaimEnv) (input : ClaimNextInput) (db : Db) (r : Result StoreFault (Option (Row × Db)))
    → UniqueKeys db.jobs_current
    → scan_batch env input db (ready_rows env input.now_ms db) ≡ r
    → IsStep db.jobs_current (claimed db (some r)).jobs_current
claim_ends env input db (throw e) u h = IsStep-refl u
claim_ends env input db (ok none) u h = IsStep-refl u
claim_ends env input db (ok (some done)) u h =
    let (c, listed, tried) = scan_batch_found env input db _ h in
    Took-IsStep input c db done u
      (take_claim-Took input c db (try_claim_took env input db c tried).2)

pub claim_next-IsStep :
    (env : ClaimEnv) (input : ClaimNextInput) (db : Db)
    → UniqueKeys db.jobs_current
    → IsStep db.jobs_current (claimed db (claim_next env input db)).jobs_current
claim_next-IsStep env input db u =
    rw (claim_next_lem env input db) (claim_ends env input db _ u refl)

reclaim_one-IsStep :
    (now : ℕ) (row : Row) (db : Db)
    → UniqueKeys db.jobs_current
    → IsStep db.jobs_current (reclaim_one now row db).jobs_current
unfolding reclaim_one mark_attempt_lease_lost reclaim_row
reclaim_one-IsStep now row db u =
    update_IsStep (holds_claim row.job_key row.claim_version) (reclaim_row now) db.jobs_current u
      (λ s. refl) (λ k s named hit. reclaim now (running_of_holds _ _ s hit))

reclaim_all-IsStep :
    (now : ℕ) (rows : Jobs) (db : Db)
    → UniqueKeys db.jobs_current
    → IsStep db.jobs_current (reclaim_all now rows db).jobs_current
unfolding reclaim_all
reclaim_all-IsStep now [] db u = IsStep-refl u
reclaim_all-IsStep now (row ∷ rows) db u =
    let first = reclaim_one-IsStep now row db u in
    IsStep-trans first (reclaim_all-IsStep now rows (reclaim_one now row db) first.unique)

pub reclaim-IsStep :
    (now : ℕ) (db : Db)
    → UniqueKeys db.jobs_current
    → IsStep db.jobs_current (reclaim_expired_leases now db).1.jobs_current
unfolding reclaim_expired_leases
reclaim-IsStep now db u = reclaim_all-IsStep now (select (is_expired now) db.jobs_current) db u
