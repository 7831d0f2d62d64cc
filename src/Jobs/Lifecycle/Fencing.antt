-- ===== src/Jobs/Lifecycle/Fencing.antt =====
-- A worker that has lost its claim can do nothing to the job.
use mathlib.Core.Path.{subst}
use maids_claw.Common.{
  ◌≡◌, ℕ, suc, ◌≤◌, true, none, some, List, String, find_first, arith, Option-cases, inl, inr, ok,
  ==_iff,
}
use maids_claw.Jobs.Rows.{Db, has_key, row_of}
use maids_claw.Jobs.Rows.Updates.{Row, UniqueKeys, row_of_found, found_passes}
use maids_claw.Jobs.Fence.{
  FenceResult, missed, stale_claim, holds_claim, classify_fence_miss, fence_miss, held_row,
  heartbeat, complete, PgJobFailInput, fail, cancel,
}
use maids_claw.Jobs.Machine.{ClaimedSince}
use maids_claw.Jobs.Lifecycle.{StoreOp, run}
use maids_claw.Jobs.Lifecycle.Steps.{key_of_holds}
use maids_claw.Jobs.Lifecycle.Fenced.{fence_miss_jobs}
use maids_claw.Jobs.Lifecycle.Refinement.{run-IsStep, run-ClaimedSince}

version_of_holds : (k : String) (v : ℕ) (r : Row) → holds_claim k v r ≡ true → r.claim_version ≡ v
unfolding holds_claim
version_of_holds k v r h = (==_iff r.claim_version v).0 (ground arith)

-- A claim that is older than the row's is held by no row.
not_held :
    (k : String) (v : ℕ) (db : Db)
    → UniqueKeys db.jobs_current
    → ClaimedSince (suc v) (row_of k db)
    → held_row k v db ≡ none
not_held k v db u since = elim (Option-cases (held_row k v db)) [
  | inl missing ↦ missing
  | inr (r, held) ↦
      let holds = found_passes (holds_claim k v) db.jobs_current held in
      let named : row_of k db ≡ some r =
        subst (λ b. find_first (has_key b) db.jobs_current ≡ some r) (key_of_holds k v r holds)
          (row_of_found (holds_claim k v) db.jobs_current u held) in
      let newer : suc v ≤ r.claim_version = subst (ClaimedSince (suc v)) named since in
      absurd (omega (arith, version_of_holds k v r holds))
]

stale_of_since :
    (k : String) (v : ℕ) (db : Db)
    → ClaimedSince (suc v) (row_of k db)
    → classify_fence_miss k v db ≡ stale_claim
unfolding classify_fence_miss
stale_of_since k v db since = elim (Option-cases (row_of k db)) [
  | inl missing ↦ elim (rw missing at since) [ ]
  | inr (r, named) ↦
      let newer : suc v ≤ r.claim_version = subst (ClaimedSince (suc v)) named since in
      rw (named, classify_fence_miss) (ground arith)
]

abbrev pub Refused : Db → FenceResult × Db → Type 0
Refused db done = (done.0 ≡ missed stale_claim) × (done.1.jobs_current ≡ db.jobs_current)

fence_miss-Refused :
    (k : String) (v now : ℕ) (db : Db)
    → ClaimedSince (suc v) (row_of k db)
    → Refused db (fence_miss k v now db)
unfolding fence_miss
fence_miss-Refused k v now db since =
    (rw (stale_of_since k v db since, fence_miss), fence_miss_jobs k v now db)

-- In tables with unique job keys, once a job has been claimed at a later version, then whatever the
-- store does next, a heartbeat, a completion, a failure and a cancellation under the earlier version
-- are refused as stale, and none of them changes a job.
pub late_worker-Refused :
    (os : List StoreOp) (before : Db) (k uuid : String) (v now : ℕ) (e : PgJobFailInput)
    → UniqueKeys before.jobs_current
    → ClaimedSince (suc v) (row_of k before)
    → let db = run os before in
      Refused db (heartbeat k v now db)
      × ((complete uuid k v now db ≡ ok (fence_miss k v now db))
          × Refused db (fence_miss k v now db))
      × Refused db (fail k v e db)
      × Refused db (cancel k v now db)
unfolding heartbeat complete fail cancel
late_worker-Refused os before k uuid v now e u since =
    let db = run os before in
    let since' = run-ClaimedSince os before k (suc v) u since in
    let lost = not_held k v db (run-IsStep os before u).unique since' in
    (
      rw (lost, heartbeat) (fence_miss-Refused k v now db since'),
      (rw (lost, complete), fence_miss-Refused k v now db since'),
      rw (lost, fail) (fence_miss-Refused k v e.now_ms db since'),
      rw (lost, cancel) (fence_miss-Refused k v now db since'),
    )
