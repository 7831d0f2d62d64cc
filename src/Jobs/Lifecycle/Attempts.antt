-- ===== src/Jobs/Lifecycle/Attempts.antt =====
-- The attempt history against the jobs that it is about, and the unique index of the attempts.
use mathlib.Core.Path.{subst}
use maids_claw.Common.{
  ◌≡◌, ◌≢◌, refl, ap, ◌∙◌, ◌+◌, ◌&&◌, true, false, none, some, List, [], ◌∷◌, ◌++◌, String, eq_iff,
  find_first, any_of, All, arith, Bool-cases, Option-cases, inl, inr, ok, throw,
}
use maids_claw.Jobs.Rows.{PgJobAttemptHistoryRow, Db, has_key}
use maids_claw.Jobs.Rows.Updates.{Row, UniqueKeys, row_of-update_where, row_of_found, found_passes}
use maids_claw.Jobs.Machine.{ClaimedSince, RowSteps-ClaimedSince}
use maids_claw.Jobs.Enqueue.{StoreFault}
use maids_claw.Jobs.Claim.{
  has_room, ClaimEnv, ClaimNextInput, waits, same_claim, claim_row, new_attempt, insert_attempt,
  take_claim, try_claim, or_continue, scan_batch,
}
use maids_claw.Jobs.Claim.Take.{Took}
use maids_claw.Jobs.Claim.Scan.{Claimed}
use maids_claw.Jobs.Lifecycle.Steps.{Jobs, IsStep}

abbrev Attempt : Type 0
Attempt = PgJobAttemptHistoryRow

-- Each attempt is of a job that is there and has been claimed at least as often.
abbrev pub IsRecorded : Jobs → List Attempt → Type 0
IsRecorded jobs attempts =
    All (λ a. ClaimedSince a.claim_version (find_first (has_key a.job_key) jobs)) attempts

pub IsRecorded-IsStep :
    {xs ys : Jobs} (attempts : List Attempt)
    → IsStep xs ys
    → IsRecorded xs attempts
    → IsRecorded ys attempts
IsRecorded-IsStep [] step h = tt
IsRecorded-IsStep (a ∷ as') step (known, h) = (
  RowSteps-ClaimedSince a.claim_version (step.advances a.job_key) known,
  IsRecorded-IsStep as' step h,
)

IsRecorded-append_one :
    (jobs : Jobs) (attempts : List Attempt) (a : Attempt)
    → IsRecorded jobs attempts
    → ClaimedSince a.claim_version (find_first (has_key a.job_key) jobs)
    → IsRecorded jobs (attempts ++ a ∷ [])
IsRecorded-append_one jobs [] a h known = (known, tt)
IsRecorded-append_one jobs (b ∷ bs) a (first, h) known =
    (first, IsRecorded-append_one jobs bs a h known)

waits_key : (k : String) (r : Row) → waits k r ≡ true → r.job_key ≡ k
unfolding waits
waits_key k r h = (eq_iff r.job_key k).0 (ground arith)

-- The attempt of a claim is recorded in the tables that it leaves.
pub Took-IsRecorded :
    (input : ClaimNextInput) (c : Row) (db : Db) (done : Row × Db)
    → UniqueKeys db.jobs_current
    → IsStep db.jobs_current done.1.jobs_current
    → Took input c db done
    → IsRecorded db.jobs_current db.job_attempts
    → IsRecorded done.1.jobs_current done.1.job_attempts
unfolding claim_row new_attempt
Took-IsRecorded input c db done u step took h =
    let r = took.found in
    let attempt = new_attempt input (claim_row input r) in
    let hit = found_passes (waits c.job_key) db.jobs_current took.waiting in
    let there : find_first (has_key r.job_key) db.jobs_current ≡ some r =
      row_of_found (waits c.job_key) db.jobs_current u took.waiting in
    let now : find_first (has_key r.job_key) done.1.jobs_current ≡ some (claim_row input r) =
      ap (find_first (has_key r.job_key)) took.jobs
      ∙ row_of-update_where r.job_key (waits c.job_key) (claim_row input) db.jobs_current
          (λ s. refl)
      ∙ rw there (rw hit refl) in
    rw (took.attempts) (
      IsRecorded-append_one done.1.jobs_current db.job_attempts attempt
        (IsRecorded-IsStep db.job_attempts step h) (rw now (omega arith)))

unused_version :
    (jobs : Jobs) (attempts : List Attempt) (r : Row)
    → find_first (has_key r.job_key) jobs ≡ some r
    → IsRecorded jobs attempts
    → any_of (same_claim r.job_key (r.claim_version + 1)) attempts ≡ false
unfolding same_claim
unused_version jobs [] r there h = refl
unused_version jobs (a ∷ as') r there (known, h) =
    elim (Bool-cases (same_claim r.job_key (r.claim_version + 1) a)) [
      | inr other ↦ rw other (unused_version jobs as' r there h)
      | inl same ↦
          let key : a.job_key ≡ r.job_key = (eq_iff a.job_key r.job_key).0 (ground arith) in
          let since : ClaimedSince a.claim_version (some r) =
            subst (λ o. ClaimedSince a.claim_version o)
              (ap (λ k. find_first (has_key k) jobs) key ∙ there) known in
          let version : a.claim_version ≡ r.claim_version + 1 = ground arith in absurd (omega arith)
    ]

module _ (env : ClaimEnv) (input : ClaimNextInput) (db : Db) (u : UniqueKeys db.jobs_current)
    (recorded : IsRecorded db.jobs_current db.job_attempts) where
  take_claim_quiet : (c : Row) (e : StoreFault) → take_claim input c db ≢ throw e
  unfolding take_claim insert_attempt new_attempt claim_row
  take_claim_quiet c e raised = elim (Option-cases (find_first (waits c.job_key) db.jobs_current)) [
    | inl missing ↦ absurd (cc (rw (missing, take_claim) at raised))
    | inr (r, waiting) ↦
        let there = row_of_found (waits c.job_key) db.jobs_current u waiting in
        let unused = unused_version db.jobs_current db.job_attempts r there recorded in
        absurd (cc (rw unused at (rw (waiting, take_claim) at raised)))
  ]

  try_claim_quiet : (c : Row) (e : StoreFault) → try_claim env input db c ≢ throw e
  unfolding try_claim
  try_claim_quiet c e raised =
      elim (Bool-cases
        (env.lock c.concurrency_key && has_room env.thinker_global_concurrency_cap c db)) [
          | inl free ↦ take_claim_quiet c e (rw (free, try_claim) at raised)
          | inr busy ↦ absurd (cc (rw (busy, try_claim) at raised))
        ]

  pub scan_batch_quiet : (rows : List Row) (e : StoreFault) → scan_batch env input db rows ≢ throw e
  unfolding scan_batch
  scan_batch_quiet [] e h = absurd (cc)
  scan_batch_quiet (c ∷ rows) e h = go (try_claim env input db c) refl (scan_batch_quiet rows e) h
    where
      go :
          (a : Claimed)
          → try_claim env input db c ≡ a
          → scan_batch env input db rows ≢ throw e
          → or_continue a (scan_batch env input db rows) ≢ throw e
      go (throw f) t later raised = try_claim_quiet c f t
      go (ok (some d)) t later raised = absurd (cc)
      go (ok none) t later raised = later raised
