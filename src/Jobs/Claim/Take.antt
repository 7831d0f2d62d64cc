-- ===== src/Jobs/Claim/Take.antt =====
-- What one attempt at a claim has done.
use maids_claw.Common.{
  ◌≢◌, ◌≡◌, ◌∙◌, ap, true, ◌++◌, [], ◌∷◌, none, some, find_first, Option-cases, Result-cases, inl,
  inr, arith, ok,
}
use maids_claw.Jobs.Rows.{Db, update_where}
use maids_claw.Jobs.Rows.Updates.{Row}
use maids_claw.Jobs.Claim.{
  ClaimEnv, ClaimNextInput, waits, claim_row, new_attempt, insert_attempt, take_claim, try_claim,
  has_room,
}
use maids_claw.Jobs.Claim.Scan.{Claimed}

pub insert_attempt_jobs :
    (a : _) (db : Db) {db' : Db} → insert_attempt a db ≡ ok db' → db'.jobs_current ≡ db.jobs_current
unfolding insert_attempt
insert_attempt_jobs a db h = ground arith

insert_attempt_attempts :
    (a : _) (db : Db) {db' : Db}
    → insert_attempt a db ≡ ok db'
    → db'.job_attempts ≡ db.job_attempts ++ a ∷ []
unfolding insert_attempt
insert_attempt_attempts a db h = ground arith

-- What a claim has done: the row that it found waiting is claimed, nothing else of the table, and the
-- history has one more attempt.
pub record Took (input : ClaimNextInput) (c : Row) (db : Db) (done : Row × Db) : Type 0 where
  pub found : Row
  pub waiting : find_first (waits c.job_key) db.jobs_current ≡ some found
  pub row : done.0 ≡ claim_row input found
  pub jobs : done.1.jobs_current ≡ update_where (waits c.job_key) (claim_row input) db.jobs_current
  pub attempts :
      done.1.job_attempts ≡ db.job_attempts ++ new_attempt input (claim_row input found) ∷ []

inner_some : {a b : Row × Db} → ◌≡◌ {A = Claimed} (ok (some a)) (ok (some b)) → b ≡ a
inner_some h = cc

pub take_claim-Took :
    (input : ClaimNextInput) (c : Row) (db : Db) {done : Row × Db}
    → take_claim input c db ≡ ok (some done)
    → Took input c db done
unfolding take_claim
take_claim-Took input c db {done} h =
    elim (Option-cases (find_first (waits c.job_key) db.jobs_current)) [
      | inl missing ↦ absurd (cc (rw (missing, take_claim) at h))
      | inr (r, waiting) ↦
          let jobs = update_where (waits c.job_key) (claim_row input) db.jobs_current in
          let attempt = new_attempt input (claim_row input r) in
          let db1 : Db = record db { jobs_current = jobs } in
          let opened = rw (waiting, take_claim) at h in
          elim (Result-cases (insert_attempt attempt db1)) [
            | inl (db', stored) ↦
                let same : done ≡ (claim_row input r, db') = inner_some (rw stored at opened) in
                record {
                  found = r;
                  waiting = waiting;
                  row = ap (λ d. d.0) same;
                  jobs = ap (λ d. d.1.jobs_current) same ∙ insert_attempt_jobs attempt db1 stored;
                  attempts =
                      ap (λ d. d.1.job_attempts) same ∙ insert_attempt_attempts attempt db1 stored;
                }
            | inr (e, raised) ↦ absurd (cc (rw raised at opened))
          ]
    ]

pub try_claim_took :
    (env : ClaimEnv) (input : ClaimNextInput) (db : Db) (c : Row) {done : Row × Db}
    → try_claim env input db c ≡ ok (some done)
    → (env.lock c.concurrency_key ≡ true)
      × (has_room env.thinker_global_concurrency_cap c db ≡ true)
      × (take_claim input c db ≡ ok (some done))
unfolding try_claim
try_claim_took env input db c {done} h = ground arith

-- A row that is waiting is not passed over once it is taken.
pub take_claim-ne-none :
    (input : ClaimNextInput) (c : Row) (db : Db) {r : Row}
    → find_first (waits c.job_key) db.jobs_current ≡ some r
    → take_claim input c db ≢ ok none
unfolding take_claim
take_claim-ne-none input c db {r} waiting = λ passed.
    let jobs = update_where (waits c.job_key) (claim_row input) db.jobs_current in
    let db1 : Db = record db { jobs_current = jobs } in
    let opened = rw (waiting, take_claim) at passed in
    elim (Result-cases (insert_attempt (new_attempt input (claim_row input r)) db1)) [
      | inl (db', stored) ↦ cc (rw stored at opened)
      | inr (e, raised) ↦ cc (rw raised at opened)
    ]
