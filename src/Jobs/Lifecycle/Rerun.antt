-- ===== src/Jobs/Lifecycle/Rerun.antt =====
-- src/jobs/pg-store.ts, `complete`: what the completion of a search rebuild leaves in the tables.
use maids_claw.Common.{
  ◌≡◌, refl, sym, ◌∙◌, ℕ, Bool, true, false, Option, none, some, List, [], ◌∷◌, String, str_eq,
  find_first, any_of, arith, Bool-cases, Option-cases, inl, inr, ok,
}
use mathlib.Core.Path.{subst}
use maids_claw.Jobs.Rows.{
  PgJobStatus, PgJobAttemptOutcome, FamilyState, DurableSearchRebuildPayload, Db, search_rebuild,
  row_of, has_key, in_active_family,
}
use maids_claw.Jobs.Rows.Updates.{
  Row, NoKey, UniqueKeys, NoKey-update_where, row_of-update_where, row_of_found, found_passes,
  find_first-append,
}
use maids_claw.Jobs.Family.{normalize_family_state, successor_family_state}
use maids_claw.Jobs.Enqueue.{rebuild_family, key_taken, family_taken, insert_row}
use maids_claw.Jobs.Enqueue.Once.{row_of-insert_row}
use maids_claw.Jobs.Fence.{
  succeeded, holds_claim, update_held, held_row, end_row, release, end_attempt, successor_row,
  successor_job_key, insert_or_raise, insert_successor, complete,
}
use maids_claw.Jobs.Lifecycle.{StoreOp, run}
use maids_claw.Jobs.Lifecycle.Steps.{running_of_holds, key_of_holds}
use maids_claw.Jobs.Lifecycle.Refinement.{run-IsStep}
use maids_claw.Jobs.Lifecycle.Families.{IsSingle}
use maids_claw.Jobs.Lifecycle.Families.Freed.{family_freed, mine_of}
use maids_claw.Jobs.Lifecycle.Families.Operations.{run-IsSingle}

-- a job like `r` under a new key that waits for its first attempt, when `w` is what `r` has heard of
pub record IsSuccessor (key : String) (now : ℕ) (r : Row) (w : FamilyState) (s : Row) : Type 0 where
  pub named : s.job_key ≡ key
  pub family : s.job_family_key ≡ r.job_family_key
  pub payload : s.payload_json ≡ r.payload_json
  pub class : s.execution_class ≡ r.execution_class
  pub concurrency : s.concurrency_key ≡ r.concurrency_key
  pub waits : s.status ≡ PgJobStatus.pending
  pub due : s.next_attempt_at ≡ now
  pub not_ended : s.terminal_at ≡ none
  pub no_owner : s.claimed_by ≡ none
  pub no_lease : s.lease_expires_at ≡ none
  pub no_claims : s.claim_version ≡ 0
  pub no_attempts : s.attempt_count ≡ 0
  pub max_attempts : s.max_attempts ≡ r.max_attempts
  pub no_error : s.last_error_code ≡ none
  pub state :
      s.family_state_json ≡ some (record w { rerun_requested = false; coalesced_request_count = 0 })

-- what a completion of `r` leaves under the new key
pub data Follows (key : String) (now : ℕ) (r : Row) : Option Row → Type 0 where
  asked :
      (w : FamilyState) (s : Row)
      → r.family_state_json ≡ some w
      → w.rerun_requested ≡ true
      → IsSuccessor key now r w s
      → Follows key now r (some s)
  not_asked :
      (w : FamilyState)
      → r.family_state_json ≡ some w
      → w.rerun_requested ≡ false
      → Follows key now r none
  no_state : r.family_state_json ≡ none → Follows key now r none

family_of :
    (p : DurableSearchRebuildPayload) (f : String)
    → str_eq f "" ≡ false
    → rebuild_family (search_rebuild p) (some f) ≡ some (p, f)
unfolding rebuild_family
family_of p f named = rw named refl

-- the insert of a row whose key and family are free
inserted :
    (r : Row) (f : String) (db : Db)
    → r.job_family_key ≡ some f
    → NoKey r.job_key db.jobs_current
    → any_of (in_active_family f) db.jobs_current ≡ false
    → insert_or_raise r db ≡ ok (insert_row r db)
unfolding insert_or_raise key_taken family_taken
inserted r f db family fresh idle = rw fresh (rw family (rw idle (ground arith)))

successor_row-IsSuccessor :
    (key : String) (now : ℕ) (r : Row) (w : FamilyState)
    → r.family_state_json ≡ some w
    → IsSuccessor key now r w (successor_row key now r)
unfolding successor_row successor_family_state normalize_family_state
successor_row-IsSuccessor key now r w known = record {
  named = refl;
  family = refl;
  payload = refl;
  class = refl;
  concurrency = refl;
  waits = refl;
  due = refl;
  not_ended = refl;
  no_owner = refl;
  no_lease = refl;
  no_claims = refl;
  no_attempts = refl;
  max_attempts = refl;
  no_error = refl;
  state = rw known refl;
}

no_row : (p : Row → Bool) (xs : List Row) → any_of p xs ≡ false → find_first p xs ≡ none
no_row p [] h = refl
no_row p (x ∷ xs) h = ground (arith, no_row p xs)

-- what a completed job keeps, and the columns that its end sets
abbrev pub completed : ℕ → Row → Row
completed now r = record r {
  status = PgJobStatus.succeeded;
  claimed_by = none;
  claimed_at = none;
  lease_expires_at = none;
  last_heartbeat_at = none;
  updated_at = now;
  terminal_at = some now;
}

module _ (k f : String) (v now : ℕ) (db : Db) {r : Row} (unique : UniqueKeys db.jobs_current)
    (held : held_row k v db ≡ some r) where
  abbrev ended : Db
  ended =
      update_held k v (end_row PgJobStatus.succeeded now)
        (end_attempt PgJobAttemptOutcome.succeeded now) db

  held_ends : row_of k ended ≡ some (completed now r)
  unfolding update_held
  held_ends =
      let holds = found_passes (holds_claim k v) db.jobs_current held in
      let there : row_of k db ≡ some r =
        subst (λ b. find_first (has_key b) db.jobs_current ≡ some r) (key_of_holds k v r holds)
          (row_of_found (holds_claim k v) db.jobs_current unique held) in
      row_of-update_where k (holds_claim k v) (end_row PgJobStatus.succeeded now) db.jobs_current
        (unfold end_row in λ s. refl)
      ∙ rw there (rw holds (unfold end_row release in refl))

  abbrev Answers : (uuid : String) → Type 0
  Answers uuid =
      (db' : Db) × (complete uuid k v now db ≡ ok (succeeded now, db'))
      × (row_of k db' ≡ some (completed now r))
      × Follows (successor_job_key f uuid) now r (row_of (successor_job_key f uuid) db')

  ends_alone :
      (uuid : String)
      → NoKey (successor_job_key f uuid) db.jobs_current
      → insert_successor uuid now r ended ≡ ok ended
      → Follows (successor_job_key f uuid) now r none
      → Answers uuid
  unfolding complete update_held
  ends_alone uuid fresh nothing follows =
      let key = successor_job_key f uuid in
      let missing : row_of key ended ≡ none = no_row (has_key key) ended.jobs_current (
        NoKey-update_where key (holds_claim k v) (end_row PgJobStatus.succeeded now) db.jobs_current
          (unfold end_row in λ s. refl) fresh) in
      (
        ended,
        rw (held, complete) (rw nothing refl),
        held_ends,
        subst (Follows key now r) (sym missing) follows,
      )

  ends_followed :
      (uuid : String) (w : FamilyState)
      → NoKey (successor_job_key f uuid) db.jobs_current
      → any_of (in_active_family f) ended.jobs_current ≡ false
      → r.job_family_key ≡ some f
      → insert_successor uuid now r ended
        ≡ insert_or_raise (successor_row (successor_job_key f uuid) now r) ended
      → r.family_state_json ≡ some w
      → w.rerun_requested ≡ true
      → Answers uuid
  unfolding complete update_held insert_row successor_row key_taken
  ends_followed uuid w fresh idle family inserts known due =
      let key = successor_job_key f uuid in
      let next = successor_row key now r in
      let free =
        NoKey-update_where key (holds_claim k v) (end_row PgJobStatus.succeeded now) db.jobs_current
          (unfold end_row in λ s. refl) fresh in
      let stored : insert_successor uuid now r ended ≡ ok (insert_row next ended) =
        inserts ∙ inserted next f ended family free idle in
      (
        insert_row next ended,
        rw (held, complete) (rw stored refl),
        find_first-append (has_key k) ended.jobs_current (next ∷ []) held_ends,
        subst (Follows key now r) (sym (row_of-insert_row next ended free))
            (asked w next known due (successor_row-IsSuccessor key now r w known)),
      )

  completes :
      (uuid : String) {p : DurableSearchRebuildPayload}
      → IsSingle f db.jobs_current
      → r.payload_json ≡ search_rebuild p
      → r.job_family_key ≡ some f
      → str_eq f "" ≡ false
      → NoKey (successor_job_key f uuid) db.jobs_current
      → Answers uuid
  unfolding insert_successor normalize_family_state update_held
  completes uuid {p} one rebuild family named fresh =
      let key = successor_job_key f uuid in
      let found : rebuild_family r.payload_json r.job_family_key ≡ some (p, f) =
        rw (rebuild, family) (family_of p f named) in
      let runs = running_of_holds k v r (found_passes (holds_claim k v) db.jobs_current held) in
      let idle =
        family_freed f (holds_claim k v) now db.jobs_current one held (mine_of f r family runs) in
      elim (Option-cases r.family_state_json) [
        | inl unknown ↦
            ends_alone uuid fresh (rw (found, insert_successor) (rw unknown refl))
              (no_state unknown)
        | inr (w, known) ↦ elim (Bool-cases w.rerun_requested) [
          | inl due ↦
              ends_followed uuid w fresh idle family
                (rw (found, insert_successor) (rw known (rw due refl))) known due
          | inr settled ↦
              ends_alone uuid fresh (rw (found, insert_successor) (rw known (rw settled refl)))
                (not_asked w known settled)
        ]
      ]

-- In the tables that any sequence of store operations makes of empty ones, when the holder of a search
-- rebuild with a family completes it, and no job has the key that the uuid gives the next one, then the
-- call succeeds. The completed row has ended and was updated now, has no owner, no lease and no
-- heartbeat, and all its other columns are as they were. If its family state asks for another run, the
-- new key names a row of the same family, payload, execution class, concurrency key and attempt limit,
-- which waits, is due now, has had no claim and no attempt, and asks for no further run; if not, the
-- new key names no row.
pub complete_reruns :
    (os : List StoreOp) (uuid k f : String) (v now : ℕ) {p : DurableSearchRebuildPayload} {r : Row}
    → held_row k v (run os (record { jobs_current = []; job_attempts = [] })) ≡ some r
    → r.payload_json ≡ search_rebuild p
    → r.job_family_key ≡ some f
    → str_eq f "" ≡ false
    → NoKey
        (successor_job_key f uuid)
        (run os (record { jobs_current = []; job_attempts = [] })).jobs_current
    → (db' : Db) × (complete uuid k v now (run os (record { jobs_current = []; job_attempts = [] }))
        ≡ ok (succeeded now, db'))
      × (row_of k db' ≡ some (completed now r))
      × Follows (successor_job_key f uuid) now r (row_of (successor_job_key f uuid) db')
complete_reruns os uuid k f v now held rebuild family named fresh =
    completes k f v now _ (run-IsStep os _ tt).unique held uuid (run-IsSingle os _ f (omega arith))
      rebuild family named fresh
