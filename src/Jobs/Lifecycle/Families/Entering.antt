-- ===== src/Jobs/Lifecycle/Families/Entering.antt =====
-- The active jobs of a family under enqueuing and completing.
use maids_claw.Common.{
  ◌≡◌, refl, ℕ, true, none, some, String, find_first, Bool-cases, Option-cases, inl, inr, arith,
  Result, ok, throw, Result-cases,
}
use maids_claw.Jobs.Rows.{
  PgJobStatus, PgJobAttemptOutcome, is_active, is_running, update_where, Db, in_active_family,
  row_of, has_key, DurableSearchRebuildPayload,
}
use maids_claw.Jobs.Rows.Updates.{Row}
use maids_claw.Jobs.Family.{normalize_family_state, initial_family_state}
use maids_claw.Jobs.Enqueue.{
  EnqueueJobInput, EnqueueResult, StoreFault, new_row, key_taken, family_taken, rebuild_family,
  join_row, join_family, after_conflict, enqueue_rebuild, enqueue_plain, enqueue_new, enqueue,
  alone,
}
use maids_claw.Jobs.Fence.{
  holds_claim, update_held, held_row, end_row, end_attempt, insert_or_raise, insert_successor,
  successor_row, successor_job_key, complete,
}
use maids_claw.Jobs.Lifecycle.{committed}
use maids_claw.Jobs.Lifecycle.Steps.{running_of_holds}
use maids_claw.Jobs.Lifecycle.Fenced.{fence_miss_jobs}
use maids_claw.Jobs.Lifecycle.Families.{
  KeepsSingle, update_KeepsFamilies, update_KeepsSingle, insert_row-KeepsSingle,
}

-- A join changes neither the status nor the family of a row.
join_row-KeepsSingle :
    (input : EnqueueJobInput) (payload : DurableSearchRebuildPayload) (active : Row) (db : Db)
    → KeepsSingle db.jobs_current (join_row input payload active db).jobs_current
unfolding join_row in_active_family
join_row-KeepsSingle input payload active db =
    update_KeepsFamilies (has_key active.job_key) _ db.jobs_current (λ f r hit was. was)

module _ (input : EnqueueJobInput) (db : Db) where
  abbrev Keeps : Result StoreFault (EnqueueResult × Db) → Type 0
  Keeps r = KeepsSingle db.jobs_current (committed db r).jobs_current

  after_conflict-KeepsSingle :
      (payload : DurableSearchRebuildPayload) (g : String)
      → Keeps (after_conflict alone input payload g db)
  unfolding after_conflict join_family
  after_conflict-KeepsSingle payload g f h = elim (Option-cases (row_of input.job_key db)) [
    | inr (r, there) ↦ rw (there, after_conflict) h
    | inl missing ↦ elim (Option-cases (find_first (in_active_family g) db.jobs_current)) [
      | inr (active, found) ↦
          rw (missing, after_conflict) (rw found (join_row-KeepsSingle input payload active db f h))
      | inl none_active ↦ rw (missing, after_conflict) (rw none_active h)
    ]
  ]

  enqueue_rebuild-KeepsSingle :
      (payload : DurableSearchRebuildPayload) (g : String)
      → Keeps (enqueue_rebuild alone input payload g db)
  unfolding enqueue_rebuild join_family
  enqueue_rebuild-KeepsSingle payload g f h =
      let row = new_row input (some (initial_family_state payload)) in
      elim (Option-cases (find_first (in_active_family g) db.jobs_current)) [
        | inr (active, found) ↦
            rw (found, enqueue_rebuild) (join_row-KeepsSingle input payload active db f h)
        | inl none_active ↦ elim (Bool-cases (key_taken row db)) [
          | inl taken ↦
              rw (none_active, enqueue_rebuild)
                (rw taken (after_conflict-KeepsSingle payload g f h))
          | inr new ↦ elim (Bool-cases (family_taken row db)) [
            | inl taken ↦
                rw (none_active, enqueue_rebuild)
                  (rw (new, taken) (after_conflict-KeepsSingle payload g f h))
            | inr free ↦
                rw (none_active, enqueue_rebuild)
                  (rw (new, free) (insert_row-KeepsSingle row db free f h))
          ]
        ]
      ]

  enqueue_plain-KeepsSingle : Keeps (enqueue_plain alone input db)
  unfolding enqueue_plain
  enqueue_plain-KeepsSingle f h =
      let row = new_row input none in
      elim (Bool-cases (key_taken row db)) [
        | inl taken ↦ rw (taken, enqueue_plain) h
        | inr new ↦ elim (Bool-cases (family_taken row db)) [
          | inl taken ↦ rw (new, enqueue_plain) (rw taken h)
          | inr free ↦ rw (new, enqueue_plain) (rw free (insert_row-KeepsSingle row db free f h))
        ]
      ]

  enqueue_new-KeepsSingle : Keeps (enqueue_new alone input db)
  unfolding enqueue_new
  enqueue_new-KeepsSingle f h =
      elim (Option-cases (rebuild_family input.payload_json input.job_family_key)) [
        | inr ((payload, g), family) ↦
            rw (family, enqueue_new) (enqueue_rebuild-KeepsSingle payload g f h)
        | inl plain ↦ rw (plain, enqueue_new) (enqueue_plain-KeepsSingle f h)
      ]

  pub enqueue-KeepsSingle : Keeps (enqueue alone input db)
  unfolding enqueue
  enqueue-KeepsSingle f h = elim (Option-cases (row_of input.job_key db)) [
    | inr (r, there) ↦ rw (there, enqueue) h
    | inl missing ↦ rw (missing, enqueue) (enqueue_new-KeepsSingle f h)
  ]

-- what is in the tables after a call that inserts or raises
abbrev Stays : Db → Result StoreFault Db → Type 0
Stays db (ok db') = KeepsSingle db.jobs_current db'.jobs_current
Stays db (throw e) = Unit

insert_or_raise-Stays : (r : Row) (db : Db) → Stays db (insert_or_raise r db)
unfolding insert_or_raise
insert_or_raise-Stays r db = elim (Bool-cases (key_taken r db)) [
  | inl taken ↦ rw (taken, insert_or_raise) tt
  | inr new ↦ elim (Bool-cases (family_taken r db)) [
    | inl taken ↦ rw (new, insert_or_raise) (rw taken tt)
    | inr free ↦ rw (new, insert_or_raise) (rw free (insert_row-KeepsSingle r db free))
  ]
]

insert_successor-Stays :
    (uuid : String) (now : ℕ) (r : Row) (db : Db) → Stays db (insert_successor uuid now r db)
unfolding insert_successor
insert_successor-Stays uuid now r db =
    elim (Option-cases (rebuild_family r.payload_json r.job_family_key)) [
      | inl plain ↦ rw (plain, insert_successor) (λ f h. h)
      | inr ((payload, g), family) ↦
          elim (Bool-cases (normalize_family_state r.family_state_json).rerun_requested) [
            | inl again ↦
                rw (family, insert_successor)
                  (rw again
                    (insert_or_raise-Stays (successor_row (successor_job_key g uuid) now r) db))
            | inr settled ↦ rw (family, insert_successor) (rw settled (λ f h. h))
          ]
    ]

active_of_running : (s : PgJobStatus) → is_running s ≡ true → is_active s ≡ true
unfolding is_running is_active
active_of_running s h = ground arith

-- An update under a claim that keeps families.
pub held_KeepsSingle :
    (k : String) (v : ℕ) (g : Row → Row) (db : Db)
    → ((r : Row) → (g r).job_family_key ≡ r.job_family_key)
    → KeepsSingle db.jobs_current (update_where (holds_claim k v) g db.jobs_current)
held_KeepsSingle k v g db family =
    update_KeepsSingle (holds_claim k v) g db.jobs_current
      (λ r hit. active_of_running r.status (running_of_holds k v r hit)) family

pub complete-KeepsSingle :
    (uuid k : String) (v now : ℕ) (db : Db)
    → KeepsSingle db.jobs_current (committed db (complete uuid k v now db)).jobs_current
unfolding complete update_held
complete-KeepsSingle uuid k v now db f h = elim (Option-cases (held_row k v db)) [
  | inl miss ↦ rw (miss, complete) (rw (fence_miss_jobs k v now db) h)
  | inr (r, held) ↦
      let mid =
        update_held k v (end_row PgJobStatus.succeeded now)
          (end_attempt PgJobAttemptOutcome.succeeded now) db in
      let ended =
        held_KeepsSingle k v (end_row PgJobStatus.succeeded now) db (unfold end_row in λ s. refl) f
          h in
      let entered = insert_successor-Stays uuid now r mid in
      elim (Result-cases (insert_successor uuid now r mid)) [
        | inl (db', done) ↦ rw (held, complete) (rw done ((rw done at entered) f ended))
        | inr (e, raised) ↦ rw (held, complete) (rw raised h)
      ]
]
