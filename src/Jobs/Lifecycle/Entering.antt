-- ===== src/Jobs/Lifecycle/Entering.antt =====
-- How rows come in, by an enqueue or as the successor of a completed rebuild, and that completing is a
-- step of the machine.
use mathlib.Core.Path.{subst}
use maids_claw.Common.{
  ◌≡◌, refl, sym, ◌∙◌, ℕ, true, false, Option, none, some, [], ◌∷◌, ◌++◌, String, str_eq, eq_iff,
  find_first, Bool-cases, Option-cases, inl, inr, arith, Result, ok, throw, Result-cases,
}
use maids_claw.Jobs.Rows.{
  PgJobStatus, PgJobAttemptOutcome, is_active, FamilyState, Db, has_key, row_of, in_active_family,
  DurableSearchRebuildPayload,
}
use maids_claw.Jobs.Family.{normalize_family_state, initial_family_state}
use maids_claw.Jobs.Rows.Updates.{
  Row, NoKey, UniqueKeys, UniqueKeys-append_one, row_of_found, found_passes, find_first-append,
  find_first-append_none,
}
use maids_claw.Jobs.Enqueue.{
  EnqueueJobInput, EnqueueResult, StoreFault, new_row, key_taken, family_taken, insert_row,
  rebuild_family, join_row, join_family, after_conflict, enqueue_rebuild, enqueue_plain,
  enqueue_new, enqueue, alone,
}
use maids_claw.Jobs.Fence.{
  holds_claim, update_held, held_row, end_row, end_attempt, successor_row, insert_or_raise,
  insert_successor, complete,
}
use maids_claw.Jobs.Machine.{RowSteps, stay, go, insert, join, succeed, IsFresh}
use maids_claw.Jobs.Lifecycle.{committed}
use maids_claw.Jobs.Lifecycle.Steps.{
  Jobs, IsStep, IsStep-refl, IsStep-trans, update_IsStep, running_of_holds,
}
use maids_claw.Jobs.Lifecycle.Fenced.{fence_miss-IsStep}

-- A fresh row with a new key is a step.
append_IsStep :
    (r : Row) (xs : Jobs)
    → IsFresh r
    → NoKey r.job_key xs
    → UniqueKeys xs
    → IsStep xs (xs ++ r ∷ [])
append_IsStep r xs fresh new u = record {
  advances = λ k. elim (Option-cases (find_first (has_key k) xs)) [
    | inl missing ↦ rw (missing, find_first-append_none (has_key k) xs (r ∷ []) missing) (arrives k)
    | inr (s, there) ↦ rw (there, find_first-append (has_key k) xs (r ∷ []) there) stay
  ];
  unique = UniqueKeys-append_one xs r u new;
}
  where
    arrives : (k : String) → RowSteps none (find_first (has_key k) (r ∷ []))
    arrives k = elim (Bool-cases (str_eq r.job_key k)) [
      | inl hit ↦ rw hit (go (insert fresh) stay)
      | inr miss ↦ rw miss stay
    ]

new_row-IsFresh : (input : EnqueueJobInput) (s : Option FamilyState) → IsFresh (new_row input s)
unfolding new_row
new_row-IsFresh input s = ground arith

successor_row-IsFresh : (k : String) (now : ℕ) (r : Row) → IsFresh (successor_row k now r)
unfolding successor_row
successor_row-IsFresh k now r = ground arith

active_of_family : (f : String) (r : Row) → in_active_family f r ≡ true → is_active r.status ≡ true
unfolding in_active_family
active_of_family f r h = ground arith

-- Joining a family changes the one row that was found.
join_row-IsStep :
    (input : EnqueueJobInput) (payload : DurableSearchRebuildPayload) (f : String) (db : Db)
    {active : Row}
    → UniqueKeys db.jobs_current
    → find_first (in_active_family f) db.jobs_current ≡ some active
    → IsStep db.jobs_current (join_row input payload active db).jobs_current
unfolding join_row
join_row-IsStep input payload f db {active} u found =
    update_IsStep (has_key active.job_key) _ db.jobs_current u (λ s. refl)
      (λ k s named hit.
        let same_key = (eq_iff s.job_key active.job_key).0 hit in
        let key_named = (eq_iff s.job_key k).0 (found_passes (has_key k) _ named) in
        let active_row : find_first (has_key k) db.jobs_current ≡ some active =
          subst (λ b. find_first (has_key b) db.jobs_current ≡ some active)
            (sym same_key ∙ key_named)
            (row_of_found (in_active_family f) db.jobs_current u found) in
        let same : active ≡ s = ground arith in
        join _ input.now_ms (
          subst (λ (b : Row). is_active b.status ≡ true) same
            (active_of_family f active (found_passes (in_active_family f) _ found))))

insert_row-IsStep :
    (r : Row) (db : Db)
    → IsFresh r
    → key_taken r db ≡ false
    → UniqueKeys db.jobs_current
    → IsStep db.jobs_current (insert_row r db).jobs_current
unfolding insert_row key_taken
insert_row-IsStep r db fresh new u = append_IsStep r db.jobs_current fresh new u

module _ (input : EnqueueJobInput) (db : Db) (u : UniqueKeys db.jobs_current) where
  abbrev Step : Result StoreFault (EnqueueResult × Db) → Type 0
  Step r = IsStep db.jobs_current (committed db r).jobs_current

  after_conflict-IsStep :
      (payload : DurableSearchRebuildPayload) (f : String)
      → Step (after_conflict alone input payload f db)
  unfolding after_conflict join_family
  after_conflict-IsStep payload f = elim (Option-cases (row_of input.job_key db)) [
    | inr (r, there) ↦ rw (there, after_conflict) (IsStep-refl u)
    | inl missing ↦ elim (Option-cases (find_first (in_active_family f) db.jobs_current)) [
      | inr (active, found) ↦
          rw (missing, after_conflict) (rw found (join_row-IsStep input payload f db u found))
      | inl none_active ↦ rw (missing, after_conflict) (rw none_active (IsStep-refl u))
    ]
  ]

  enqueue_rebuild-IsStep :
      (payload : DurableSearchRebuildPayload) (f : String)
      → Step (enqueue_rebuild alone input payload f db)
  unfolding enqueue_rebuild join_family
  enqueue_rebuild-IsStep payload f =
      let row = new_row input (some (initial_family_state payload)) in
      elim (Option-cases (find_first (in_active_family f) db.jobs_current)) [
        | inr (active, found) ↦
            rw (found, enqueue_rebuild) (join_row-IsStep input payload f db u found)
        | inl none_active ↦ elim (Bool-cases (key_taken row db)) [
          | inl taken ↦
              rw (none_active, enqueue_rebuild) (rw taken (after_conflict-IsStep payload f))
          | inr new ↦ elim (Bool-cases (family_taken row db)) [
            | inl taken ↦
                rw (none_active, enqueue_rebuild)
                  (rw (new, taken) (after_conflict-IsStep payload f))
            | inr free ↦
                rw (none_active, enqueue_rebuild)
                  (rw (new, free) (insert_row-IsStep row db (new_row-IsFresh input _) new u))
          ]
        ]
      ]

  enqueue_plain-IsStep : Step (enqueue_plain alone input db)
  unfolding enqueue_plain
  enqueue_plain-IsStep =
      let row = new_row input none in
      elim (Bool-cases (key_taken row db)) [
        | inl taken ↦ rw (taken, enqueue_plain) (IsStep-refl u)
        | inr new ↦ elim (Bool-cases (family_taken row db)) [
          | inl taken ↦ rw (new, enqueue_plain) (rw taken (IsStep-refl u))
          | inr free ↦
              rw (new, enqueue_plain)
                (rw free (insert_row-IsStep row db (new_row-IsFresh input none) new u))
        ]
      ]

  enqueue_new-IsStep : Step (enqueue_new alone input db)
  unfolding enqueue_new
  enqueue_new-IsStep =
      elim (Option-cases (rebuild_family input.payload_json input.job_family_key)) [
        | inr ((payload, f), family) ↦ rw (family, enqueue_new) (enqueue_rebuild-IsStep payload f)
        | inl plain ↦ rw (plain, enqueue_new) enqueue_plain-IsStep
      ]

  pub enqueue-IsStep : Step (enqueue alone input db)
  unfolding enqueue
  enqueue-IsStep = elim (Option-cases (row_of input.job_key db)) [
    | inr (r, there) ↦ rw (there, enqueue) (IsStep-refl u)
    | inl missing ↦ rw (missing, enqueue) enqueue_new-IsStep
  ]

abbrev inserted : Db → Result StoreFault Db → Db
inserted db (ok db') = db'
inserted db (throw e) = db

insert_or_raise-IsStep :
    (r : Row) (db : Db)
    → IsFresh r
    → UniqueKeys db.jobs_current
    → IsStep db.jobs_current (inserted db (insert_or_raise r db)).jobs_current
unfolding insert_or_raise
insert_or_raise-IsStep r db fresh u = elim (Bool-cases (key_taken r db)) [
  | inl taken ↦ rw (taken, insert_or_raise) (IsStep-refl u)
  | inr new ↦ elim (Bool-cases (family_taken r db)) [
    | inl taken ↦ rw (new, insert_or_raise) (rw taken (IsStep-refl u))
    | inr free ↦ rw (new, insert_or_raise) (rw free (insert_row-IsStep r db fresh new u))
  ]
]

insert_successor-IsStep :
    (uuid : String) (now : ℕ) (r : Row) (db : Db)
    → UniqueKeys db.jobs_current
    → IsStep db.jobs_current (inserted db (insert_successor uuid now r db)).jobs_current
unfolding insert_successor
insert_successor-IsStep uuid now r db u =
    elim (Option-cases (rebuild_family r.payload_json r.job_family_key)) [
      | inl plain ↦ rw (plain, insert_successor) (IsStep-refl u)
      | inr ((payload, f), family) ↦
          elim (Bool-cases (normalize_family_state r.family_state_json).rerun_requested) [
            | inl again ↦
                rw (family, insert_successor)
                  (rw again (insert_or_raise-IsStep _ db (successor_row-IsFresh _ now r) u))
            | inr settled ↦ rw (family, insert_successor) (rw settled (IsStep-refl u))
          ]
    ]

pub complete-IsStep :
    (uuid k : String) (v now : ℕ) (db : Db)
    → UniqueKeys db.jobs_current
    → IsStep db.jobs_current (committed db (complete uuid k v now db)).jobs_current
unfolding complete update_held
complete-IsStep uuid k v now db u = elim (Option-cases (held_row k v db)) [
  | inl miss ↦ rw (miss, complete) (fence_miss-IsStep k v now db u)
  | inr (r, held) ↦
      let mid =
        update_held k v (end_row PgJobStatus.succeeded now)
          (end_attempt PgJobAttemptOutcome.succeeded now) db in
      let ended : IsStep db.jobs_current mid.jobs_current =
        update_IsStep (holds_claim k v) (end_row PgJobStatus.succeeded now) db.jobs_current u
          (λ s. refl) (λ j s named hit. succeed now (running_of_holds k v s hit)) in
      let entered = insert_successor-IsStep uuid now r mid ended.unique in
      elim (Result-cases (insert_successor uuid now r mid)) [
        | inl (db', done) ↦ rw (held, complete) (rw done (IsStep-trans ended (rw done at entered)))
        | inr (e, raised) ↦ rw (held, complete) (rw raised (IsStep-refl u))
      ]
]
