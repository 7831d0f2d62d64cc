-- ===== src/Jobs/Enqueue/Once.antt =====
-- An enqueued job is enqueued once.
use maids_claw.Common.{
  ◌≢◌, ◌≡◌, refl, ◌∙◌, ℕ, Bool, false, ◌||◌, Option, none, some, List, [], ◌∷◌, String, eq_iff,
  find_first, any_of, arith, Bool-cases, Option-cases, inl, inr, Result, ok,
}
use maids_claw.Jobs.Rows.{pending, FamilyState, DurableSearchRebuildPayload, Db, has_key, row_of}
use maids_claw.Jobs.Rows.Updates.{Row, find_first-append_none}
use maids_claw.Jobs.Family.{initial_family_state}
use maids_claw.Jobs.Enqueue.{
  EnqueueJobInput, EnqueueResult, created, duplicate, StoreFault, new_row, key_taken, family_taken,
  insert_row, rebuild_family, duplicate_of, join_family, after_conflict, enqueue_rebuild,
  coalesce_text, duplicate_or_default, enqueue_plain, enqueue_new, enqueue,
}

-- that a call that created a job has stored its row
abbrev pub Stored : EnqueueJobInput → Result StoreFault (EnqueueResult × Db) → Type 0
Stored input r =
    (db' : Db)
    → r ≡ ok (created, db')
    → (s : Option FamilyState) × (row_of input.job_key db' ≡ some (new_row input s))

none_of_any : (p : Row → Bool) (xs : List Row) → any_of p xs ≡ false → find_first p xs ≡ none
none_of_any p [] h = refl
none_of_any p (x ∷ xs) h = ground (arith, none_of_any p xs)

pub row_of-insert_row :
    (r : Row) (db : Db) → key_taken r db ≡ false → row_of r.job_key (insert_row r db) ≡ some r
unfolding key_taken insert_row
row_of-insert_row r db free =
    find_first-append_none (has_key r.job_key) db.jobs_current (r ∷ [])
      (none_of_any (has_key r.job_key) db.jobs_current free)
    ∙ rw ((eq_iff r.job_key r.job_key).1 refl)

not_created_duplicate :
    (input : EnqueueJobInput) (o : Option Row) → duplicate_or_default input o ≢ created
unfolding duplicate_or_default duplicate_of
not_created_duplicate input none = λ e. cc
not_created_duplicate input (some r) = λ e. cc

not_created_join :
    (input : EnqueueJobInput) (p : DurableSearchRebuildPayload) (f : String) (db : Db)
    {joined : EnqueueResult × Db}
    → join_family input p f db ≡ some joined
    → joined.0 ≢ created
unfolding join_family
not_created_join input p f db {joined} h = ground arith

Stored-row :
    (input : EnqueueJobInput) (s : Option FamilyState) (db : Db)
    → key_taken (new_row input s) db ≡ false
    → Stored input (ok (created, insert_row (new_row input s) db))
Stored-row input s db free = λ db' e. (
  s,
  let same : insert_row (new_row input s) db ≡ db' = cc in
      rw (← same) (unfold new_row in row_of-insert_row (new_row input s) db free),
)

module _ (between : ℕ → Db → Db) (input : EnqueueJobInput) where
  after_conflict-Stored :
      (p : DurableSearchRebuildPayload) (f : String) (db : Db)
      → Stored input (after_conflict between input p f db)
  unfolding after_conflict duplicate_of
  after_conflict-Stored p f db = λ db' e. elim (Option-cases (row_of input.job_key db)) [
    | inr (r, there) ↦ absurd (cc (rw (there, after_conflict) at e))
    | inl missing ↦ elim (Option-cases (join_family input p f (between 4 db))) [
      | inr (joined, found) ↦ absurd (
          not_created_join input p f (between 4 db) found
            (cc (rw found at (rw (missing, after_conflict) at e))))
      | inl none_active ↦ absurd (cc (rw none_active at (rw (missing, after_conflict) at e)))
    ]
  ]

  enqueue_rebuild-Stored :
      (p : DurableSearchRebuildPayload) (f : String) (db : Db)
      → Stored input (enqueue_rebuild between input p f db)
  unfolding enqueue_rebuild
  enqueue_rebuild-Stored p f db =
      let row = new_row input (some (initial_family_state p)) in
      let db2 = between 2 db in
      elim (Option-cases (join_family input p f db)) [
        | inr (joined, found) ↦ λ db' e.
            absurd (not_created_join input p f db found (cc (rw (found, enqueue_rebuild) at e)))
        | inl none_active ↦ elim (Bool-cases (key_taken row db2 || family_taken row db2)) [
          | inl taken ↦
              rw (none_active, enqueue_rebuild)
                (rw taken (after_conflict-Stored p f (between 3 db2)))
          | inr free ↦
              rw (none_active, enqueue_rebuild) (rw free (Stored-row input _ db2 (ground arith)))
        ]
      ]

  enqueue_plain-Stored : (db : Db) → Stored input (enqueue_plain between input db)
  unfolding enqueue_plain
  enqueue_plain-Stored db =
      let row = new_row input none in
      elim (Bool-cases (key_taken row db)) [
        | inl taken ↦
            rw (taken, enqueue_plain)
              (λ db' e.
                absurd (not_created_duplicate input (row_of input.job_key (between 2 db)) (cc)))
        | inr new ↦ elim (Bool-cases (family_taken row db)) [
          | inl taken ↦ rw (new, enqueue_plain) (rw taken (λ db' e. absurd (cc)))
          | inr free ↦ rw (new, enqueue_plain) (rw free (Stored-row input none db new))
        ]
      ]

  enqueue_new-Stored : (db : Db) → Stored input (enqueue_new between input db)
  unfolding enqueue_new
  enqueue_new-Stored db =
      elim (Option-cases (rebuild_family input.payload_json input.job_family_key)) [
        | inr ((p, f), family) ↦ rw (family, enqueue_new) (enqueue_rebuild-Stored p f db)
        | inl plain ↦ rw (plain, enqueue_new) (enqueue_plain-Stored db)
      ]

  enqueue-Stored : (db : Db) → Stored input (enqueue between input db)
  unfolding enqueue duplicate_of
  enqueue-Stored db = elim (Option-cases (row_of input.job_key db)) [
    | inr (r, there) ↦ rw (there, enqueue) (λ db' e. absurd (cc))
    | inl missing ↦ rw (missing, enqueue) (enqueue_new-Stored (between 1 db))
  ]

coalesce_self : (o : Option String) → coalesce_text o o ≡ o
coalesce_self none = refl
coalesce_self (some s) = refl

-- When an enqueue reports that it created the job, whatever other transactions committed between its
-- statements, a second enqueue of the same input on the tables it left, in whatever company, reports a
-- pending, unclaimed duplicate and changes nothing.
pub enqueue_once :
    (between later : ℕ → Db → Db) (input : EnqueueJobInput) (db db' : Db)
    → enqueue between input db ≡ ok (created, db')
    → enqueue later input db' ≡ ok (duplicate input.job_family_key pending 0, db')
unfolding enqueue duplicate_of new_row
enqueue_once between later input db db' h =
    let (s, there) = enqueue-Stored between input db db' h in
    rw (there, enqueue) (rw (coalesce_self input.job_family_key))
