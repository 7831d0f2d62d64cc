-- ===== src/Jobs/Lifecycle/Families.antt =====
-- The partial unique index over the families of jobs: updates and inserts against the active jobs of a
-- family.
pub mod Entering
pub mod Operations
pub mod Freed
use maids_claw.Common.{
  ◌≡◌, refl, sym, ap, ◌∙◌, ℕ, ◌+◌, ◌≤◌, Bool, ◌&&◌, true, false, none, some, List, [], ◌∷◌, ◌++◌,
  String, eq_iff, str_eq, find_first, any_of, count_of, Bool-cases, Option-cases, Option, inl, inr,
  arith, Result, ok, throw, Result-cases, ltb, or_else, select,
}
use maids_claw.Jobs.Rows.{
  PgJobStatus, PgJobAttemptOutcome, is_active, is_pending, is_running, is_text, Db,
  in_active_family, update_where, has_key, row_of, DurableSearchRebuildPayload,
}
use maids_claw.Jobs.Rows.Updates.{Row}
use maids_claw.Jobs.Family.{normalize_family_state, initial_family_state}
use maids_claw.Jobs.Enqueue.{
  EnqueueJobInput, EnqueueResult, StoreFault, new_row, key_taken, family_taken, insert_row,
  rebuild_family, join_row, join_family, after_conflict, enqueue_rebuild, enqueue_plain,
  enqueue_new, enqueue, alone,
}

abbrev pub IsSingle : String → List Row → Type 0
IsSingle f rows = count_of (in_active_family f) rows ≤ 1

abbrev pub KeepsSingle : List Row → List Row → Type 0
KeepsSingle xs ys = (f : String) → IsSingle f xs → IsSingle f ys

count_of-update_where :
    (f : String) (p : Row → Bool) (g : Row → Row) (xs : List Row)
    → ((r : Row) → p r ≡ true → in_active_family f (g r) ≡ true → in_active_family f r ≡ true)
    → count_of (in_active_family f) (update_where p g xs) ≤ count_of (in_active_family f) xs
count_of-update_where f p g [] h = omega arith
count_of-update_where f p g (x ∷ xs) h = elim (Bool-cases (p x)) [
  | inl hit ↦
      let back = h x hit in
      let rest = count_of-update_where f p g xs h in rw hit (ground (arith, back))
  | inr miss ↦ let rest = count_of-update_where f p g xs h in rw miss (omega arith)
]

-- An update that puts no row into an active family.
pub update_KeepsFamilies :
    (p : Row → Bool) (g : Row → Row) (xs : List Row)
    → ((f : String) (r : Row)
        → p r ≡ true
        → in_active_family f (g r) ≡ true
        → in_active_family f r ≡ true)
    → KeepsSingle xs (update_where p g xs)
update_KeepsFamilies p g xs back f h =
    let fewer = count_of-update_where f p g xs (back f) in omega arith

was_active :
    (f : String) (r s : Row)
    → is_active r.status ≡ true
    → s.job_family_key ≡ r.job_family_key
    → in_active_family f s ≡ true
    → in_active_family f r ≡ true
unfolding in_active_family
was_active f r s a e was =
    let texts : is_text s.job_family_key f ≡ is_text r.job_family_key f = ap (λ o. is_text o f) e in
    ground arith

-- An update of active rows that keeps their families.
pub update_KeepsSingle :
    (p : Row → Bool) (g : Row → Row) (xs : List Row)
    → ((r : Row) → p r ≡ true → is_active r.status ≡ true)
    → ((r : Row) → (g r).job_family_key ≡ r.job_family_key)
    → KeepsSingle xs (update_where p g xs)
update_KeepsSingle p g xs active family =
    update_KeepsFamilies p g xs (λ f r hit. was_active f r (g r) (active r hit) (family r))

none_counted : {A : Type 0} (p : A → Bool) (xs : List A) → any_of p xs ≡ false → count_of p xs ≡ 0
none_counted p [] h = refl
none_counted p (x ∷ xs) h = ground (arith, none_counted p xs)

count_of-append_one :
    {A : Type 0} (p : A → Bool) (xs : List A) (r : A)
    → count_of p (xs ++ r ∷ []) ≡ count_of p xs + count_of p (r ∷ [])
count_of-append_one p [] r = ground arith
count_of-append_one p (x ∷ xs) r = let ih = count_of-append_one p xs r in omega arith

idle_family :
    (f : String) (r : Row) (db : Db)
    → family_taken r db ≡ false
    → in_active_family f r ≡ true
    → any_of (in_active_family f) db.jobs_current ≡ false
unfolding family_taken in_active_family is_text
idle_family f r db free mine = elim (Option-cases r.job_family_key) [
  | inl plain ↦ absurd (cc (rw plain at mine))
  | inr (g, family) ↦
      let named : str_eq g f && is_active r.status ≡ true = rw family at mine in
      let active : is_active r.status ≡ true = ground arith in
      let same : g ≡ f = (eq_iff g f).0 (ground arith) in
      let taken : is_active r.status && any_of (in_active_family g) db.jobs_current ≡ false =
        rw (family, family_taken) at free in
      ap (λ k. any_of (in_active_family k) db.jobs_current) (sym same) ∙ rw active at taken
]

-- The index lets a row in only while its family has no active job.
pub insert_row-KeepsSingle :
    (r : Row) (db : Db)
    → family_taken r db ≡ false
    → KeepsSingle db.jobs_current (insert_row r db).jobs_current
unfolding insert_row
insert_row-KeepsSingle r db free f h =
    rw (count_of-append_one (in_active_family f) db.jobs_current r)
      (elim (Bool-cases (in_active_family f r)) [
        | inl mine ↦
            rw
              (
                mine,
                none_counted (in_active_family f) db.jobs_current (idle_family f r db free mine),
              )
              (omega arith)
        | inr other ↦ rw other (omega arith)
      ])
