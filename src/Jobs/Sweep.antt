-- ===== src/Jobs/Sweep.antt =====
-- src/jobs/pg-store.ts: the sweep of expired leases, and the retention of ended jobs.
pub mod Reclaim
use maids_claw.Common.{
  ℕ, ◌+◌, ◌-◌, String, Bool, true, false, not, ◌&&◌, Option, none, some, List, [], ◌∷◌, str_eq, ltb,
  if◌then◌else◌, select, length, count_of, any_of,
}
use maids_claw.Jobs.Rows.{
  PgJobStatus, is_running, is_terminal_status, is_text, PgJobCurrentRow, Db, update_where,
}
use maids_claw.Jobs.Fence.{holds_claim, mark_attempt_lease_lost, release}

-- `x < n` on a nullable number column
unfoldable pub is_before : Option ℕ → ℕ → Bool
is_before none n = false
is_before (some x) n = ltb x n

-- `WHERE status = 'running' AND lease_expires_at < now`
unfoldable pub is_expired : ℕ → PgJobCurrentRow → Bool
unfolding is_running is_before
is_expired now r = is_running r.status && is_before r.lease_expires_at now

unfoldable pub reclaim_row : ℕ → PgJobCurrentRow → PgJobCurrentRow
unfolding release
reclaim_row now r = record (release PgJobStatus.pending now r) { next_attempt_at = now }

-- the body of the loop over the expired rows
unfoldable pub reclaim_one : ℕ → PgJobCurrentRow → Db → Db
unfolding mark_attempt_lease_lost holds_claim reclaim_row
reclaim_one now row db =
    let marked = mark_attempt_lease_lost row.job_key row.claim_version now db in
    record marked {
      jobs_current =
          update_where (holds_claim row.job_key row.claim_version) (reclaim_row now)
            marked.jobs_current;
    }

unfoldable pub reclaim_all : ℕ → List PgJobCurrentRow → Db → Db
unfolding reclaim_one
reclaim_all now [] db = db
reclaim_all now (row ∷ rows) db = reclaim_all now rows (reclaim_one now row db)

unfoldable pub reclaim_expired_leases : ℕ → Db → ℕ × Db
unfolding is_expired reclaim_all
reclaim_expired_leases now db =
    let expired = select (is_expired now) db.jobs_current in
    (length expired, reclaim_all now expired db)

-- `DELETE … WHERE p`, with the number of rows that it deleted
unfoldable pub delete_where : (PgJobCurrentRow → Bool) → Db → ℕ × Db
delete_where p db = (
  count_of p db.jobs_current,
  record db { jobs_current = select (λ r. not (p r)) db.jobs_current },
)

unfoldable pub ended_before : ℕ → PgJobCurrentRow → Bool
unfolding is_terminal_status is_before
ended_before cutoff r = is_terminal_status r.status && is_before r.terminal_at cutoff

abbrev pub Windows : Type 0
Windows = List (String × ℕ)

-- `job_family_key IS NULL OR job_family_key NOT IN (overrides)`
unfoldable pub not_overridden : Windows → Option String → Bool
not_overridden overrides none = true
not_overridden overrides (some f) = not (any_of (λ w. str_eq w.0 f) overrides)

unfoldable pub delete_families : ℕ → Windows → ℕ × Db → ℕ × Db
unfolding delete_where ended_before is_text
delete_families now [] done = done
delete_families now ((f, window) ∷ overrides) (n, db) =
    let (m, db') =
      delete_where (λ r. ended_before (now - window) r && is_text r.job_family_key f) db in
    delete_families now overrides (n + m, db')

-- A cutoff below 0 is 0 here: no row ended before either.
unfoldable pub cleanup_terminal : ℕ → (default_window : ℕ) → Windows → Db → ℕ × Db
unfolding delete_where ended_before not_overridden delete_families
cleanup_terminal now default_window [] db = delete_where (ended_before (now - default_window)) db
cleanup_terminal now default_window (w ∷ ws) db = delete_families now (w ∷ ws) (
    delete_where
      (λ r. ended_before (now - default_window) r && not_overridden (w ∷ ws) r.job_family_key) db)
