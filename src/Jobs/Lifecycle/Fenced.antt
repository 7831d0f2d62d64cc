-- ===== src/Jobs/Lifecycle/Fenced.antt =====
-- The operations of a claim holder are steps of the machine.
use mathlib.Core.Path.{subst}
use maids_claw.Common.{
  ◌≡◌, refl, sym, ℕ, ◌<◌, ◌≤◌, String, ltb, ◌+◌, Bool-cases, Option-cases, inl, inr, arith, or_else,
  ltb→lt, ltb→le,
}
use maids_claw.Jobs.Rows.{PgJobStatus, Db}
use maids_claw.Jobs.Rows.Updates.{Row, UniqueKeys}
use maids_claw.Jobs.Fence.{
  fence_miss, held_row, renew_row, heartbeat, end_row, PgJobFailInput, retry_row, fail, cancel,
}
use maids_claw.Jobs.Lifecycle.Steps.{
  IsStep, IsStep-refl, update_IsStep, running_of_holds, held_unique,
}
use maids_claw.Jobs.Machine.{renew, cancel as cancels, retry, give_up}

pub fence_miss_jobs :
    (k : String) (v now : ℕ) (db : Db) → (fence_miss k v now db).1.jobs_current ≡ db.jobs_current
unfolding fence_miss
fence_miss_jobs k v now db = ground arith

pub fence_miss-IsStep :
    (k : String) (v now : ℕ) (db : Db)
    → UniqueKeys db.jobs_current
    → IsStep db.jobs_current (fence_miss k v now db).1.jobs_current
fence_miss-IsStep k v now db u = rw (fence_miss_jobs k v now db) (IsStep-refl u)

module _ (k : String) (v : ℕ) (db : Db) (u : UniqueKeys db.jobs_current) where
  pub heartbeat-IsStep : (now : ℕ) → IsStep db.jobs_current (heartbeat k v now db).1.jobs_current
  unfolding heartbeat
  heartbeat-IsStep now = elim (Option-cases (held_row k v db)) [
    | inl miss ↦ rw (miss, heartbeat) (fence_miss-IsStep k v now db u)
    | inr (r, held) ↦
        rw (held, heartbeat)
          (update_IsStep _ (renew_row now) db.jobs_current u (λ s. refl)
            (λ j s named hit. renew now (running_of_holds k v s hit)))
  ]

  pub cancel-IsStep : (now : ℕ) → IsStep db.jobs_current (cancel k v now db).1.jobs_current
  unfolding cancel
  cancel-IsStep now = elim (Option-cases (held_row k v db)) [
    | inl miss ↦ rw (miss, cancel) (fence_miss-IsStep k v now db u)
    | inr (r, held) ↦
        rw (held, cancel)
          (update_IsStep _ (end_row PgJobStatus.cancelled now) db.jobs_current u (λ s. refl)
            (λ j s named hit. cancels now (running_of_holds k v s hit)))
  ]

  pub fail-IsStep : (e : PgJobFailInput) → IsStep db.jobs_current (fail k v e db).1.jobs_current
  unfolding fail
  fail-IsStep e = elim (Option-cases (held_row k v db)) [
    | inl miss ↦ rw (miss, fail) (fence_miss-IsStep k v e.now_ms db u)
    | inr (r, held) ↦ elim (Bool-cases (ltb r.attempt_count r.max_attempts)) [
      | inl again ↦
          rw (held, fail)
            (rw again (
              update_IsStep _ (retry_row e (e.now_ms + or_else e.retry_delay_ms 5000))
                db.jobs_current u (λ s. refl)
                (λ j s named hit. retry e _ (running_of_holds k v s hit) (
                  subst (λ (b : Row). b.attempt_count < b.max_attempts)
                    (sym (held_unique k j v db.jobs_current u held named hit))
                    (ltb→lt _ _ again)))))
      | inr last ↦
          rw (held, fail)
            (rw last (
              update_IsStep _ _ db.jobs_current u (λ s. refl)
                (λ j s named hit. give_up e (running_of_holds k v s hit) (
                  subst (λ (b : Row). b.max_attempts ≤ b.attempt_count)
                    (sym (held_unique k j v db.jobs_current u held named hit)) (ltb→le _ _ last)))))
    ]
  ]
