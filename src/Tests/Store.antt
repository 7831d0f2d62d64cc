-- ===== src/Tests/Store.antt =====
-- Runs of the job store.
use maids_claw.Common.{◌≡◌, refl, true, none, some, [], ◌∷◌, ok, arith, or_else}
use maids_claw.Jobs.Rows.{Db, row_of, PgJobCurrentRow, is_terminal_status, pending}
use maids_claw.Jobs.Rows.Updates.{UniqueKeys}
use maids_claw.Jobs.Machine.{ClaimedSince, IsSound}
use maids_claw.Jobs.Enqueue.{new_row, enqueue, alone, created, duplicate}
use maids_claw.Jobs.Fence.{heartbeat, complete, fail, cancel, fence_miss}
use maids_claw.Jobs.Claim.{claim_next}
use maids_claw.Jobs.Sweep.{reclaim_expired_leases}
use maids_claw.Jobs.Lifecycle.{run}
use maids_claw.Jobs.Lifecycle.Steps.{IsStep}
use maids_claw.Jobs.Lifecycle.Fencing.{Refused, late_worker-Refused}
use maids_claw.Jobs.Lifecycle.Refinement.{run-IsStep, run_terminal, run-IsSound}
use maids_claw.Jobs.Sweep.Reclaim.{Swept, row_of-reclaim}
use maids_claw.Jobs.Enqueue.Once.{enqueue_once}
use maids_claw.Tests.Sample.{empty, taken_twice, finished, error, organize}

-- after the second claim
abbrev taken : Db
taken = run taken_twice empty

taken_claims : ClaimedSince 2 (row_of "o1" taken)
unfolding run claim_next reclaim_expired_leases enqueue
taken_claims = omega arith

taken_unique : UniqueKeys taken.jobs_current
taken_unique = (run-IsStep taken_twice empty tt).unique

late_worker-Refused_example :
    let db = run [] taken in
    Refused db (heartbeat "o1" 1 3000 db)
    × ((complete "u" "o1" 1 3000 db ≡ ok (fence_miss "o1" 1 3000 db))
        × Refused db (fence_miss "o1" 1 3000 db))
    × Refused db (fail "o1" 1 (error 3000) db)
    × Refused db (cancel "o1" 1 3000 db)
late_worker-Refused_example =
    late_worker-Refused [] taken "o1" "u" 1 3000 (error 3000) taken_unique taken_claims

run-IsStep_example : IsStep empty.jobs_current (run taken_twice empty).jobs_current
run-IsStep_example = run-IsStep taken_twice empty tt

run-IsSound_example :
    IsSound (row_of "o1" (run taken_twice (record { jobs_current = []; job_attempts = [] })))
run-IsSound_example = run-IsSound taken_twice "o1"

-- after a completion
abbrev ended : Db
ended = run finished empty

abbrev sample_row : PgJobCurrentRow
unfolding new_row
sample_row = new_row (organize "o1" 10) none

abbrev ended_row : PgJobCurrentRow
ended_row = or_else (row_of "o1" ended) sample_row

ended_there : row_of "o1" ended ≡ some ended_row
unfolding run claim_next enqueue complete
ended_there = refl

ended_terminal : is_terminal_status ended_row.status ≡ true
unfolding run claim_next enqueue complete is_terminal_status
ended_terminal = refl

run_terminal_example : row_of "o1" (run taken_twice ended) ≡ some ended_row
run_terminal_example =
    run_terminal taken_twice ended "o1" {r = ended_row} (run-IsStep finished empty tt).unique
      ended_there ended_terminal

row_of-reclaim_example :
    Swept 9000 (row_of "o1" taken) (row_of "o1" (reclaim_expired_leases 9000 taken).1)
row_of-reclaim_example = row_of-reclaim "o1" 9000 taken taken_unique

abbrev once : Db
once = record { jobs_current = sample_row ∷ []; job_attempts = [] }

enqueued : enqueue alone (organize "o1" 10) empty ≡ ok (created, once)
unfolding enqueue
enqueued = refl

enqueue_once_example : enqueue alone (organize "o1" 10) once ≡ ok (duplicate none pending 0, once)
enqueue_once_example = enqueue_once alone alone (organize "o1" 10) empty once enqueued
