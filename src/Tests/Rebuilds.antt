-- ===== src/Tests/Rebuilds.antt =====
-- Search rebuilds that are asked for more than once.
use maids_claw.Common.{
  ◌≡◌, refl, ◌↔◌, ◌⊎◌, String, true, false, none, some, arith, List, [], ◌∷◌, ok, or_else,
}
use maids_claw.Jobs.Rows.{search_rebuild, FamilyState, PgJobCurrentRow, Db, row_of}
use maids_claw.Jobs.Rows.Updates.{NoKey}
use maids_claw.Jobs.Family.{
  count_at, initial_family_state, coalesced_family_state, successor_family_state,
}
use maids_claw.Jobs.Family.Counting.{
  IsBalanced, joined, Requests, coalesced_rerun_iff, joined-IsBalanced,
}
use maids_claw.Jobs.Enqueue.{new_row, enqueue}
use maids_claw.Jobs.Claim.{claim_next}
use maids_claw.Jobs.Fence.{complete, succeeded, held_row, holds_claim, successor_job_key}
use maids_claw.Jobs.Lifecycle.Families.{IsSingle}
use maids_claw.Jobs.Lifecycle.Families.Operations.{run-IsSingle}
use maids_claw.Jobs.Lifecycle.Rerun.{Follows, completed, complete_reruns}
use maids_claw.Jobs.Lifecycle.{StoreOp, enqueues, claims, run}
use maids_claw.Tests.Sample.{repair, rebuild, by}
use maids_claw.Tests.Sorting.{calm}

abbrev asked_twice : FamilyState
unfolding initial_family_state coalesced_family_state
asked_twice =
    coalesced_family_state (some (initial_family_state (repair "a"))) (repair "b") false 20

coalesced_rerun_iff_example :
    ((coalesced_family_state (some asked_twice) (repair "c") true 30).rerun_requested ≡ true) ↔ (
      (asked_twice.rerun_requested ≡ true)
      ⊎ ((true ≡ true)
          × (count_at (repair "c").trigger_reason asked_twice.trigger_reason_counts ≡ 0)))
coalesced_rerun_iff_example = coalesced_rerun_iff asked_twice (repair "c") true 30

abbrev requests : Requests
requests = (repair "b", true, 20) ∷ (repair "a", false, 30) ∷ []

joined-IsBalanced_example :
    IsBalanced (joined (initial_family_state (repair "a")) requests)
    × IsBalanced
        (successor_family_state (some (joined (initial_family_state (repair "a")) requests)))
joined-IsBalanced_example = joined-IsBalanced (repair "a") requests

-- a rebuild that runs when a request for another reason joins it
abbrev rebuilding : List StoreOp
rebuilding =
    enqueues (rebuild "s1" "a" 10) ∷ claims calm (by "w1" 20) ∷ enqueues (rebuild "s2" "b" 30) ∷ []

abbrev running_row : PgJobCurrentRow
unfolding new_row
running_row =
    or_else (row_of "s1" (run rebuilding (record { jobs_current = []; job_attempts = [] })))
      (new_row (rebuild "s1" "a" 10) none)

abbrev family : String
family = "search.rebuild:private:rp:1"

rebuild_held :
    held_row "s1" 1 (run rebuilding (record { jobs_current = []; job_attempts = [] }))
    ≡ some running_row
unfolding run claim_next enqueue holds_claim
rebuild_held = refl

of_rebuild : running_row.payload_json ≡ search_rebuild (repair "a")
unfolding run claim_next enqueue
of_rebuild = refl

of_family : running_row.job_family_key ≡ some family
unfolding run claim_next enqueue
of_family = refl

new_key :
    NoKey
      (successor_job_key family "u")
      (run rebuilding (record { jobs_current = []; job_attempts = [] })).jobs_current
unfolding run claim_next enqueue successor_job_key
new_key = refl

complete_reruns_example :
    (db' : Db) × (complete "u" "s1" 1 40
        (run rebuilding (record { jobs_current = []; job_attempts = [] }))
      ≡ ok (succeeded 40, db'))
    × (row_of "s1" db' ≡ some (completed 40 running_row))
    × Follows
        (successor_job_key family "u")
        40
        running_row
        (row_of (successor_job_key family "u") db')
complete_reruns_example =
    complete_reruns rebuilding "u" "s1" family 1 40 {p = repair "a"} {r = running_row} rebuild_held
      of_rebuild of_family refl new_key

run-IsSingle_example :
    IsSingle family (run rebuilding (record { jobs_current = []; job_attempts = [] })).jobs_current
run-IsSingle_example =
    run-IsSingle rebuilding (record { jobs_current = []; job_attempts = [] }) family (omega arith)
