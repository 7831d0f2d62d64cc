-- ===== src/Tests/Claims.antt =====
-- Claims over waiting jobs.
use mathlib.Core.List.{Memᴰ}
use maids_claw.Common.{
  ◌≡◌, refl, ◌≤◌, ◌⊎◌, true, Option, none, some, [], ◌∷◌, ok, or_else, Result, count_of,
}
use maids_claw.Jobs.Types.{same_kind}
use maids_claw.Jobs.Rows.{Db, row_of, PgJobCurrentRow, job_type}
use maids_claw.Jobs.Rows.Updates.{UniqueKeys}
use maids_claw.Jobs.Enqueue.{new_row, enqueue, StoreFault}
use maids_claw.Jobs.Claim.{
  claim_next, ready_rows, claim_order, has_room, runs_under, runs_as, concurrency_cap,
  global_concurrency_key,
}
use maids_claw.Jobs.Lifecycle.{run, enqueues}
use maids_claw.Jobs.Lifecycle.Refinement.{run-IsStep}
use maids_claw.Jobs.Claim.Caps.{claim_next-concurrency_cap, claim_next-global_cap}
use maids_claw.Jobs.Lifecycle.Quiet.{claim_next_quiet}
use maids_claw.Jobs.Claim.Order.{claim_next-claim_order}
use maids_claw.Tests.Sample.{empty, two_waiting, organize, think, by}
use maids_claw.Tests.Sorting.{calm, calm-SortsRows, calm-SortsByOrder}

abbrev sample_row : PgJobCurrentRow
unfolding new_row
sample_row = new_row (organize "o1" 10) none

-- two jobs that wait
abbrev waiting : Db
waiting = run two_waiting empty

waiting_unique : UniqueKeys waiting.jobs_current
waiting_unique = (run-IsStep two_waiting empty tt).unique

-- what a successful claim returns
abbrev claim_of : Option (Result StoreFault (Option (PgJobCurrentRow × Db))) → PgJobCurrentRow × Db
claim_of (some (ok (some done))) = done
claim_of _ = (sample_row, empty)

abbrev won : PgJobCurrentRow × Db
won = claim_of (claim_next calm (by "w" 20) waiting)

waiting_claims : claim_next calm (by "w" 20) waiting ≡ some (ok (some won))
unfolding run claim_next enqueue
waiting_claims = refl

claim_next-concurrency_cap_example :
    (count_of (runs_under "search.rebuild:global") won.1.jobs_current
      ≤ count_of (runs_under "search.rebuild:global") waiting.jobs_current)
    ⊎ (count_of (runs_under "search.rebuild:global") won.1.jobs_current
        ≤ concurrency_cap none "search.rebuild:global")
claim_next-concurrency_cap_example =
    claim_next-concurrency_cap calm (by "w" 20) waiting {done = won} calm-SortsRows waiting_unique
      waiting_claims "search.rebuild:global"

abbrev waiting_rebuild : PgJobCurrentRow
waiting_rebuild = or_else (row_of "s1" waiting) sample_row

listed : Memᴰ waiting_rebuild (ready_rows calm 20 waiting)
unfolding run enqueue ready_rows
listed = Memᴰ.tail (Memᴰ.head refl)

room : has_room none waiting_rebuild waiting ≡ true
unfolding run enqueue has_room
room = refl

claim_next-claim_order_example : claim_order won.0 waiting_rebuild ≡ true
claim_next-claim_order_example =
    claim_next-claim_order calm (by "w" 20) waiting {done = won} waiting_rebuild calm-SortsRows
      calm-SortsByOrder waiting_unique waiting_claims listed refl room

-- one thinker job of a session
abbrev thinking : Db
thinking = run (enqueues (think "t1" 10) ∷ []) empty

thinking_unique : UniqueKeys thinking.jobs_current
thinking_unique = (run-IsStep (enqueues (think "t1" 10) ∷ []) empty tt).unique

abbrev thought : PgJobCurrentRow × Db
thought = claim_of (claim_next calm (by "w" 20) thinking)

thinking_claims : claim_next calm (by "w" 20) thinking ≡ some (ok (some thought))
unfolding run claim_next enqueue same_kind
thinking_claims = refl

thought_global :
    global_concurrency_key (thought.0).concurrency_key ≡ some "cognition.thinker:global"
unfolding run claim_next enqueue same_kind
thought_global = refl

claim_next-global_cap_example :
    count_of (runs_as (job_type (thought.0).payload_json)) thought.1.jobs_current
    ≤ concurrency_cap none "cognition.thinker:global"
claim_next-global_cap_example =
    claim_next-global_cap calm (by "w" 20) thinking {done = thought} calm-SortsRows thinking_unique
      thinking_claims {g = "cognition.thinker:global"} thought_global

claim_next_quiet_example :
    (done : Option (PgJobCurrentRow × Db)) × (claim_next calm
        (by "w" 20)
        (run two_waiting (record { jobs_current = []; job_attempts = [] }))
      ≡ some (ok done))
claim_next_quiet_example = claim_next_quiet two_waiting calm (by "w" 20)
