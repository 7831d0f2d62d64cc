-- ===== src/Tests/Dispatching.antt =====
-- Runs of the dispatcher.
use maids_claw.Common.{
  ◌≡◌, ◌≤◌, refl, ap, count_of, List, ◌∷◌, String, Bool, true, false, Option, none, some, [],
  or_else, throw,
}
use maids_claw.Common.Maps.{get, has}
use maids_claw.Jobs.Types.{background_autonomy, background_search_rebuild, search_rebuild}
use maids_claw.Queue.{StoredJob, Job, new_queue, get_by_key, check_duplicate}
use maids_claw.Dispatch.{Dispatcher, Started, works, concurrency_key, submit, start_next, end_job}
use maids_claw.Dispatch.Once.{submit_once}
use maids_claw.Dispatch.Exclusion.{is_under, run_exclusive}
use maids_claw.Dispatch.Steps.{DispatcherOp, submits, starts, ends, apply_op, run}
use maids_claw.Dispatch.Runs.{Ended, end_job-Ended}
use maids_claw.Tests.Queues.{job}

abbrev fresh : Dispatcher
fresh = record {
  workers = λ kind. true;
  queue = new_queue;
  jobs_by_key = [];
  in_flight_by_key = [];
}

abbrev spec : Job
spec = job "k" background_autonomy 0

abbrev given : Option Job × Dispatcher
given = submit "u1" 10 spec fresh

abbrev given_job : Job
given_job = or_else given.0 spec

is_given : submit "u1" 10 spec fresh ≡ (some given_job, given.1)
unfolding submit check_duplicate
is_given = refl

abbrev any_first : String → String → Bool
any_first a b = true

abbrev started : Started × Dispatcher
started = start_next any_first 30 given.1

abbrev run_of : Started → Job
run_of (works next running) = running
run_of _ = spec

abbrev next_of : Started → Job
next_of (works next running) = next
next_of _ = spec

is_started :
    start_next any_first 30 given.1 ≡ (works (next_of started.0) (run_of started.0), started.1)
unfolding start_next submit check_duplicate
is_started = refl

-- a run of the job that fails and is tried again, and a submission of another key
abbrev ops : List DispatcherOp
ops =
    starts any_first 30
    ∷ ends 40 (throw "boom") 0
    ∷ submits "u3" 50 (job "j" background_autonomy 0)
    ∷ starts any_first 60
    ∷ starts any_first 70
    ∷ []

submit_once_example :
    let w =
      run ops (apply_op (submits "u1" 10 spec) (record { dispatcher = fresh; under_way = [] })) in
    ((submit "u2" 80 spec w.dispatcher).0 ≡ none)
    × ((submit "u2" 80 spec w.dispatcher).1.queue ≡ w.dispatcher.queue)
submit_once_example =
    submit_once "u1" "u2" 10 80 spec spec (record { dispatcher = fresh; under_way = [] }) ops
      {job = given_job} (ap (λ (p : Option Job × Dispatcher). p.0) is_given) refl

-- two search rebuilds that are started one after the other
abbrev rebuild : String → Job
rebuild key = record (job key background_search_rebuild 0) { kind = search_rebuild }

abbrev two_starts : List DispatcherOp
two_starts =
    submits "u1" 10 (rebuild "k")
    ∷ submits "u2" 10 (rebuild "j")
    ∷ starts any_first 30
    ∷ starts any_first 30
    ∷ []

one_runs :
    count_of
      (is_under "search.rebuild:global")
      (run two_starts (record { dispatcher = fresh; under_way = [] })).under_way
    ≡ 1
unfolding run start_next submit check_duplicate is_under
one_runs = refl

run_exclusive_example :
    count_of
      (is_under "search.rebuild:global")
      (run two_starts (record { dispatcher = fresh; under_way = [] })).under_way
    ≤ 1
run_exclusive_example = run_exclusive "search.rebuild:global" two_starts fresh (refl, refl)

abbrev entry : StoredJob
entry = record { job = run_of started.0; enqueue_seq = 0 }

entry_stored : get "u1" started.1.queue.jobs_by_id ≡ some entry
unfolding start_next submit check_duplicate
entry_stored = refl

entry_named : get_by_key "k" started.1.queue ≡ some entry.job
unfolding start_next submit check_duplicate
entry_named = refl

end_job-Ended_example :
    Ended
      (throw "boom")
      entry.job
      "k"
      (end_job 40 (throw "boom") (next_of started.0) entry.job started.1).queue
    × (has
          (concurrency_key (next_of started.0))
          (end_job 40 (throw "boom") (next_of started.0) entry.job started.1).in_flight_by_key
        ≡ false)
unfolding start_next submit check_duplicate
end_job-Ended_example =
    end_job-Ended 40 (throw "boom") (next_of started.0) entry.job started.1 entry entry_stored
      entry_named refl refl
