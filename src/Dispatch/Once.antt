-- ===== src/Dispatch/Once.antt =====
-- src/jobs/dispatcher.ts: the deduplication of submissions, over sequences of calls.
use maids_claw.Common.{
  ◌≢◌, ◌≡◌, refl, sym, ap, ◌∙◌, ◌+◌, ◌&&◌, ltb, ℕ, Bool, true, String, none, some, List, [], ◌∷◌,
  arith, is_some, Option-cases, Bool-cases, inl, inr, Result, ok, throw, or_else, if◌then◌else◌,
}
use mathlib.Core.Path.{subst}
use maids_claw.Common.Maps.{get, set, get-set}
use maids_claw.Queue.{
  Job, get_by_key, update_job, check_duplicate, DedupAction, accept, coalesce, drop, noop,
}
use maids_claw.Dispatch.{
  Dispatcher, Started, submit, decide, known_jobs, accepted_job, refresh, start_job, begin_run,
  start_next, select_next_runnable_job, settle, end_job, retry_run, fail_run, update_queue,
}
use maids_claw.Dispatch.Lookup.{get-set_same}
use maids_claw.Dispatch.Steps.{
  Work, pick, begin, DispatcherOp, submits, starts, ends, apply_op, run,
}

-- that a key is in `jobsByKey`
abbrev Knows : String → List (String × Job) → Type 0
Knows k m = is_some (get k m) ≡ true

set-Knows : (k j : String) (a : Job) (m : List (String × Job)) → Knows k m → Knows k (set j a m)
set-Knows k j a m h = rw (get-set j k a m) (ground arith)

known_jobs-Knows :
    (k key : String) (d : Dispatcher) → Knows k d.jobs_by_key → Knows k (known_jobs key d)
unfolding known_jobs
known_jobs-Knows k key d h = elim (Option-cases (get_by_key key d.queue)) [
  | inl missing ↦ rw (missing, known_jobs) h
  | inr (j, there) ↦ rw (there, known_jobs) (set-Knows k j.job_key j d.jobs_by_key h)
]

submit-Knows :
    (k uuid : String) (now : ℕ) (spec : Job) (d : Dispatcher)
    → Knows k d.jobs_by_key
    → Knows k (submit uuid now spec d).1.jobs_by_key
unfolding submit
submit-Knows k uuid now spec d h = go (check_duplicate (known_jobs spec.job_key d) spec.job_key)
  where
    go : (a : DedupAction) → Knows k (decide uuid now spec d a).1.jobs_by_key
    go accept = unfold decide in set-Knows k _ _ _ (known_jobs-Knows k spec.job_key d h)
    go coalesce = unfold decide in known_jobs-Knows k spec.job_key d h
    go drop = unfold decide in known_jobs-Knows k spec.job_key d h
    go noop = unfold decide in known_jobs-Knows k spec.job_key d h

refresh-Knows :
    (k key : String) (d : Dispatcher) → Knows k d.jobs_by_key → Knows k (refresh key d).jobs_by_key
unfolding refresh
refresh-Knows k key d h = elim (Option-cases (get_by_key key d.queue)) [
  | inl missing ↦ rw (missing, refresh) h
  | inr (j, there) ↦ rw (there, refresh) (set-Knows k j.job_key j d.jobs_by_key h)
]

start_job-Knows :
    (k : String) (now : ℕ) (n : Job) (d : Dispatcher)
    → Knows k d.jobs_by_key
    → Knows k (start_job now n d).1.jobs_by_key
unfolding start_job
start_job-Knows k now n d h =
    elim (Option-cases (
      get_by_key n.job_key (
        update_job n.job_id (λ j. record (begin_run now j) { attempts = n.attempts + 1 })
          d.queue))) [
            | inl missing ↦ rw (missing, start_job) h
            | inr (r, there) ↦ rw (there, start_job) (set-Knows k r.job_key r d.jobs_by_key h)
          ]

start_next-Knows :
    (k : String) (id_first : String → String → Bool) (now : ℕ) (d : Dispatcher)
    → Knows k d.jobs_by_key
    → Knows k (start_next id_first now d).1.jobs_by_key
unfolding start_next
start_next-Knows k id_first now d h = elim (Option-cases (select_next_runnable_job id_first d)) [
  | inl nothing ↦ rw (nothing, start_next) h
  | inr (n, selected) ↦ elim (Bool-cases (d.workers n.kind)) [
    | inl works ↦ rw (selected, start_next) (rw works (start_job-Knows k now n d h))
    | inr unknown ↦ rw (selected, start_next) (rw unknown (refresh-Knows k n.job_key _ h))
  ]
]

end_job-Knows :
    (k : String) (now : ℕ) (outcome : Result String (Unit {0})) (next running : Job)
    (d : Dispatcher)
    → Knows k d.jobs_by_key
    → Knows k (end_job now outcome next running d).jobs_by_key
unfolding end_job settle
end_job-Knows k now (ok u) next running d h = refresh-Knows k running.job_key _ h
end_job-Knows k now (throw message) next running d h =
    let current = or_else (get_by_key running.job_key d.queue) running in
    let updates =
      if current.retriable && ltb current.attempts current.max_attempts
      then retry_run message
      else fail_run now message in
    refresh-Knows k current.job_key (update_queue current.job_id updates d) h

begin_dispatcher :
    (s : Started) (d : Dispatcher) (runs : List (Job × Job)) → (begin s d runs).dispatcher ≡ d
unfolding begin
begin_dispatcher s d runs = ground arith

apply_op-Knows :
    (k : String) (o : DispatcherOp) (w : Work)
    → Knows k w.dispatcher.jobs_by_key
    → Knows k (apply_op o w).dispatcher.jobs_by_key
unfolding apply_op
apply_op-Knows k (submits uuid now spec) w h = submit-Knows k uuid now spec w.dispatcher h
apply_op-Knows k (starts id_first now) w h =
    subst (λ (e : Dispatcher). Knows k e.jobs_by_key)
      (sym (
        begin_dispatcher (start_next id_first now w.dispatcher).0
          (start_next id_first now w.dispatcher).1 w.under_way))
      (start_next-Knows k id_first now w.dispatcher h)
apply_op-Knows k (ends now outcome n) w h = elim (Option-cases (pick n w.under_way)) [
  | inl missing ↦ rw (missing, apply_op) h
  | inr (((next, running), others), there) ↦
      rw (there, apply_op) (end_job-Knows k now outcome next running w.dispatcher h)
]

run-Knows :
    (k : String) (os : List DispatcherOp) (w : Work)
    → Knows k w.dispatcher.jobs_by_key
    → Knows k (run os w).dispatcher.jobs_by_key
unfolding run
run-Knows k [] w h = h
run-Knows k (o ∷ os) w h = run-Knows k os (apply_op o w) (apply_op-Knows k o w h)

not_accepted :
    (key : String) (m : List (String × Job)) → Knows key m → check_duplicate m key ≢ accept
unfolding check_duplicate
not_accepted key m h = elim (Option-cases (get key m)) [
  | inl missing ↦ absurd (cc (rw missing at h))
  | inr (j, there) ↦ rw (there, check_duplicate) (ground arith)
]

-- A submission of a key that is known is refused.
refused :
    (uuid : String) (now : ℕ) (spec : Job) (d : Dispatcher)
    → Knows spec.job_key d.jobs_by_key
    → ((submit uuid now spec d).0 ≡ none) × ((submit uuid now spec d).1.queue ≡ d.queue)
unfolding submit decide
refused uuid now spec d known = go (check_duplicate (known_jobs spec.job_key d) spec.job_key) (
    not_accepted spec.job_key (known_jobs spec.job_key d)
      (known_jobs-Knows spec.job_key spec.job_key d known))
  where
    go :
        (a : DedupAction)
        → a ≢ accept
        → (decide uuid now spec d a).0 ≡ none × ((decide uuid now spec d a).1.queue ≡ d.queue)
    go accept n = absurd (n refl)
    go coalesce n = (refl, refl)
    go drop n = (refl, refl)
    go noop n = (refl, refl)

accepted-Knows :
    (uuid : String) (now : ℕ) (spec : Job) (d : Dispatcher) {job : Job}
    → (submit uuid now spec d).0 ≡ some job
    → Knows spec.job_key (submit uuid now spec d).1.jobs_by_key
unfolding submit decide accepted_job
accepted-Knows uuid now spec d {job} h =
    go (check_duplicate (known_jobs spec.job_key d) spec.job_key) h
  where
    go :
        (a : DedupAction)
        → (decide uuid now spec d a).0 ≡ some job
        → Knows spec.job_key (decide uuid now spec d a).1.jobs_by_key
    go accept e =
        rw (get-set_same spec.job_key (accepted_job uuid now spec) (known_jobs spec.job_key d)) refl
    go coalesce e = absurd (cc)
    go drop e = absurd (cc)
    go noop e = absurd (cc)

-- Once a submission was accepted, no later one of the same key is, whatever was submitted, started and
-- ended meanwhile, a run of that very job among it: the later one makes no job, and the queue stays as
-- it was.
pub submit_once :
    (uuid later_uuid : String) (now later : ℕ) (spec again : Job) (w : Work)
    (os : List DispatcherOp) {job : Job}
    → (submit uuid now spec w.dispatcher).0 ≡ some job
    → again.job_key ≡ spec.job_key
    → let w' = run os (apply_op (submits uuid now spec) w) in
      ((submit later_uuid later again w'.dispatcher).0 ≡ none)
      × ((submit later_uuid later again w'.dispatcher).1.queue ≡ w'.dispatcher.queue)
unfolding apply_op
submit_once uuid later_uuid now later spec again w os {job} h same =
    let w' = run os (apply_op (submits uuid now spec) w) in
    let known = run-Knows spec.job_key os _ (accepted-Knows uuid now spec w.dispatcher h) in
    refused later_uuid later again w'.dispatcher
      (ap (λ k. is_some (get k w'.dispatcher.jobs_by_key)) same ∙ known)
