-- ===== src/Dispatch/Exclusion.antt =====
-- src/jobs/dispatcher.ts: how many runs of a concurrency key are under way at once.
use maids_claw.Common.{
  ◌≡◌, ◌≤◌, count_of, if◌then◌else◌, ◌&&◌, refl, ℕ, ◌+◌, String, Bool, true, some, List, [], ◌∷◌,
  arith, str_eq, eq_iff, zero, suc, ltb, or_else, Result, ok, throw, Option-cases, Bool-cases, inl,
  inr,
}
use maids_claw.Common.Maps.{has, add, has-add, has-remove}
use maids_claw.Queue.{
  Job, get_by_key, update_job, check_duplicate, DedupAction, accept, coalesce, drop, noop,
}
use maids_claw.Dispatch.{
  Dispatcher, can_run, concurrency_key, select_next_runnable_job, start_next, start_job, begin_run,
  refresh, submit, known_jobs, decide, settle, end_job, update_queue, complete_run, retry_run,
  fail_run,
}
use maids_claw.Dispatch.Steps.{
  Work, pick, begin, DispatcherOp, submits, starts, ends, apply_op, run,
}
use maids_claw.Dispatch.Keys.{IsExclusiveKey, can_run_next, free_of}

-- whether a run is of a job with the key
abbrev pub is_under : String → Job × Job → Bool
is_under key r = str_eq (concurrency_key r.0) key

-- The runs of a key are no more than the set of keys in flight says.
abbrev IsCounted : String → List String → List (Job × Job) → Type 0
IsCounted key keys runs = count_of (is_under key) runs ≤ (if has key keys then 1 else 0)

refresh_in_flight :
    (key : String) (d : Dispatcher) → (refresh key d).in_flight_by_key ≡ d.in_flight_by_key
unfolding refresh
refresh_in_flight key d = elim (Option-cases (get_by_key key d.queue)) [
  | inl missing ↦ rw (missing, refresh) refl
  | inr (j, there) ↦ rw (there, refresh) refl
]

module _ (key : String) (exclusive : IsExclusiveKey key) where
  start_job-IsCounted :
      (now : ℕ) (n : Job) (d : Dispatcher) (runs : List (Job × Job))
      → can_run n d.in_flight_by_key ≡ true
      → IsCounted key d.in_flight_by_key runs
      → let s = start_job now n d in
        let w = begin s.0 s.1 runs in IsCounted key w.dispatcher.in_flight_by_key w.under_way
  unfolding start_job begin
  start_job-IsCounted now n d runs may h =
      let added = has-add (concurrency_key n) key d.in_flight_by_key in
      elim (Option-cases (
        get_by_key n.job_key (
          update_job n.job_id (λ j. record (begin_run now j) { attempts = n.attempts + 1 })
            d.queue))) [
              | inl missing ↦
                  let removed =
                    has-remove (concurrency_key n) key
                      (add (concurrency_key n) d.in_flight_by_key) in
                  rw (missing, start_job)
                    (elim (Bool-cases (str_eq (concurrency_key n) key)) [
                      | inl same ↦
                          let free =
                            free_of key exclusive n d.in_flight_by_key may
                              ((eq_iff (concurrency_key n) key).0 same) in
                          rw removed (rw same (rw free at h))
                      | inr other ↦ rw removed (rw added (rw other h))
                    ])
              | inr (r, there) ↦
                  rw (there, start_job)
                    (elim (Bool-cases (str_eq (concurrency_key n) key)) [
                      | inl same ↦
                          let free =
                            free_of key exclusive n d.in_flight_by_key may
                              ((eq_iff (concurrency_key n) key).0 same) in
                          let none_yet = rw free at h in
                          rw added (rw same (omega (arith, none_yet)))
                      | inr other ↦ rw added (rw other (omega (arith, h)))
                    ])
            ]

  start_next-IsCounted :
      (id_first : String → String → Bool) (now : ℕ) (d : Dispatcher) (runs : List (Job × Job))
      → IsCounted key d.in_flight_by_key runs
      → let s = start_next id_first now d in
        let w = begin s.0 s.1 runs in IsCounted key w.dispatcher.in_flight_by_key w.under_way
  unfolding start_next begin
  start_next-IsCounted id_first now d runs h =
      elim (Option-cases (select_next_runnable_job id_first d)) [
        | inl nothing ↦ rw (nothing, start_next) h
        | inr (n, selected) ↦ elim (Bool-cases (d.workers n.kind)) [
          | inl known ↦
              let counted = start_job-IsCounted now n d runs (can_run_next id_first d selected) h in
              rw (selected, start_next) (rw known counted)
          | inr unknown ↦
              rw (selected, start_next) (rw unknown (rw (refresh_in_flight n.job_key _) h))
        ]
      ]

  pick_counted :
      (n : ℕ) (runs : List (Job × Job)) {r : Job × Job} {others : List (Job × Job)}
      → pick n runs ≡ some (r, others)
      → count_of (is_under key) runs
        ≡ (if is_under key r then 1 else 0) + count_of (is_under key) others
  pick_counted n [] h = absurd (cc)
  pick_counted zero (x ∷ xs) h = ground arith
  pick_counted (suc n) (x ∷ xs) {r} {others} h = elim (Option-cases (pick n xs)) [
    | inl missing ↦ absurd (cc (rw missing at h))
    | inr ((y, ys), there) ↦
        let ih = pick_counted n xs there in
        let e : some (y, x ∷ ys) ≡ some (r, others) = rw there at h in
        let first : y ≡ r = ground arith in
        let rest : x ∷ ys ≡ others = ground arith in rw (← first, ← rest) (omega (arith, ih))
  ]

  settle_in_flight :
      (now : ℕ) (outcome : Result String (Unit {0})) (running : Job) (d : Dispatcher)
      → (settle now outcome running d).in_flight_by_key ≡ d.in_flight_by_key
  unfolding settle
  settle_in_flight now (ok u) running d =
      refresh_in_flight running.job_key (update_queue running.job_id (complete_run now) d)
  settle_in_flight now (throw message) running d =
      let current = or_else (get_by_key running.job_key d.queue) running in
      let updates =
        if current.retriable && ltb current.attempts current.max_attempts
        then retry_run message
        else fail_run now message in
      refresh_in_flight current.job_key (update_queue current.job_id updates d)

  end_job-IsCounted :
      (now : ℕ) (outcome : Result String (Unit {0})) (next running : Job) (d : Dispatcher)
      (others : List (Job × Job))
      → (if is_under key (next, running) then 1 else 0) + count_of (is_under key) others
        ≤ (if has key d.in_flight_by_key then 1 else 0)
      → IsCounted key (end_job now outcome next running d).in_flight_by_key others
  unfolding end_job
  end_job-IsCounted now outcome next running d others h =
      rw (has-remove (concurrency_key next) key (settle now outcome running d).in_flight_by_key) (
        rw (settle_in_flight now outcome running d)
          (elim (Bool-cases (str_eq (concurrency_key next) key)) [
            | inl same ↦ elim (Bool-cases (has key d.in_flight_by_key)) [
              | inl held ↦ rw same (omega (arith, rw held at (rw same at h)))
              | inr free ↦ rw same (omega (arith, rw free at (rw same at h)))
            ]
            | inr other ↦ rw other (omega (arith, rw other at h))
          ]))

  submit_in_flight :
      (uuid : String) (now : ℕ) (spec : Job) (d : Dispatcher)
      → (submit uuid now spec d).1.in_flight_by_key ≡ d.in_flight_by_key
  unfolding submit decide
  submit_in_flight uuid now spec d = go (check_duplicate (known_jobs spec.job_key d) spec.job_key)
    where
      go : (a : DedupAction) → (decide uuid now spec d a).1.in_flight_by_key ≡ d.in_flight_by_key
      go accept = refl
      go coalesce = refl
      go drop = refl
      go noop = refl

  run-IsCounted :
      (os : List DispatcherOp) (w : Work)
      → IsCounted key w.dispatcher.in_flight_by_key w.under_way
      → IsCounted key (run os w).dispatcher.in_flight_by_key (run os w).under_way
  unfolding run apply_op
  run-IsCounted [] w h = h
  run-IsCounted (submits uuid now spec ∷ os) w h =
      run-IsCounted os (apply_op (submits uuid now spec) w)
        (rw (submit_in_flight uuid now spec w.dispatcher) h)
  run-IsCounted (starts id_first now ∷ os) w h =
      run-IsCounted os (apply_op (starts id_first now) w)
        (start_next-IsCounted id_first now w.dispatcher w.under_way h)
  run-IsCounted (ends now outcome n ∷ os) w h =
      run-IsCounted os (apply_op (ends now outcome n) w) (elim (Option-cases (pick n w.under_way)) [
        | inl missing ↦ rw (missing, apply_op) h
        | inr (((next, running), others), there) ↦
            rw (there, apply_op)
              (end_job-IsCounted now outcome next running w.dispatcher others
                (rw (pick_counted n w.under_way there) at h))
      ])

-- From a dispatcher with no run under way, after any sequence of submissions, starts and ends of runs,
-- in any order, at most one run under way is of a job with a given concurrency key, if that key is not
-- "memory.organize:global" and does not start with "task.run:".
pub run_exclusive :
    (key : String) (os : List DispatcherOp) (d : Dispatcher)
    → IsExclusiveKey key
    → count_of (is_under key) (run os (record { dispatcher = d; under_way = [] })).under_way ≤ 1
run_exclusive key os d exclusive =
    let counted =
      run-IsCounted key exclusive os (record { dispatcher = d; under_way = [] }) (omega arith) in
    ground (arith, counted)
