-- ===== src/Queue/Steps.antt =====
-- Each operation keeps the tables of the queue in agreement.
use maids_claw.Common.{
  ◌≡◌, refl, sym, ap, ◌∙◌, ◌<◌, String, Bool, true, false, inl, inr, none, some, List, [], ◌∷◌,
  arith, str_eq, eq_iff, Option-cases, Bool-cases, select, is_some,
}
use maids_claw.Common.Maps.{get, set, has, get-set, get-set_cases, some_of, has-add, has-remove}
use maids_claw.Queue.{
  StoredJob, JobQueue, Job, JobStatus, is_pending, enqueue, dequeue, update_job,
  select_next_pending, best_pending, sync_pending_state,
}
use maids_claw.Queue.Tables.{IsConsistent}

has-select_less :
    (p : String → Bool) (id : String) (ids : List String)
    → has id (select p ids) ≡ true
    → has id ids ≡ true
has-select_less p id [] h = h
has-select_less p id (x ∷ xs) h = ground (arith, has-select_less p id xs)

-- the same jobs, and no new pending id
record Fewer (q q' : JobQueue) : Type 0 where
  jobs : q'.jobs_by_id ≡ q.jobs_by_id
  counter : q'.enqueue_counter ≡ q.enqueue_counter
  fewer : (id : String) → has id q'.pending_job_ids ≡ true → has id q.pending_job_ids ≡ true

dequeue_less : (q : JobQueue) → Fewer q (dequeue q).1
unfolding dequeue select_next_pending
dequeue_less q =
    let known = λ (id : String). is_some (get id q.jobs_by_id) in
    elim (Option-cases (best_pending q.jobs_by_id q.pending_job_ids none)) [
      | inl nothing ↦
          rw (nothing, dequeue)
            (record {
              jobs = refl;
              counter = refl;
              fewer = λ id h. has-select_less known id q.pending_job_ids h;
            })
      | inr (s, found) ↦
          rw (found, dequeue)
            (record {
              jobs = refl;
              counter = refl;
              fewer = λ id h.
                  has-select_less known id q.pending_job_ids
                    (ground (arith, has-remove s.job.job_id id (select known q.pending_job_ids)));
            })
    ]

sync_other :
    (p n : JobStatus) (k i : String) (ids : List String)
    → str_eq k i ≡ false
    → has i (sync_pending_state p n k ids) ≡ true
    → has i ids ≡ true
unfolding sync_pending_state
sync_other p n k i ids other h = ground (arith, has-add k i ids, has-remove k i ids)

sync_same :
    (p n : JobStatus) (k i : String) (ids : List String)
    → str_eq k i ≡ true
    → (has i ids ≡ true → is_pending p ≡ true)
    → has i (sync_pending_state p n k ids) ≡ true
    → is_pending n ≡ true
unfolding sync_pending_state
sync_same p n k i ids same waits h = ground (arith, waits, has-add k i ids, has-remove k i ids)

module _ (job : Job) (q : JobQueue) (good : IsConsistent q)
    (fresh : get job.job_id q.jobs_by_id ≡ none) where
  added : StoredJob
  added = record { job = job; enqueue_seq = q.enqueue_counter }

  old_id :
      (id : String)
      → str_eq job.job_id id ≡ false
      → has id (enqueue job q).pending_job_ids ≡ true
      → has id q.pending_job_ids ≡ true
  unfolding enqueue
  old_id id other l = ground (arith, has-add job.job_id id q.pending_job_ids)

  must_wait :
      (id : String)
      → str_eq job.job_id id ≡ true
      → has id (enqueue job q).pending_job_ids ≡ true
      → is_pending job.status ≡ true
  unfolding enqueue
  must_wait id same l = elim (Bool-cases (is_pending job.status)) [
    | inl waits ↦ waits
    | inr ended ↦
        let (s, (there, _)) = good.waiting id (rw ended at l) in
        let here = ap (λ k. get k q.jobs_by_id) ((eq_iff job.job_id id).0 same) in
        absurd (cc (sym fresh ∙ here ∙ there))
  ]

  pub enqueue-IsConsistent : IsConsistent (enqueue job q)
  unfolding enqueue added
  enqueue-IsConsistent = record {
    named = λ id s e. elim (get-set_cases job.job_id id added s q.jobs_by_id e) [
      | inl (here, same) ↦ ap (λ (x : StoredJob). x.job.job_id) (sym same) ∙ here
      | inr (other, old) ↦ good.named id s old
    ];
    waiting = λ id l. elim (Bool-cases (str_eq job.job_id id)) [
      | inl same ↦
          (added, (get-set job.job_id id added q.jobs_by_id ∙ rw same, must_wait id same l))
      | inr other ↦
          let (s, (there, p)) = good.waiting id (old_id id other l) in
          (s, (get-set job.job_id id added q.jobs_by_id ∙ rw other there, p))
    ];
    numbered = λ id s e. elim (get-set_cases job.job_id id added s q.jobs_by_id e) [
      | inl (here, same) ↦ let n = ap (λ (x : StoredJob). x.enqueue_seq) same in omega (arith, n)
      | inr (other, old) ↦ omega (arith, good.numbered id s old)
    ];
    distinct = λ i j s t e f n. elim (get-set_cases job.job_id i added s q.jobs_by_id e) [
      | inl (here, same) ↦ elim (get-set_cases job.job_id j added t q.jobs_by_id f) [
        | inl (there, _) ↦ sym here ∙ there
        | inr (_, old) ↦
            let m = ap (λ (x : StoredJob). x.enqueue_seq) same in
            absurd (omega (arith, m, n, good.numbered j t old))
      ]
      | inr (other, older) ↦ elim (get-set_cases job.job_id j added t q.jobs_by_id f) [
        | inl (there, same) ↦
            let m = ap (λ (x : StoredJob). x.enqueue_seq) same in
            absurd (omega (arith, m, n, good.numbered i s older))
        | inr (_, old) ↦ good.distinct i j s t older old n
      ]
    ];
  }

module _ (q : JobQueue) (good : IsConsistent q) where
  pub dequeue-IsConsistent : IsConsistent (dequeue q).1
  dequeue-IsConsistent =
      let l = dequeue_less q in
      record {
        named = λ id s e. good.named id s (rw l.jobs at e);
        waiting = λ id h. rw l.jobs (good.waiting id (l.fewer id h));
        numbered = λ id s e. rw l.counter (good.numbered id s (rw l.jobs at e));
        distinct = λ i j s t e f n. good.distinct i j s t (rw l.jobs at e) (rw l.jobs at f) n;
      }

  module _ (id : String) (updates : Job → Job)
      (keeps : (j : Job) → (updates j).job_id ≡ j.job_id) where
    merged : StoredJob → StoredJob
    merged e = record e { job = updates e.job }

    module _ (e : StoredJob) (found : get id q.jobs_by_id ≡ some e) where
      own : (updates e.job).job_id ≡ id
      own = keeps e.job ∙ good.named id e found

      updated-named :
          (i : String) (s : StoredJob)
          → get i (set id (merged e) q.jobs_by_id) ≡ some s
          → s.job.job_id ≡ i
      unfolding merged
      updated-named i s h = elim (get-set_cases id i (merged e) s q.jobs_by_id h) [
        | inl (here, same) ↦ ap (λ (x : StoredJob). x.job.job_id) (sym same) ∙ own ∙ here
        | inr (_, old) ↦ good.named i s old
      ]

      updated-numbered :
          (i : String) (s : StoredJob)
          → get i (set id (merged e) q.jobs_by_id) ≡ some s
          → s.enqueue_seq < q.enqueue_counter
      unfolding merged
      updated-numbered i s h = elim (get-set_cases id i (merged e) s q.jobs_by_id h) [
        | inl (here, same) ↦
            let n = ap (λ (x : StoredJob). x.enqueue_seq) same in
            omega (arith, n, good.numbered id e found)
        | inr (_, old) ↦ good.numbered i s old
      ]

      -- a job of the changed map has the number of a job of the old one
      before :
          (i : String) (s : StoredJob)
          → get i (set id (merged e) q.jobs_by_id) ≡ some s
          → (t : StoredJob) × ((get i q.jobs_by_id ≡ some t) × (t.enqueue_seq ≡ s.enqueue_seq))
      unfolding merged
      before i s h = elim (get-set_cases id i (merged e) s q.jobs_by_id h) [
        | inl (here, same) ↦ (
          e,
          (
            ap (λ k. get k q.jobs_by_id) (sym here) ∙ found,
            ap (λ (x : StoredJob). x.enqueue_seq) same,
          ),
        )
        | inr (_, old) ↦ (s, (old, refl))
      ]

      updated-waiting :
          (i : String)
          → has i (
              sync_pending_state e.job.status
                (updates e.job).status
                (updates e.job).job_id
                q.pending_job_ids)
            ≡ true
          → (s : StoredJob) × ((get i (set id (merged e) q.jobs_by_id) ≡ some s)
              × (is_pending s.job.status ≡ true))
      unfolding merged
      updated-waiting i l = elim (Bool-cases (str_eq id i)) [
        | inl same ↦
            let here = (eq_iff id i).0 same in
            (
              merged e,
              (
                get-set id i (merged e) q.jobs_by_id ∙ rw same,
                sync_same _ _ _ i q.pending_job_ids (ap (λ k. str_eq k i) own ∙ same)
                    (λ h.
                      let (t, (there, p)) = good.waiting i h in
                      let one : some t ≡ some e =
                        sym there ∙ ap (λ k. get k q.jobs_by_id) (sym here) ∙ found in
                      ap (λ (x : StoredJob). is_pending x.job.status) (sym (some_of one)) ∙ p)
                    l,
              ),
            )
        | inr other ↦
            let away : str_eq (updates e.job).job_id i ≡ false = ap (λ k. str_eq k i) own ∙ other in
            let (s, (there, p)) = good.waiting i (sync_other _ _ _ i q.pending_job_ids away l) in
            (s, (get-set id i (merged e) q.jobs_by_id ∙ rw other there, p))
      ]

      updated-IsConsistent : IsConsistent (update_job id updates q)
      unfolding update_job merged
      updated-IsConsistent =
          rw (found, update_job)
            (record {
              named = updated-named;
              waiting = updated-waiting;
              numbered = updated-numbered;
              distinct = λ i j s t h k n.
                  let (a, (at_i, same_i)) = before i s h in
                  let (b, (at_j, same_j)) = before j t k in
                  good.distinct i j a b at_i at_j (same_i ∙ n ∙ sym same_j);
            })

    pub update_job-IsConsistent : IsConsistent (update_job id updates q)
    unfolding update_job
    update_job-IsConsistent = elim (Option-cases (get id q.jobs_by_id)) [
      | inl missing ↦ rw (missing, update_job) good
      | inr (e, found) ↦ updated-IsConsistent e found
    ]
