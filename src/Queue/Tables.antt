-- ===== src/Queue/Tables.antt =====
-- The tables of the queue agree, whatever is done to it.
use maids_claw.Common.{
  ◌≢◌, ◌≡◌, refl, ap, ◌∙◌, ◌<◌, String, Bool, true, false, not, ◌&&◌, ◌⊎◌, inl, inr, none, some,
  List, [], ◌∷◌, arith, str_eq, eq_iff, Option-cases, Bool-cases, is_some, select,
}
use maids_claw.Common.Maps.{get, has, remove, has-remove}
use maids_claw.Queue.{
  StoredJob, JobQueue, is_pending, earlier, dequeue, select_next_pending, best_pending, new_queue,
}
use maids_claw.Queue.Selection.{best_pending_least, best_pending_found, best_pending-none}

-- every id names a job of that id, every pending id names a job that waits, and no two jobs have the
-- same sequence number
pub record IsConsistent (q : JobQueue) : Type 0 where
  pub named : (id : String) (s : StoredJob) → get id q.jobs_by_id ≡ some s → s.job.job_id ≡ id
  pub waiting :
      (id : String)
      → has id q.pending_job_ids ≡ true
      → (s : StoredJob) × ((get id q.jobs_by_id ≡ some s) × (is_pending s.job.status ≡ true))
  pub numbered :
      (id : String) (s : StoredJob)
      → get id q.jobs_by_id ≡ some s
      → s.enqueue_seq < q.enqueue_counter
  pub distinct :
      (i j : String) (s t : StoredJob)
      → get i q.jobs_by_id ≡ some s
      → get j q.jobs_by_id ≡ some t
      → s.enqueue_seq ≡ t.enqueue_seq
      → i ≡ j

-- what a hand-out does to the pending ids
pub record HandsOut (q : JobQueue) (s : StoredJob) (q' : JobQueue) : Type 0 where
  pub listed : has s.job.job_id q.pending_job_ids ≡ true
  pub stored : get s.job.job_id q.jobs_by_id ≡ some s
  pub least :
      (id : String) (c : StoredJob)
      → has id q.pending_job_ids ≡ true
      → get id q.jobs_by_id ≡ some c
      → str_eq s.job.job_id id ≡ false
      → earlier s c ≡ true
  pub gone :
      (id : String)
      → has id q'.pending_job_ids ≡ (not (str_eq s.job.job_id id) && has id q.pending_job_ids)
  pub kept : q'.jobs_by_id ≡ q.jobs_by_id

has-select :
    (p : String → Bool) (ids : List String)
    → ((id : String) → has id ids ≡ true → p id ≡ true)
    → select p ids ≡ ids
has-select p [] h = refl
has-select p (x ∷ ids) h =
    let first : p x ≡ true = h x (ground (arith, eq_iff x x)) in
    rw first (ap (◌∷◌ x) (has-select p ids (λ id l. h id (ground arith))))

earlier_total :
    (a b : StoredJob) → earlier b a ≡ false → a.enqueue_seq ≢ b.enqueue_seq → earlier a b ≡ true
unfolding earlier
earlier_total a b h n = ground arith

pub new_queue-IsConsistent : IsConsistent new_queue
new_queue-IsConsistent = record {
  named = λ id s e. absurd (cc);
  waiting = λ id e. absurd (cc);
  numbered = λ id s e. absurd (cc);
  distinct = λ i j s t e. absurd (cc);
}

module _ (q : JobQueue) (ok : IsConsistent q) where
  all_known : select (λ id. is_some (get id q.jobs_by_id)) q.pending_job_ids ≡ q.pending_job_ids
  all_known =
      has-select (λ id. is_some (get id q.jobs_by_id)) q.pending_job_ids
        (λ id l. rw ((ok.waiting id l).1.0))

  taken : StoredJob → JobQueue
  taken s = record q {
    pending_job_ids =
        remove s.job.job_id (select (λ id. is_some (get id q.jobs_by_id)) q.pending_job_ids);
  }

  dequeue-some :
      (s : StoredJob)
      → best_pending q.jobs_by_id q.pending_job_ids none ≡ some s
      → dequeue q ≡ (some s.job, taken s)
  unfolding dequeue select_next_pending taken
  dequeue-some s found = rw (found, dequeue)

  none_pending :
      best_pending q.jobs_by_id q.pending_job_ids none ≡ none
      → (id : String) → has id q.pending_job_ids ≡ false
  none_pending nothing id = elim (Bool-cases (has id q.pending_job_ids)) [
    | inl listed ↦
        let (s, (there, _)) = ok.waiting id listed in
        absurd (cc (best_pending-none q.jobs_by_id q.pending_job_ids id nothing listed))
    | inr idle ↦ idle
  ]

  hands_out :
      (s : StoredJob)
      → best_pending q.jobs_by_id q.pending_job_ids none ≡ some s
      → HandsOut q s (taken s)
  unfolding taken
  hands_out s found = elim (best_pending_found q.jobs_by_id q.pending_job_ids none found) [
    | inl e ↦ absurd (cc)
    | inr (i, (listed, there)) ↦
        let own : s.job.job_id ≡ i = ok.named i s there in
        record {
          listed = rw own listed;
          stored = ap (λ k. get k q.jobs_by_id) own ∙ there;
          least = λ id c l t other.
              earlier_total s c
                (best_pending_least q.jobs_by_id q.pending_job_ids none id found l t)
                (λ same.
                  absurd
                    (cc ((eq_iff s.job.job_id id).1 (own ∙ ok.distinct i id s c there t same))));
          gone = λ id. rw all_known (has-remove s.job.job_id id q.pending_job_ids);
          kept = refl;
        }
  ]

  -- A dequeue of a consistent queue gives nothing only if nothing is pending; else it gives the pending
  -- job that comes before every other, by the priority of its class, its time and the order of
  -- enqueueing, and takes its id, and no other, off the pending ids.
  pub dequeue_lem :
      (((dequeue q).0 ≡ none) × ((id : String) → has id q.pending_job_ids ≡ false))
      ⊎ ((s : StoredJob) × (((dequeue q).0 ≡ some s.job) × HandsOut q s (dequeue q).1))
  unfolding dequeue select_next_pending
  dequeue_lem = elim (Option-cases (best_pending q.jobs_by_id q.pending_job_ids none)) [
    | inl nothing ↦ inl (rw (nothing, dequeue), none_pending nothing)
    | inr (s, found) ↦
        inr
          (s, (ap (λ d. d.0) (dequeue-some s found), rw (dequeue-some s found) (hands_out s found)))
  ]
