-- ===== src/Queue/Selection.antt =====
-- The queue hands out the least of its pending jobs.
use maids_claw.Common.{
  ◌≡◌, refl, sym, ap, ◌∙◌, String, true, false, ◌⊎◌, inl, inr, Option, none, some, List, [], ◌∷◌,
  arith, str_eq, eq_iff, Option-cases, Bool-cases,
}
use maids_claw.Common.Maps.{get, has}
use maids_claw.Queue.{StoredJob, earlier, better, best_pending}

not_earlier_trans :
    (a b c : StoredJob) → earlier a b ≡ false → earlier b c ≡ false → earlier a c ≡ false
unfolding earlier
not_earlier_trans a b c p q = ground arith

earlier_irrefl : (a : StoredJob) → earlier a a ≡ false
unfolding earlier
earlier_irrefl a = ground arith

earlier_asym : (a b : StoredJob) → earlier a b ≡ true → earlier b a ≡ false
unfolding earlier
earlier_asym a b p = ground arith

better_first : (o : Option StoredJob) (c : StoredJob) → earlier c (better o c) ≡ false
unfolding better
better_first none c = earlier_irrefl c
better_first (some b) c = elim (Bool-cases (earlier c b)) [
  | inl first ↦ rw first (earlier_irrefl c)
  | inr later ↦ rw later later
]

better_kept : (b c : StoredJob) → earlier b (better (some b) c) ≡ false
unfolding better
better_kept b c = elim (Bool-cases (earlier c b)) [
  | inl first ↦ rw first (earlier_asym c b first)
  | inr later ↦ rw later (earlier_irrefl b)
]

module _ (m : List (String × StoredJob)) where
  -- The job that the loop starts from is no earlier than the one it ends with.
  best_pending_start :
      (ids : List String) (b : StoredJob) {r : StoredJob}
      → best_pending m ids (some b) ≡ some r
      → earlier b r ≡ false
  unfolding best_pending
  best_pending_start [] b {r} h = let same : b ≡ r = ground arith in rw same (earlier_irrefl r)
  best_pending_start (id ∷ ids) b {r} h = elim (Option-cases (get id m)) [
    | inl missing ↦ best_pending_start ids b (rw (missing, best_pending) at h)
    | inr (c, there) ↦
        not_earlier_trans b (better (some b) c) r (better_kept b c)
          (best_pending_start ids (better (some b) c) (rw (there, best_pending) at h))
  ]

  same_entry :
      (x id : String) {c d : StoredJob}
      → str_eq x id ≡ true
      → get x m ≡ some d
      → get id m ≡ some c
      → c ≡ d
  same_entry x id {c} {d} same named there =
      let e : some d ≡ some c = sym named ∙ ap (λ k. get k m) ((eq_iff x id).0 same) ∙ there in
      ground arith

  listed_rest :
      (x : String) (ids : List String) (id : String) {c : StoredJob}
      → has id (x ∷ ids) ≡ true
      → get x m ≡ none
      → get id m ≡ some c
      → has id ids ≡ true
  listed_rest x ids id {c} listed missing there = elim (Bool-cases (str_eq x id)) [
    | inl same ↦ absurd (cc (sym missing ∙ ap (λ k. get k m) ((eq_iff x id).0 same) ∙ there))
    | inr other ↦ rw other at listed
  ]

  -- The job that the loop ends with is no later than any job that an id of the list names.
  pub best_pending_least :
      (ids : List String) (o : Option StoredJob) (id : String) {c r : StoredJob}
      → best_pending m ids o ≡ some r
      → has id ids ≡ true
      → get id m ≡ some c
      → earlier c r ≡ false
  unfolding best_pending
  best_pending_least [] o id h listed there = absurd (cc)
  best_pending_least (x ∷ ids) o id {c} {r} h listed there = elim (Option-cases (get x m)) [
    | inl missing ↦
        best_pending_least ids o id (rw (missing, best_pending) at h)
          (listed_rest x ids id listed missing there) there
    | inr (d, named) ↦
        let h' : best_pending m ids (some (better o d)) ≡ some r = rw (named, best_pending) at h in
        elim (Bool-cases (str_eq x id)) [
          | inl same ↦
              let found : c ≡ d = same_entry x id same named there in
              rw found (
                not_earlier_trans d (better o d) r (better_first o d)
                  (best_pending_start ids (better o d) h'))
          | inr other ↦ best_pending_least ids (some (better o d)) id h' (rw other at listed) there
        ]
  ]

  -- The job that the loop ends with is the one it started from, or an id of the list names it.
  pub best_pending_found :
      (ids : List String) (o : Option StoredJob) {r : StoredJob}
      → best_pending m ids o ≡ some r
      → (o ≡ some r) ⊎ ((id : String) × ((has id ids ≡ true) × (get id m ≡ some r)))
  unfolding best_pending better
  best_pending_found [] o h = inl h
  best_pending_found (x ∷ ids) o {r} h = elim (Option-cases (get x m)) [
    | inl missing ↦ elim (best_pending_found ids o (rw (missing, best_pending) at h)) [
      | inl start ↦ inl start
      | inr (id, (listed, named)) ↦ inr (id, (ground arith, named))
    ]
    | inr (c, there) ↦
        elim (best_pending_found ids (some (better o c)) (rw (there, best_pending) at h)) [
          | inl e ↦ elim (start_or o c (ground arith)) [
            | inl start ↦ inl start
            | inr here ↦ inr (x, (ground (arith, eq_iff x x), there ∙ ap some here))
          ]
          | inr (id, (listed, named)) ↦ inr (id, (ground arith, named))
        ]
  ]
    where
      start_or : (o : Option StoredJob) (c : StoredJob) → better o c ≡ r → (o ≡ some r) ⊎ (c ≡ r)
      start_or none c e = inr e
      start_or (some b) c e = elim (Bool-cases (earlier c b)) [
        | inl first ↦ inr (rw first at e)
        | inr later ↦ inl (ap some (rw later at e))
      ]

  pub best_pending-some :
      (ids : List String) (b : StoredJob) → (r : StoredJob) × (best_pending m ids (some b) ≡ some r)
  unfolding best_pending
  best_pending-some [] b = (b, refl)
  best_pending-some (x ∷ ids) b = elim (Option-cases (get x m)) [
    | inl missing ↦ let (r, e) = best_pending-some ids b in (r, rw (missing, best_pending) e)
    | inr (c, there) ↦
        let (r, e) = best_pending-some ids (better (some b) c) in (r, rw (there, best_pending) e)
  ]

  -- The loop ends with no job only if no id of the list names one.
  pub best_pending-none :
      (ids : List String) (id : String)
      → best_pending m ids none ≡ none
      → has id ids ≡ true
      → get id m ≡ none
  unfolding best_pending
  best_pending-none [] id h listed = absurd (cc)
  best_pending-none (x ∷ ids) id h listed = elim (Option-cases (get x m)) [
    | inl missing ↦ elim (Bool-cases (str_eq x id)) [
      | inl same ↦ ap (λ k. get k m) (sym ((eq_iff x id).0 same)) ∙ missing
      | inr other ↦ best_pending-none ids id (rw (missing, best_pending) at h) (rw other at listed)
    ]
    | inr (c, there) ↦
        let (r, e) = best_pending-some ids (better none c) in
        absurd (cc (rw e at (rw (there, best_pending) at h)))
  ]
