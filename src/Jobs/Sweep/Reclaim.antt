-- ===== src/Jobs/Sweep/Reclaim.antt =====
-- src/jobs/pg-store.ts, `reclaimExpiredLeases`: the sweep of expired leases, row by row.
use mathlib.Core.Path.{subst}
use maids_claw.Common.{
  ◌≡◌, ◌≢◌, ◌<◌, ◌≤◌, ltb, ltb→lt, ltb→le, refl, sym, ◌∙◌, ap, ℕ, Bool, true, false, Option, none,
  some, List, [], ◌∷◌, String, str_eq, eq_iff, find_first, any_of, select, arith, Bool-cases,
  Option-cases, inl, inr,
}
use maids_claw.Jobs.Rows.{PgJobStatus, is_running, Db, has_key, row_of}
use maids_claw.Jobs.Rows.Updates.{Row, after, row_of-update_where, UniqueKeys, found_passes}
use maids_claw.Jobs.Fence.{release, holds_claim, mark_attempt_lease_lost}
use maids_claw.Jobs.Sweep.{
  is_before, is_expired, reclaim_row, reclaim_one, reclaim_all, reclaim_expired_leases,
}

-- whether one of the rows names the claim of a row
abbrev named_by : List Row → Row → Bool
named_by rows r = any_of (λ c. holds_claim c.job_key c.claim_version r) rows

reclaimed_idle : (now : ℕ) (rows : List Row) (r : Row) → named_by rows (reclaim_row now r) ≡ false
unfolding holds_claim reclaim_row
reclaimed_idle now [] r = refl
reclaimed_idle now (c ∷ rows) r = ground (arith, reclaimed_idle now rows r)

row_of-reclaim_one :
    (k : String) (now : ℕ) (c : Row) (db : Db)
    → row_of k (reclaim_one now c db)
      ≡ after (holds_claim c.job_key c.claim_version) (reclaim_row now) (row_of k db)
unfolding reclaim_one mark_attempt_lease_lost
row_of-reclaim_one k now c db =
    row_of-update_where k (holds_claim c.job_key c.claim_version) (reclaim_row now) db.jobs_current
      (unfold reclaim_row in λ r. refl)

row_of-reclaim_all :
    (k : String) (now : ℕ) (rows : List Row) (db : Db)
    → row_of k (reclaim_all now rows db) ≡ after (named_by rows) (reclaim_row now) (row_of k db)
unfolding reclaim_all
row_of-reclaim_all k now [] db = elim (Option-cases (row_of k db)) [
  | inl missing ↦ rw missing
  | inr (r, there) ↦ rw there
]
row_of-reclaim_all k now (c ∷ rows) db =
    row_of-reclaim_all k now rows (reclaim_one now c db)
    ∙ ap (after (named_by rows) (reclaim_row now)) (row_of-reclaim_one k now c db)
    ∙ twice (row_of k db)
  where
    twice :
        (o : Option Row)
        → after
            (named_by rows)
            (reclaim_row now)
            (after (holds_claim c.job_key c.claim_version) (reclaim_row now) o)
          ≡ after (named_by (c ∷ rows)) (reclaim_row now) o
    twice none = refl
    twice (some r) = elim (Bool-cases (holds_claim c.job_key c.claim_version r)) [
      | inl hit ↦ rw hit (rw (reclaimed_idle now rows r))
      | inr miss ↦ rw miss
    ]

none_named :
    (p : Row → Bool) (xs : List Row) (r : Row)
    → any_of (has_key r.job_key) xs ≡ false
    → named_by (select p xs) r ≡ false
unfolding holds_claim
none_named p [] r h = refl
none_named p (x ∷ xs) r h =
    ground (arith, none_named p xs r, eq_iff x.job_key r.job_key, eq_iff r.job_key x.job_key)

holds_own :
    (now : ℕ) (r : Row) → is_expired now r ≡ true → holds_claim r.job_key r.claim_version r ≡ true
unfolding holds_claim is_expired
holds_own now r h = ground (arith, eq_iff r.job_key r.job_key)

not_mine :
    (x r : Row)
    → str_eq x.job_key r.job_key ≡ false
    → holds_claim x.job_key x.claim_version r ≡ false
unfolding holds_claim
not_mine x r h = ground (arith, eq_iff x.job_key r.job_key, eq_iff r.job_key x.job_key)

-- Of a table with unique keys, the rows that pass the test name a row's claim if the row passes it.
named_iff :
    (now : ℕ) (xs : List Row) (r : Row)
    → UniqueKeys xs
    → find_first (has_key r.job_key) xs ≡ some r
    → named_by (select (is_expired now) xs) r ≡ is_expired now r
named_iff now [] r u h = cc
named_iff now (x ∷ xs) r (new, u) h = elim (Bool-cases (str_eq x.job_key r.job_key)) [
  | inl hit ↦
      let same : x ≡ r = ground arith in
      let fresh : any_of (has_key r.job_key) xs ≡ false =
        subst (λ (b : Row). any_of (has_key b.job_key) xs ≡ false) same new in
      rw same (elim (Bool-cases (is_expired now r)) [
        | inl due ↦ rw due (rw (holds_own now r due))
        | inr not_due ↦ rw not_due (none_named (is_expired now) xs r fresh)
      ])
  | inr miss ↦
      let later : find_first (has_key r.job_key) xs ≡ some r = rw miss at h in
      let ih = named_iff now xs r u later in
      let other : holds_claim x.job_key x.claim_version r ≡ false = not_mine x r miss in
      elim (Bool-cases (is_expired now x)) [
        | inl due ↦ rw due (rw other ih)
        | inr not_due ↦ rw not_due ih
      ]
]

-- After the sweep, the row of each job is what one update of all expired rows makes of it.
row_of-reclaim_all_expired :
    (k : String) (now : ℕ) (db : Db)
    → UniqueKeys db.jobs_current
    → row_of k (reclaim_expired_leases now db).1
      ≡ after (is_expired now) (reclaim_row now) (row_of k db)
unfolding reclaim_expired_leases
row_of-reclaim_all_expired k now db u =
    row_of-reclaim_all k now (select (is_expired now) db.jobs_current) db ∙ go (row_of k db) refl
  where
    go :
        (o : Option Row)
        → row_of k db ≡ o
        → after (named_by (select (is_expired now) db.jobs_current)) (reclaim_row now) o
          ≡ after (is_expired now) (reclaim_row now) o
    go none e = refl
    go (some r) e =
        let key = (eq_iff r.job_key k).0 (found_passes (has_key k) db.jobs_current e) in
        let own : find_first (has_key r.job_key) db.jobs_current ≡ some r =
          subst (λ b. find_first (has_key b) db.jobs_current ≡ some r) (sym key) e in
        rw (named_iff now db.jobs_current r u own)

-- what a sweep at `now` makes of the row of a key
pub data Swept (now : ℕ) : Option Row → Option Row → Type 0 where
  missing : Swept now none none
  reclaimed :
      (r : Row) (lease : ℕ)
      → r.status ≡ PgJobStatus.running
      → r.lease_expires_at ≡ some lease
      → lease < now
      → Swept now (some r) (
          some (record r {
            status = PgJobStatus.pending;
            next_attempt_at = now;
            claimed_by = none;
            claimed_at = none;
            lease_expires_at = none;
            last_heartbeat_at = none;
            updated_at = now;
          }))
  not_running : (r : Row) → r.status ≢ PgJobStatus.running → Swept now (some r) (some r)
  no_lease : (r : Row) → r.lease_expires_at ≡ none → Swept now (some r) (some r)
  in_time :
      (r : Row) (lease : ℕ)
      → r.lease_expires_at ≡ some lease
      → now ≤ lease
      → Swept now (some r) (some r)

running_of : (s : PgJobStatus) → is_running s ≡ true → s ≡ PgJobStatus.running
unfolding is_running
running_of s h = ground arith

not_running_of : (s : PgJobStatus) → is_running s ≡ false → s ≢ PgJobStatus.running
unfolding is_running
not_running_of s h e = absurd (ground arith)

swept : (now : ℕ) (o : Option Row) → Swept now o (after (is_expired now) (reclaim_row now) o)
swept now none = missing
swept now (some r) = elim (Bool-cases (is_running r.status)) [
  | inl runs ↦ elim (Option-cases r.lease_expires_at) [
    | inl none_set ↦
        let kept : is_expired now r ≡ false =
          unfold is_expired is_before in rw runs (rw none_set refl) in
        rw kept (no_lease r none_set)
    | inr (lease, set) ↦ elim (Bool-cases (ltb lease now)) [
      | inl over ↦
          let due : is_expired now r ≡ true =
            unfold is_expired is_before in rw runs (rw set over) in
          rw due (
            unfold reclaim_row release in
            reclaimed r lease (running_of r.status runs) set (ltb→lt lease now over))
      | inr holds ↦
          let kept : is_expired now r ≡ false =
            unfold is_expired is_before in rw runs (rw set holds) in
          rw kept (in_time r lease set (ltb→le lease now holds))
    ]
  ]
  | inr idle ↦
      let kept : is_expired now r ≡ false = unfold is_expired in rw idle refl in
      rw kept (not_running r (not_running_of r.status idle))
]

-- In tables with unique job keys, a sweep at `now` puts the row of a job that runs under a lease that
-- ended before `now` back: it waits, is due and was updated at `now`, has no owner, no lease and no
-- heartbeat, and all its other columns are as they were, its attempts and its claim version among
-- them, however many attempts it has had. The row of a job that does not run, or has no lease, or one
-- that ends at `now` or later, is as it was, and no row is added.
pub row_of-reclaim :
    (k : String) (now : ℕ) (db : Db)
    → UniqueKeys db.jobs_current
    → Swept now (row_of k db) (row_of k (reclaim_expired_leases now db).1)
row_of-reclaim k now db u =
    subst (Swept now (row_of k db)) (sym (row_of-reclaim_all_expired k now db u))
      (swept now (row_of k db))
