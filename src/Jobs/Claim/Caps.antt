-- ===== src/Jobs/Claim/Caps.antt =====
-- A claim keeps to the caps: the number of running jobs of a concurrency key, and the global number of
-- running jobs of a kind whose key belongs to a session.
use mathlib.Core.Path.{subst}
use maids_claw.Common.{
  ◌⊎◌, ◌≡◌, refl, sym, ◌∙◌, ap, ℕ, ◌+◌, ◌<◌, ◌≤◌, Bool, true, false, Option, some, List, [], ◌∷◌,
  String, str_eq, eq_iff, find_first, count_of, any_of, arith, ltb→lt, Bool-cases, inl, inr, ok,
  if◌then◌else◌,
}
use maids_claw.Jobs.Rows.{job_type, Db, update_where}
use maids_claw.Jobs.Rows.Updates.{Row, NoKey, UniqueKeys, update_where_none}
use maids_claw.Jobs.Claim.{
  ClaimEnv, ClaimNextInput, concurrency_cap, global_concurrency_key, runs_under, runs_as, has_room,
  claim_row, waits, claim_next,
}
use maids_claw.Jobs.Claim.Ready.{SortsRows, claim_next-TookReady, waits_key}

one_if : Bool → ℕ
one_if b = if b then 1 else 0

one_if-le : (b : Bool) → one_if b ≤ 1
unfolding one_if
one_if-le true = omega arith
one_if-le false = omega arith

one_if-false : (b : Bool) → b ≡ false → one_if b ≡ 0
unfolding one_if
one_if-false b h = rw h

none_hit :
    (p : Row → Bool) (k : String) (xs : List Row)
    → ((r : Row) → p r ≡ true → r.job_key ≡ k)
    → NoKey k xs
    → any_of p xs ≡ false
none_hit p k [] only h = refl
none_hit p k (x ∷ xs) only h = elim (Bool-cases (p x)) [
  | inl hit ↦ absurd (cc (rw ((eq_iff x.job_key k).1 (only x hit)) at h))
  | inr miss ↦ rw miss (none_hit p k xs only (ground arith))
]

-- An update of the one row of a key moves a count by what that row gives before and after.
count-update_where :
    (q p : Row → Bool) (f : Row → Row) (k : String) (xs : List Row) {a : Row}
    → ((r : Row) → p r ≡ true → r.job_key ≡ k)
    → UniqueKeys xs
    → find_first p xs ≡ some a
    → count_of q (update_where p f xs) + one_if (q a) ≡ count_of q xs + one_if (q (f a))
unfolding one_if
count-update_where q p f k [] only u found = cc
count-update_where q p f k (x ∷ xs) {a} only (new, u) found = elim (Bool-cases (p x)) [
  | inl hit ↦
      let same : x ≡ a = ground arith in
      let rest = none_hit p x.job_key xs (λ r h. only r h ∙ sym (only x hit)) new in
      rw (hit, update_where_none p f xs rest, ← same) (omega arith)
  | inr miss ↦
      let later : find_first p xs ≡ some a = rw miss at found in
      rw miss (omega (arith, count-update_where q p f k xs only u later))
]

claimed_runs :
    (key : String) (input : ClaimNextInput) (c : Row)
    → runs_under key (claim_row input c) ≡ str_eq c.concurrency_key key
unfolding runs_under claim_row
claimed_runs key input c = ground arith

within_of_room :
    (cap : Option ℕ) (c : Row) (db : Db)
    → has_room cap c db ≡ true
    → count_of (runs_under c.concurrency_key) db.jobs_current
      < concurrency_cap cap c.concurrency_key
unfolding has_room
within_of_room cap c db h = ltb→lt _ _ (ground arith)

global_within_of_room :
    (cap : Option ℕ) (c : Row) (db : Db) {g : String}
    → has_room cap c db ≡ true
    → global_concurrency_key c.concurrency_key ≡ some g
    → count_of (runs_as (job_type c.payload_json)) db.jobs_current < concurrency_cap cap g
unfolding has_room
global_within_of_room cap c db {g} h e = ltb→lt _ _ (ground arith)

module _ (env : ClaimEnv) (input : ClaimNextInput) (db : Db) {done : Row × Db}
    (sorts : SortsRows env) (u : UniqueKeys db.jobs_current)
    (claims : claim_next env input db ≡ some (ok (some done))) where
  count_after :
      (q : Row → Bool) (c : Row)
      → find_first (waits c.job_key) db.jobs_current ≡ some c
      → done.1.jobs_current ≡ update_where (waits c.job_key) (claim_row input) db.jobs_current
      → count_of q done.1.jobs_current + one_if (q c)
        ≡ count_of q db.jobs_current + one_if (q (claim_row input c))
  count_after q c waiting jobs = rw jobs (
      count-update_where q (waits c.job_key) (claim_row input) c.job_key db.jobs_current
        (waits_key c.job_key) u waiting)

  -- In tables with unique job keys, under a sort that returns only rows it was given, a claim that
  -- succeeds takes the number of running jobs of a concurrency key above no cap: for every key, the
  -- number after the claim is what it was or less, or it is within the key's cap.
  pub claim_next-concurrency_cap :
      (key : String)
      → (count_of (runs_under key) done.1.jobs_current ≤ count_of (runs_under key) db.jobs_current)
        ⊎ (count_of (runs_under key) done.1.jobs_current
            ≤ concurrency_cap env.thinker_global_concurrency_cap key)
  claim_next-concurrency_cap key =
      let t = claim_next-TookReady env input db sorts u claims in
      let c = t.candidate in
      let moved = count_after (runs_under key) c t.waiting t.jobs in
      let room = within_of_room env.thinker_global_concurrency_cap c db t.room in
      elim (Bool-cases (str_eq c.concurrency_key key)) [
        | inl same ↦
            let here = (eq_iff c.concurrency_key key).0 same in
            inr (
              omega (
                arith,
                moved,
                subst
                    (λ k.
                      count_of (runs_under k) db.jobs_current
                      < concurrency_cap env.thinker_global_concurrency_cap k)
                    here room,
                one_if-le (runs_under key (claim_row input c)),
              ))
        | inr other ↦ inl (omega (arith, moved, one_if-false _ (claimed_runs key input c ∙ other)))
      ]

  -- In tables with unique job keys, under a sort that returns only rows it was given, a claimed job
  -- whose key has a global key is one of no more running jobs of its type than the global cap allows.
  pub claim_next-global_cap :
      {g : String}
      → global_concurrency_key (done.0).concurrency_key ≡ some g
      → count_of (runs_as (job_type (done.0).payload_json)) done.1.jobs_current
        ≤ concurrency_cap env.thinker_global_concurrency_cap g
  unfolding claim_row
  claim_next-global_cap {g} keyed =
      let t = claim_next-TookReady env input db sorts u claims in
      let c = t.candidate in
      let same_key : (done.0).concurrency_key ≡ c.concurrency_key =
        ap (λ (r : Row). r.concurrency_key) t.row in
      let same_payload : (done.0).payload_json ≡ c.payload_json =
        ap (λ (r : Row). r.payload_json) t.row in
      let kind = job_type c.payload_json in
      let room =
        global_within_of_room env.thinker_global_concurrency_cap c db {g = g} t.room
          (rw (← same_key) keyed) in
      rw same_payload (
        omega (
          arith,
          count_after (runs_as kind) c t.waiting t.jobs,
          room,
          one_if-le (runs_as kind (claim_row input c)),
        ))
