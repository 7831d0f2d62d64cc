-- ===== src/Jobs/Claim/Ready.antt =====
-- Which row a successful claim has taken.
use mathlib.Core.Path.{subst}
use mathlib.Core.List.{Memᴰ}
use maids_claw.Common.{
  ◌≡◌, refl, sym, ◌∙◌, ap, Bool, true, Option, some, List, [], ◌∷◌, String, eq_iff, find_first,
  select, arith, Bool-cases, inl, inr, ok,
}
use maids_claw.Jobs.Rows.{Db, update_where, has_key}
use maids_claw.Jobs.Rows.Updates.{Row, UniqueKeys, row_of_found, found_passes, found_has_key}
use maids_claw.Jobs.Claim.{
  ClaimEnv, ClaimNextInput, has_room, claim_row, waits, scan_batch, ready_rows, claim_next,
  is_ready, claim_order,
}
use maids_claw.Jobs.Claim.Scan.{claim_next_lem, scan_batch_found}
use maids_claw.Jobs.Claim.Take.{Took, take_claim-Took, try_claim_took}

pub row_of_Memᴰ :
    (xs : List Row) {c : Row}
    → UniqueKeys xs
    → Memᴰ c xs
    → find_first (has_key c.job_key) xs ≡ some c
row_of_Memᴰ [] u m = elim m [ ]
row_of_Memᴰ (x ∷ xs) {c} u (Memᴰ.head e) =
    subst (λ b. find_first (has_key b.job_key) (x ∷ xs) ≡ some b) (sym e)
      (rw ((eq_iff x.job_key x.job_key).1 refl))
row_of_Memᴰ (x ∷ xs) {c} (new, u) (Memᴰ.tail m) =
    let later = row_of_Memᴰ xs u m in
    let differs = found_has_key (has_key c.job_key) xs x.job_key new later in
    ground (arith, eq_iff x.job_key c.job_key, eq_iff c.job_key x.job_key)

some-injective_of : {o : Option Row} {a b : Row} → o ≡ some a → o ≡ some b → a ≡ b
some-injective_of p q = cc

-- what the code relies on of the database's `ORDER BY`: it returns rows that it was given
abbrev pub SortsRows : ClaimEnv → Type 0
SortsRows env =
    (order : Row → Row → Bool) (rows : List Row) (c : Row)
    → Memᴰ c (env.order_by order rows)
    → Memᴰ c rows

pub Memᴰ_of_select :
    (p : Row → Bool) (xs : List Row) {c : Row} → Memᴰ c (select p xs) → Memᴰ c xs × (p c ≡ true)
Memᴰ_of_select p [] m = elim m [ ]
Memᴰ_of_select p (x ∷ xs) {c} m = elim (Bool-cases (p x)) [
  | inl hit ↦ kept hit (rw hit at m) (λ n. Memᴰ_of_select p xs n)
  | inr miss ↦ let (later, good) = Memᴰ_of_select p xs (rw miss at m) in (Memᴰ.tail later, good)
]
  where
    kept :
        p x ≡ true
        → Memᴰ c (x ∷ select p xs)
        → (Memᴰ c (select p xs) → Memᴰ c xs × (p c ≡ true))
        → Memᴰ c (x ∷ xs) × (p c ≡ true)
    kept hit (Memᴰ.head e) rest = (Memᴰ.head e, rw e hit)
    kept hit (Memᴰ.tail n) rest = let (later, good) = rest n in (Memᴰ.tail later, good)

pub waits_key : (k : String) (r : Row) → waits k r ≡ true → r.job_key ≡ k
unfolding waits
waits_key k r h = (eq_iff r.job_key k).0 (ground arith)

-- The row that a listed candidate's claim has found is the candidate.
pub found_candidate :
    (env : ClaimEnv) (input : ClaimNextInput) (db : Db) (c : Row) {done : Row × Db}
    → SortsRows env
    → UniqueKeys db.jobs_current
    → Memᴰ c (ready_rows env input.now_ms db)
    → (t : Took input c db done) → t.found ≡ c
unfolding ready_rows
found_candidate env input db c sorts u listed t =
    let ready = select (is_ready env input.now_ms) db.jobs_current in
    let (stored, is_in) =
      Memᴰ_of_select (is_ready env input.now_ms) db.jobs_current
        (sorts claim_order ready c listed) in
    let named : find_first (has_key c.job_key) db.jobs_current ≡ some (t.found) =
      subst (λ b. find_first (has_key b) db.jobs_current ≡ some (t.found))
        (waits_key c.job_key (t.found) (found_passes (waits c.job_key) db.jobs_current t.waiting))
        (row_of_found (waits c.job_key) db.jobs_current u t.waiting) in
    some-injective_of named (row_of_Memᴰ db.jobs_current u stored)

pub record TookReady (env : ClaimEnv) (input : ClaimNextInput) (db : Db) (done : Row × Db)
    : Type 0 where
  pub candidate : Row
  pub listed : Memᴰ candidate (ready_rows env input.now_ms db)
  pub lock_free : env.lock candidate.concurrency_key ≡ true
  pub room : has_room env.thinker_global_concurrency_cap candidate db ≡ true
  pub waiting : find_first (waits candidate.job_key) db.jobs_current ≡ some candidate
  pub row : done.0 ≡ claim_row input candidate
  pub jobs :
      done.1.jobs_current ≡ update_where (waits candidate.job_key) (claim_row input) db.jobs_current

-- What a claim has claimed: a ready row of the table that was unlocked and had room.
pub claim_next-TookReady :
    (env : ClaimEnv) (input : ClaimNextInput) (db : Db) {done : Row × Db}
    → SortsRows env
    → UniqueKeys db.jobs_current
    → claim_next env input db ≡ some (ok (some done))
    → TookReady env input db done
claim_next-TookReady env input db {done} sorts u h =
    let scanned : scan_batch env input db (ready_rows env input.now_ms db) ≡ ok (some done) =
      cc (claim_next_lem env input db) in
    let (c, listed, tried) = scan_batch_found env input db _ scanned in
    let (lock, room, taken) = try_claim_took env input db c tried in
    let took = take_claim-Took input c db taken in
    let same = found_candidate env input db c sorts u listed took in
    record {
      candidate = c;
      listed = listed;
      lock_free = lock;
      room = room;
      waiting =
          subst (λ b. find_first (waits c.job_key) db.jobs_current ≡ some b) same took.waiting;
      row = took.row ∙ ap (claim_row input) same;
      jobs = took.jobs;
    }
