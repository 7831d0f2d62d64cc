-- ===== src/Jobs/Claim/Order.antt =====
-- A claim takes the first job in the claim order that may run.
use mathlib.Core.Path.{subst}
use mathlib.Core.List.{Memᴰ}
use maids_claw.Common.{
  ◌≡◌, refl, sym, ◌∙◌, ap, ℕ, Bool, true, ◌≢◌, none, some, List, [], ◌∷◌, eq_iff, find_first,
  any_of, select, arith, Option-cases, inl, inr, ok, throw, All,
}
use maids_claw.Jobs.Rows.{Db}
use maids_claw.Jobs.Rows.Updates.{Row, UniqueKeys, any_of_found}
use maids_claw.Jobs.Claim.{
  ClaimEnv, ClaimNextInput, has_room, claim_order, claim_row, waits, take_claim, try_claim,
  or_continue, scan_batch, ready_rows, claim_next, is_ready,
}
use maids_claw.Jobs.Claim.Scan.{Claimed, claim_next_lem}
use maids_claw.Jobs.Claim.Take.{take_claim-Took, try_claim_took, take_claim-ne-none}
use maids_claw.Jobs.Claim.Ready.{SortsRows, Memᴰ_of_select, found_candidate}

-- each row may stand before all that follow it
abbrev pub IsSorted : (Row → Row → Bool) → List Row → Type 0
IsSorted order [] = Unit
IsSorted order (x ∷ xs) = All (λ y. order x y ≡ true) xs × IsSorted order xs

-- the other half of what the code relies on of `ORDER BY`
abbrev pub SortsByOrder : ClaimEnv → Type 0
SortsByOrder env = (rows : List Row) → IsSorted claim_order (env.order_by claim_order rows)

All_Memᴰ : (P : Row → Type 0) (xs : List Row) {c : Row} → All P xs → Memᴰ c xs → P c
All_Memᴰ P [] h m = elim m [ ]
All_Memᴰ P (x ∷ xs) (p, h) (Memᴰ.head e) = subst P (sym e) p
All_Memᴰ P (x ∷ xs) (p, h) (Memᴰ.tail m) = All_Memᴰ P xs h m

any_of_Memᴰ :
    (p : Row → Bool) (xs : List Row) {c : Row} → Memᴰ c xs → p c ≡ true → any_of p xs ≡ true
any_of_Memᴰ p [] m h = elim m [ ]
any_of_Memᴰ p (x ∷ xs) {c} (Memᴰ.head e) h = let here : p x ≡ true = rw (← e) h in ground arith
any_of_Memᴰ p (x ∷ xs) (Memᴰ.tail m) h = let later = any_of_Memᴰ p xs m h in ground arith

claim_order_refl : (r : Row) → claim_order r r ≡ true
unfolding claim_order
claim_order_refl r = ground arith

waits_of_ready :
    (env : ClaimEnv) (now : ℕ) (x : Row) → is_ready env now x ≡ true → waits x.job_key x ≡ true
unfolding is_ready waits
waits_of_ready env now x h = ground (arith, eq_iff x.job_key x.job_key)

module _ (env : ClaimEnv) (input : ClaimNextInput) (db : Db) where
  -- Every row of a scan that would not have been passed over comes no earlier than the claimed one.
  first_in_order :
      (rows : List Row) {done : Row × Db} {x : Row}
      → scan_batch env input db rows ≡ ok (some done)
      → IsSorted claim_order rows
      → Memᴰ x rows
      → try_claim env input db x ≢ ok none
      → (c : Row) × Memᴰ c rows
        × (try_claim env input db c ≡ ok (some done))
        × (claim_order c x ≡ true)
  unfolding scan_batch
  first_in_order [] h s m n = cc
  first_in_order (r ∷ rs) {done} {x} h (before, s) m n =
      go (try_claim env input db r) refl h m (λ l k. first_in_order rs l s k n)
    where
      go :
          (c : Claimed)
          → try_claim env input db r ≡ c
          → or_continue c (scan_batch env input db rs) ≡ ok (some done)
          → Memᴰ x (r ∷ rs)
          → (scan_batch env input db rs ≡ ok (some done)
              → Memᴰ x rs
              → (c : Row) × Memᴰ c rs
                × (try_claim env input db c ≡ ok (some done))
                × (claim_order c x ≡ true))
          → (c : Row) × Memᴰ c (r ∷ rs)
            × (try_claim env input db c ≡ ok (some done))
            × (claim_order c x ≡ true)
      go (throw e) t l k later = cc
      go (ok (some d)) t l (Memᴰ.head e) later = (
        r,
        Memᴰ.head refl,
        t ∙ l,
        subst (λ y. claim_order r y ≡ true) (sym e) (claim_order_refl r),
      )
      go (ok (some d)) t l (Memᴰ.tail k) later =
          (r, Memᴰ.head refl, t ∙ l, All_Memᴰ (λ y. claim_order r y ≡ true) rs before k)
      go (ok none) t l (Memᴰ.head e) later =
          absurd (n (subst (λ y. try_claim env input db y ≡ ok none) (sym e) t))
      go (ok none) t l (Memᴰ.tail k) later =
          let (c, listed, found, order) = later l k in (c, Memᴰ.tail listed, found, order)

  claims_of_try :
      (x : Row)
      → env.lock x.concurrency_key ≡ true
      → has_room env.thinker_global_concurrency_cap x db ≡ true
      → try_claim env input db x ≡ take_claim input x db
  unfolding try_claim
  claims_of_try x lock room = rw (lock, try_claim) (rw room)

  -- A listed row with its lock and with room is not passed over.
  not_passed :
      (x : Row)
      → SortsRows env
      → Memᴰ x (ready_rows env input.now_ms db)
      → env.lock x.concurrency_key ≡ true
      → has_room env.thinker_global_concurrency_cap x db ≡ true
      → try_claim env input db x ≢ ok none
  unfolding ready_rows
  not_passed x sorts listed lock room = λ passed.
      let ready = select (is_ready env input.now_ms) db.jobs_current in
      let (stored, is_in) =
        Memᴰ_of_select (is_ready env input.now_ms) db.jobs_current
          (sorts claim_order ready x listed) in
      let waiting =
        any_of_Memᴰ (waits x.job_key) db.jobs_current stored
          (waits_of_ready env input.now_ms x is_in) in
      elim (Option-cases (find_first (waits x.job_key) db.jobs_current)) [
        | inl missing ↦ cc (any_of_found (waits x.job_key) db.jobs_current missing, waiting)
        | inr (r, found) ↦
            take_claim-ne-none input x db found (sym (claims_of_try x lock room) ∙ passed)
      ]

claim_row-claim_order :
    (input : ClaimNextInput) (c x : Row)
    → claim_order c x ≡ true
    → claim_order (claim_row input c) x ≡ true
unfolding claim_row claim_order
claim_row-claim_order input c x h = h

-- In tables with unique job keys, under a sort that returns only rows it was given and puts them in
-- the claim order, the claimed job comes no later in that order, by execution class and then by due
-- time, than any ready row whose advisory lock is free and whose caps leave room.
pub claim_next-claim_order :
    (env : ClaimEnv) (input : ClaimNextInput) (db : Db) {done : Row × Db} (x : Row)
    → SortsRows env
    → SortsByOrder env
    → UniqueKeys db.jobs_current
    → claim_next env input db ≡ some (ok (some done))
    → Memᴰ x (ready_rows env input.now_ms db)
    → env.lock x.concurrency_key ≡ true
    → has_room env.thinker_global_concurrency_cap x db ≡ true
    → claim_order done.0 x ≡ true
claim_next-claim_order env input db {done} x sorts sorted u claims listed lock room =
    let rows = ready_rows env input.now_ms db in
    let scanned : scan_batch env input db rows ≡ ok (some done) =
      cc (claim_next_lem env input db) in
    let in_order : IsSorted claim_order rows = unfold ready_rows in sorted _ in
    let (c, there, tried, ordered) =
      first_in_order env input db rows scanned in_order listed
        (not_passed env input db x sorts listed lock room) in
    let took = take_claim-Took input c db (try_claim_took env input db c tried).2 in
    let row : done.0 ≡ claim_row input c =
      took.row ∙ ap (claim_row input) (found_candidate env input db c sorts u there took) in
    rw row (claim_row-claim_order input c x ordered)
