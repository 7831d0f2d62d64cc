-- ===== src/Jobs/Claim/Scan.antt =====
-- The claim's scan in batches is the scan of all ready rows, and what a successful scan has found.
use mathlib.Core.List.{Memᴰ}
use maids_claw.Common.{
  ◌≡◌, refl, sym, ap, ◌∙◌, ℕ, zero, suc, ◌+◌, ◌<◌, Option, none, some, List, [], ◌∷◌, ◌++◌, take,
  drop, length, List-cases, drop-drop, take-append-drop, length-drop, inl, inr, arith, Result, ok,
  throw,
}
use maids_claw.Jobs.Rows.{PgJobCurrentRow, Db}
use maids_claw.Jobs.Enqueue.{StoreFault}
use maids_claw.Jobs.Claim.{
  ClaimEnv, ClaimNextInput, or_continue, or_next, try_claim, scan_batch, scan_from,
  claim_scan_batch_size, ready_rows, claim_next,
}

abbrev pub Claimed : Type 0
Claimed = Result StoreFault (Option (PgJobCurrentRow × Db))

or_continue_assoc :
    (a b c : Claimed) → or_continue a (or_continue b c) ≡ or_continue (or_continue a b) c
or_continue_assoc (throw e) b c = refl
or_continue_assoc (ok (some done)) b c = refl
or_continue_assoc (ok none) b c = refl

or_next-or_continue :
    (r : PgJobCurrentRow) (rs : List PgJobCurrentRow) (a b : Claimed)
    → or_next (r ∷ rs) a (some b) ≡ some (or_continue a b)
or_next-or_continue r rs (throw e) b = refl
or_next-or_continue r rs (ok (some done)) b = refl
or_next-or_continue r rs (ok none) b = refl

module _ (env : ClaimEnv) (input : ClaimNextInput) (db : Db) where
  scan_batch-append :
      (xs ys : List PgJobCurrentRow)
      → scan_batch env input db (xs ++ ys)
        ≡ or_continue (scan_batch env input db xs) (scan_batch env input db ys)
  unfolding scan_batch
  scan_batch-append [] ys = refl
  scan_batch-append (x ∷ xs) ys =
      ap (or_continue (try_claim env input db x)) (scan_batch-append xs ys)
      ∙ or_continue_assoc (try_claim env input db x) _ _

  -- One round on a list that is not at its end, followed by the scan of what is left.
  round_lem :
      (xs : List PgJobCurrentRow)
      → let batch = take claim_scan_batch_size xs in
        or_next batch
          (scan_batch env input db batch)
          (some (scan_batch env input db (drop (length batch) xs)))
        ≡ some (scan_batch env input db xs)
  round_lem [] = unfold scan_batch in refl
  round_lem (x ∷ xs) =
      or_next-or_continue x (take 19 xs) _ _
      ∙ ap some (sym (scan_batch-append (take claim_scan_batch_size (x ∷ xs)) _))
      ∙ ap (λ l. some (scan_batch env input db l)) (take-append-drop claim_scan_batch_size (x ∷ xs))

  scan_from_lem :
      (fuel offset : ℕ)
      → length (drop offset (ready_rows env input.now_ms db)) < fuel
      → scan_from env input db fuel offset
        ≡ some (scan_batch env input db (drop offset (ready_rows env input.now_ms db)))
  unfolding scan_from
  scan_from_lem zero offset h = elim h [ ]
  scan_from_lem (suc fuel) offset h =
      elim (List-cases (drop offset (ready_rows env input.now_ms db))) [
        | inl done ↦ rw (done, scan_from) (unfold scan_batch in refl)
        | inr (x, xs, more) ↦
            let ready = ready_rows env input.now_ms db in
            let batch = take claim_scan_batch_size (drop offset ready) in
            let some_left : 0 < length (drop offset ready) = rw more (omega arith) in
            let some_taken : 0 < length batch = rw more (omega arith) in
            let shorter : length (drop (offset + length batch) ready) < fuel =
              rw
                (
                  drop-drop offset (length batch) ready,
                  length-drop (length batch) (drop offset ready),
                )
                (omega arith) in
            ap (or_next batch (scan_batch env input db batch)) (
              scan_from_lem fuel (offset + length batch) shorter
              ∙ ap (λ l. some (scan_batch env input db l)) (drop-drop offset (length batch) ready))
            ∙ round_lem (drop offset ready)
      ]

-- The fuel of a claim is enough for its scan, which comes to all ready rows, one after the other.
pub claim_next_lem :
    (env : ClaimEnv) (input : ClaimNextInput) (db : Db)
    → claim_next env input db ≡ some (scan_batch env input db (ready_rows env input.now_ms db))
unfolding claim_next
claim_next_lem env input db =
    scan_from_lem env input db (suc (length (ready_rows env input.now_ms db))) 0 (omega arith)

module _ (env : ClaimEnv) (input : ClaimNextInput) (db : Db) where
  -- A successful scan has claimed one of its rows, by its own attempt on it.
  pub scan_batch_found :
      (rows : List PgJobCurrentRow) {done : PgJobCurrentRow × Db}
      → scan_batch env input db rows ≡ ok (some done)
      → (c : PgJobCurrentRow) × Memᴰ c rows × (try_claim env input db c ≡ ok (some done))
  unfolding scan_batch
  scan_batch_found [] h = cc
  scan_batch_found (x ∷ xs) {done} h = go (try_claim env input db x) refl h (scan_batch_found xs)
    where
      go :
          (c : Claimed)
          → try_claim env input db x ≡ c
          → or_continue c (scan_batch env input db xs) ≡ ok (some done)
          → (scan_batch env input db xs ≡ ok (some done)
              → (c : PgJobCurrentRow) × Memᴰ c xs × (try_claim env input db c ≡ ok (some done)))
          → (c : PgJobCurrentRow) × Memᴰ c (x ∷ xs) × (try_claim env input db c ≡ ok (some done))
      go (throw e) t h later = cc
      go (ok (some d)) t h later = (x, Memᴰ.head refl, t ∙ h)
      go (ok none) t h later = let (c, m, found) = later h in (c, Memᴰ.tail m, found)
