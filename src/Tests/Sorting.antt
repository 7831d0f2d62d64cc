-- ===== src/Tests/Sorting.antt =====
-- A database that sorts by insertion meets what the claim relies on.
use mathlib.Core.List.{Memᴰ}
use maids_claw.Common.{
  ◌≡◌, Bool, true, false, none, List, [], ◌∷◌, if◌then◌else◌, Bool-cases, inl, inr, arith, All,
}
use maids_claw.Jobs.Rows.Updates.{Row}
use maids_claw.Jobs.Claim.{ClaimEnv, claim_order}
use maids_claw.Jobs.Claim.Ready.{SortsRows}
use maids_claw.Jobs.Claim.Order.{IsSorted, SortsByOrder}

abbrev pub put : (Row → Row → Bool) → Row → List Row → List Row
put order r [] = r ∷ []
put order r (x ∷ xs) = if order r x then r ∷ x ∷ xs else x ∷ put order r xs

abbrev pub sort : (Row → Row → Bool) → List Row → List Row
sort order [] = []
sort order (x ∷ xs) = put order x (sort order xs)

-- no row is locked by another transaction, and every advisory lock is free
abbrev pub calm : ClaimEnv
calm = record {
  order_by = sort;
  locked = λ r. false;
  lock = λ k. true;
  thinker_global_concurrency_cap = none;
}

put_members :
    (order : Row → Row → Bool) (r : Row) (xs : List Row) {c : Row}
    → Memᴰ c (put order r xs)
    → Memᴰ c (r ∷ xs)
put_members order r [] m = m
put_members order r (x ∷ xs) {c} m = elim (Bool-cases (order r x)) [
  | inl first ↦ rw first at m
  | inr later ↦ go (rw later at m) (λ n. put_members order r xs n)
]
  where
    go :
        Memᴰ c (x ∷ put order r xs)
        → (Memᴰ c (put order r xs) → Memᴰ c (r ∷ xs))
        → Memᴰ c (r ∷ x ∷ xs)
    go (Memᴰ.head e) ih = Memᴰ.tail (Memᴰ.head e)
    go (Memᴰ.tail n) ih = second (ih n)
      where
        second : Memᴰ c (r ∷ xs) → Memᴰ c (r ∷ x ∷ xs)
        second (Memᴰ.head e) = Memᴰ.head e
        second (Memᴰ.tail k) = Memᴰ.tail (Memᴰ.tail k)

sort_members :
    (order : Row → Row → Bool) (xs : List Row) {c : Row} → Memᴰ c (sort order xs) → Memᴰ c xs
sort_members order [] m = m
sort_members order (x ∷ xs) {c} m =
    go (put_members order x (sort order xs) m) (λ n. sort_members order xs n)
  where
    go : Memᴰ c (x ∷ sort order xs) → (Memᴰ c (sort order xs) → Memᴰ c xs) → Memᴰ c (x ∷ xs)
    go (Memᴰ.head e) ih = Memᴰ.head e
    go (Memᴰ.tail n) ih = Memᴰ.tail (ih n)

pub calm-SortsRows : SortsRows calm
calm-SortsRows order rows c m = sort_members order rows m

order_trans :
    (a b c : Row) → claim_order a b ≡ true → claim_order b c ≡ true → claim_order a c ≡ true
unfolding claim_order
order_trans a b c p q = ground arith

order_total : (a b : Row) → claim_order a b ≡ false → claim_order b a ≡ true
unfolding claim_order
order_total a b p = ground arith

All-after :
    (a b : Row) (xs : List Row)
    → claim_order a b ≡ true
    → All (λ y. claim_order b y ≡ true) xs
    → All (λ y. claim_order a y ≡ true) xs
All-after a b [] p h = tt
All-after a b (x ∷ xs) p (q, h) = (order_trans a b x p q, All-after a b xs p h)

put_after :
    (a r : Row) (xs : List Row)
    → claim_order a r ≡ true
    → All (λ y. claim_order a y ≡ true) xs
    → All (λ y. claim_order a y ≡ true) (put claim_order r xs)
put_after a r [] p h = (p, tt)
put_after a r (x ∷ xs) p (q, h) = elim (Bool-cases (claim_order r x)) [
  | inl first ↦ rw first (p, (q, h))
  | inr later ↦ rw later (q, put_after a r xs p h)
]

put-IsSorted :
    (r : Row) (xs : List Row)
    → IsSorted claim_order xs
    → IsSorted claim_order (put claim_order r xs)
put-IsSorted r [] s = (tt, tt)
put-IsSorted r (x ∷ xs) (before, s) = elim (Bool-cases (claim_order r x)) [
  | inl first ↦ rw first ((first, All-after r x xs first before), (before, s))
  | inr later ↦ rw later (put_after x r xs (order_total r x later) before, put-IsSorted r xs s)
]

sort-IsSorted : (xs : List Row) → IsSorted claim_order (sort claim_order xs)
sort-IsSorted [] = tt
sort-IsSorted (x ∷ xs) = put-IsSorted x (sort claim_order xs) (sort-IsSorted xs)

pub calm-SortsByOrder : SortsByOrder calm
calm-SortsByOrder rows = sort-IsSorted rows
