-- ===== src/Jobs/Lifecycle/Steps.antt =====
-- When an update of the jobs table takes the row of every key by steps of the machine of one job and
-- keeps job keys unique.
use mathlib.Core.Path.{subst}
use maids_claw.Common.{
  ◌≡◌, refl, sym, ◌∙◌, ℕ, Bool, true, Option, none, some, List, String, eq_iff, find_first,
  Bool-cases, inl, inr, arith,
}
use maids_claw.Jobs.Rows.{is_running, update_where, has_key}
use maids_claw.Jobs.Rows.Updates.{
  Row, KeepsKey, after, row_of-update_where, UniqueKeys, UniqueKeys-update_where, row_of_found,
  found_passes,
}
use maids_claw.Jobs.Fence.{holds_claim}
use maids_claw.Jobs.Machine.{RowStep, RowSteps, stay, go, RowSteps-trans}

abbrev pub Jobs : Type 0
Jobs = List Row

-- the row of every key goes by steps
abbrev pub Advances : Jobs → Jobs → Type 0
Advances xs ys = (k : String) → RowSteps (find_first (has_key k) xs) (find_first (has_key k) ys)

-- and keys stay unique
pub record IsStep (xs ys : Jobs) : Type 0 where
  pub advances : Advances xs ys
  pub unique : UniqueKeys ys

pub IsStep-refl : {xs : Jobs} → UniqueKeys xs → IsStep xs xs
IsStep-refl u = record { advances = λ k. stay; unique = u }

pub IsStep-trans : {xs ys zs : Jobs} → IsStep xs ys → IsStep ys zs → IsStep xs zs
IsStep-trans p q = record {
  advances = λ k. RowSteps-trans (p.advances k) (q.advances k);
  unique = q.unique;
}

after_steps :
    (o : Option Row) (p : Row → Bool) (f : Row → Row)
    → ((r : Row) → o ≡ some r → p r ≡ true → RowStep (some r) (some (f r)))
    → RowSteps o (after p f o)
after_steps none p f h = stay
after_steps (some r) p f h = elim (Bool-cases (p r)) [
  | inl hit ↦ rw hit (go (h r refl hit) stay)
  | inr miss ↦ rw miss stay
]

-- An update that keeps keys is a step if it is one on each row that it changes.
pub update_IsStep :
    (p : Row → Bool) (f : Row → Row) (xs : Jobs)
    → UniqueKeys xs
    → KeepsKey f
    → ((k : String) (r : Row)
        → find_first (has_key k) xs ≡ some r
        → p r ≡ true
        → RowStep (some r) (some (f r)))
    → IsStep xs (update_where p f xs)
update_IsStep p f xs u keeps h = record {
  advances = λ k. rw (row_of-update_where k p f xs keeps) (after_steps _ p f (h k));
  unique = UniqueKeys-update_where p f xs keeps u;
}

pub running_of_holds :
    (k : String) (v : ℕ) (r : Row) → holds_claim k v r ≡ true → is_running r.status ≡ true
unfolding holds_claim
running_of_holds k v r h = ground arith

pub key_of_holds : (k : String) (v : ℕ) (r : Row) → holds_claim k v r ≡ true → r.job_key ≡ k
unfolding holds_claim
key_of_holds k v r h = (eq_iff r.job_key k).0 (ground arith)

-- The row that an operation has looked up is the one row that it changes.
pub held_unique :
    (k j : String) (v : ℕ) (xs : Jobs) {r s : Row}
    → UniqueKeys xs
    → find_first (holds_claim k v) xs ≡ some r
    → find_first (has_key j) xs ≡ some s
    → holds_claim k v s ≡ true
    → s ≡ r
held_unique k j v xs {r} {s} u held named holds =
    let r_key = key_of_holds k v r (found_passes (holds_claim k v) xs held) in
    let s_key = key_of_holds k v s holds in
    let j_key = (eq_iff s.job_key j).0 (found_passes (has_key j) xs named) in
    let r_row : find_first (has_key k) xs ≡ some r =
      subst (λ b. find_first (has_key b) xs ≡ some r) r_key
        (row_of_found (holds_claim k v) xs u held) in
    let s_row : find_first (has_key k) xs ≡ some s =
      subst (λ b. find_first (has_key b) xs ≡ some s) (sym j_key ∙ s_key) named in
    cc
