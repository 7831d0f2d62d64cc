-- ===== src/Belief/Projection.antt =====
-- src/memory/cognition/cognition-repo.ts and src/storage/domain-repos/pg/cognition-projection-repo.ts:
-- the current row of one assertion key, the guards of `upsertAssertion` and the two ways in which an
-- event changes the row. Times are milliseconds. The resolution of entity pointers, the event log,
-- the search index, the summary and the conflict columns are left out: none is read by a guard.
use maids_claw.Common.{
  ℕ, Bool, true, false, Option, none, some, List, [], ◌∷◌, Result, ok, throw, ◌>>◌, leb,
  if◌then◌else◌,
}
use maids_claw.Belief.{
  Stance, contested, rejected, Basis, ExistingAssertion, Fault, is_terminal_stance, same_stance,
  assert_legal_stance_transition, assert_basis_upgrade_only,
}

-- the columns of `private_cognition_current` that belief revision reads or writes
pub record Current : Type 0 where
  pub stance : Option Stance
  pub basis : Option Basis
  pub pre_contested_stance : Option Stance
  pub retracted : Bool
  pub updated_at : ℕ

-- the fields of an `upsertAssertion` call, with its `Date.now()`
pub record Write : Type 0 where
  pub stance : Stance
  pub basis : Option Basis
  pub pre_contested_stance : Option Stance
  pub now : ℕ

pub data RepoFault : Type 0 where
  terminal_key_reuse missing_pre_contested : RepoFault
  revision : Fault → RepoFault

-- a fault of belief-revision.ts, thrown on
unfoldable pub lift_fault : Result Fault (Unit {0}) → Result RepoFault (Unit {0})
lift_fault (ok u) = ok u
lift_fault (throw e) = throw (revision e)

-- `getExistingAssertionState`
unfoldable pub existing_of : Current → ExistingAssertion
existing_of c = record {
  stance = c.stance;
  basis = c.basis;
  pre_contested_stance = c.pre_contested_stance;
}

-- `params.stance === "contested" && !params.preContestedStance`
unfoldable pub guard_contested : Stance → Option Stance → Result RepoFault (Unit {0})
guard_contested contested none = throw missing_pre_contested
guard_contested _ _ = ok tt

-- the checks on the stance of a row that is there
unfoldable pub guard_stance :
    Option Stance → ExistingAssertion → Stance → Result RepoFault (Unit {0})
unfolding is_terminal_stance same_stance lift_fault assert_legal_stance_transition
guard_stance none existing next = ok tt
guard_stance (some current) existing next =
    if is_terminal_stance current
    then throw terminal_key_reuse
    else if same_stance next current
    then ok tt
    else lift_fault (assert_legal_stance_transition existing next)

unfoldable pub guard_existing : Option Current → Write → Result RepoFault (Unit {0})
unfolding guard_stance existing_of lift_fault assert_basis_upgrade_only
guard_existing none w = ok tt
guard_existing (some c) w = do
  guard_stance c.stance (existing_of c) w.stance
  lift_fault (assert_basis_upgrade_only c.basis w.basis)

-- `COALESCE(a, b)`
abbrev pub coalesce {ℓ} : {A : Type ℓ} → Option A → Option A → Option A
coalesce none b = b
coalesce (some a) b = some a

-- `applyAssertionUpsert`: insert, or on conflict update unless the row is newer
unfoldable pub apply_upsert : Option Current → Write → Current
apply_upsert none w = record {
  stance = some w.stance;
  basis = w.basis;
  pre_contested_stance = w.pre_contested_stance;
  retracted = false;
  updated_at = w.now;
}
apply_upsert (some c) w =
    if leb c.updated_at w.now
    then record {
      stance = some w.stance;
      basis = coalesce w.basis c.basis;
      pre_contested_stance = coalesce w.pre_contested_stance c.pre_contested_stance;
      retracted = false;
      updated_at = w.now;
    }
    else c

-- `applyRetract`, which has no guard
unfoldable pub apply_retract : Option Current → ℕ → Option Current
apply_retract none now = none
apply_retract (some c) now =
    some (record c { stance = some rejected; retracted = true; updated_at = now })

-- `upsertAssertion` with a cognition key
unfoldable pub upsert_assertion : Option Current → Write → Result RepoFault Current
unfolding guard_contested guard_existing apply_upsert
upsert_assertion c w = do
  guard_contested w.stance w.pre_contested_stance
  guard_existing c w
  ok (apply_upsert c w)

pub data Op : Type 0 where
  upsert : Write → Op
  retract : ℕ → Op

-- one call on the repository; a refused upsert leaves the row as it was
abbrev pub kept : Option Current → Result RepoFault Current → Option Current
kept c (ok c') = some c'
kept c (throw e) = c

unfoldable pub apply_op : Option Current → Op → Option Current
unfolding upsert_assertion apply_retract
apply_op c (upsert w) = kept c (upsert_assertion c w)
apply_op c (retract now) = apply_retract c now

unfoldable pub history : Option Current → List Op → Option Current
history c [] = c
history c (o ∷ os) = history (apply_op c o) os
