-- ===== src/Jobs/Machine.antt =====
-- The life of one job as a state machine: what the tables' operations may do to the row of a key. This
-- is the specification of the store; the program has no such type.
use maids_claw.Common.{◌≡◌, ℕ, ◌<◌, ◌≤◌, true, Option, none, some, is_some, arith}
use maids_claw.Jobs.Rows.{
  PgJobStatus, is_pending, is_running, is_active, is_terminal_status, FamilyState,
}
use maids_claw.Jobs.Rows.Updates.{Row}
use maids_claw.Jobs.Claim.{ClaimNextInput, claim_row}
use maids_claw.Jobs.Fence.{renew_row, end_row, PgJobFailInput, with_error, retry_row}
use maids_claw.Jobs.Sweep.{reclaim_row}

-- a row as it is inserted
pub record IsFresh (r : Row) : Type 0 where
  pub waiting : r.status ≡ PgJobStatus.pending
  pub unclaimed : r.claim_version ≡ 0
  pub untried : r.attempt_count ≡ 0
  pub no_owner : r.claimed_by ≡ none
  pub no_lease : r.lease_expires_at ≡ none
  pub no_end : r.terminal_at ≡ none

pub data RowStep : Option Row → Option Row → Type 0 where
  insert : {r : Row} → IsFresh r → RowStep none (some r)
  join :
      {r : Row} (s : FamilyState) (now : ℕ)
      → is_active r.status ≡ true
      → RowStep (some r) (some (record r { family_state_json = some s; updated_at = now }))
  claim :
      {r : Row} (input : ClaimNextInput)
      → is_pending r.status ≡ true
      → RowStep (some r) (some (claim_row input r))
  renew :
      {r : Row} (now : ℕ) → is_running r.status ≡ true → RowStep (some r) (some (renew_row now r))
  succeed :
      {r : Row} (now : ℕ)
      → is_running r.status ≡ true
      → RowStep (some r) (some (end_row PgJobStatus.succeeded now r))
  cancel :
      {r : Row} (now : ℕ)
      → is_running r.status ≡ true
      → RowStep (some r) (some (end_row PgJobStatus.cancelled now r))
  retry :
      {r : Row} (e : PgJobFailInput) (at : ℕ)
      → is_running r.status ≡ true
      → r.attempt_count < r.max_attempts
      → RowStep (some r) (some (retry_row e at r))
  give_up :
      {r : Row} (e : PgJobFailInput)
      → is_running r.status ≡ true
      → r.max_attempts ≤ r.attempt_count
      → RowStep (some r) (some (with_error e (end_row PgJobStatus.failed_terminal e.now_ms r)))
  reclaim :
      {r : Row} (now : ℕ) → is_running r.status ≡ true → RowStep (some r) (some (reclaim_row now r))

pub data RowSteps : Option Row → Option Row → Type 0 where
  stay : {o : Option Row} → RowSteps o o
  go : {o p q : Option Row} → RowStep o p → RowSteps p q → RowSteps o q

pub RowSteps-trans : {o p q : Option Row} → RowSteps o p → RowSteps p q → RowSteps o q
RowSteps-trans stay s = s
RowSteps-trans (go t ts) s = go t (RowSteps-trans ts s)

-- What the columns of a row say of one another.
pub record IsCoherent (r : Row) : Type 0 where
  pub owned : is_some r.claimed_by ≡ is_running r.status
  pub leased : is_some r.lease_expires_at ≡ is_running r.status
  pub ended : is_some r.terminal_at ≡ is_terminal_status r.status
  pub counted : r.claim_version ≡ r.attempt_count

abbrev pub IsSound : Option Row → Type 0
IsSound none = Unit
IsSound (some r) = IsCoherent r

RowStep-IsSound : {o p : Option Row} → RowStep o p → IsSound o → IsSound p
unfolding is_pending is_running is_active is_terminal_status claim_row renew_row end_row with_error
    retry_row reclaim_row
RowStep-IsSound (insert f) s = ground arith
RowStep-IsSound (join f now a) s = record {
  owned = s.owned;
  leased = s.leased;
  ended = s.ended;
  counted = s.counted;
}
RowStep-IsSound (claim input w) s = ground arith
RowStep-IsSound (renew now w) s = ground arith
RowStep-IsSound (succeed now w) s = ground arith
RowStep-IsSound (cancel now w) s = ground arith
RowStep-IsSound (retry e at w l) s = ground arith
RowStep-IsSound (give_up e w l) s = ground arith
RowStep-IsSound (reclaim now w) s = ground arith

pub RowSteps-IsSound : {o p : Option Row} → RowSteps o p → IsSound o → IsSound p
RowSteps-IsSound stay s = s
RowSteps-IsSound (go t ts) s = RowSteps-IsSound ts (RowStep-IsSound t s)

RowStep_terminal :
    {r : Row} {o p : Option Row} → RowStep o p → o ≡ some r → is_terminal_status r.status ≡ true → ⊥
unfolding is_pending is_running is_active is_terminal_status
RowStep_terminal (insert f) e t = cc
RowStep_terminal (join f now a) e t = ground arith
RowStep_terminal (claim input w) e t = ground arith
RowStep_terminal (renew now w) e t = ground arith
RowStep_terminal (succeed now w) e t = ground arith
RowStep_terminal (cancel now w) e t = ground arith
RowStep_terminal (retry e at w l) h t = ground arith
RowStep_terminal (give_up e w l) h t = ground arith
RowStep_terminal (reclaim now w) e t = ground arith

-- No step leaves an ended row.
pub RowSteps-terminal :
    {r : Row} {o p : Option Row}
    → RowSteps o p
    → o ≡ some r
    → is_terminal_status r.status ≡ true
    → p ≡ some r
RowSteps-terminal stay e t = e
RowSteps-terminal (go s ss) e t = absurd (RowStep_terminal s e t)

-- the claim version of the row, as a lower bound
abbrev pub ClaimedSince : ℕ → Option Row → Type 0
ClaimedSince v none = ⊥
ClaimedSince v (some r) = v ≤ r.claim_version

RowStep-ClaimedSince :
    (v : ℕ) {o p : Option Row} → RowStep o p → ClaimedSince v o → ClaimedSince v p
unfolding claim_row renew_row end_row with_error retry_row reclaim_row
RowStep-ClaimedSince v (insert f) h = elim h [ ]
RowStep-ClaimedSince v (join f now a) h = h
RowStep-ClaimedSince v (claim input w) h = omega arith
RowStep-ClaimedSince v (renew now w) h = h
RowStep-ClaimedSince v (succeed now w) h = h
RowStep-ClaimedSince v (cancel now w) h = h
RowStep-ClaimedSince v (retry e at w l) h = h
RowStep-ClaimedSince v (give_up e w l) h = h
RowStep-ClaimedSince v (reclaim now w) h = h

pub RowSteps-ClaimedSince :
    (v : ℕ) {o p : Option Row} → RowSteps o p → ClaimedSince v o → ClaimedSince v p
RowSteps-ClaimedSince v stay h = h
RowSteps-ClaimedSince v (go t ts) h = RowSteps-ClaimedSince v ts (RowStep-ClaimedSince v t h)
