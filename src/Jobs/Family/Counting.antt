-- ===== src/Jobs/Family/Counting.antt =====
-- The counters of a search-rebuild family, and when its run is followed by another.
use maids_claw.Common.{
  ◌≡◌, refl, ℕ, ◌+◌, ◌≤◌, String, str_eq, eq_iff, Bool, true, some, List, [], ◌∷◌, if◌then◌else◌,
  ◌↔◌, ◌⊎◌, inl, inr, arith, Bool-cases,
}
use maids_claw.Jobs.Rows.{FamilyState, DurableSearchRebuildPayload}
use maids_claw.Jobs.Family.{
  Counts, count_at, bump, rerun_after, coalesced_family_state, initial_family_state,
  successor_family_state,
}

-- One more request under a key, and no other count moves.
count_at-bump :
    (key other : String) (counts : Counts)
    → count_at other (bump key counts)
      ≡ (if str_eq key other then count_at key counts + 1 else count_at other counts)
unfolding count_at bump
count_at-bump key other [] = ground (arith, eq_iff key other)
count_at-bump key other ((k, n) ∷ counts) =
    ground (arith, eq_iff key other, eq_iff k key, eq_iff k other, count_at-bump key other counts)

abbrev pub total : Counts → ℕ
total [] = 0
total ((k, n) ∷ counts) = n + total counts

total-bump : (key : String) (counts : Counts) → total (bump key counts) ≡ total counts + 1
unfolding bump
total-bump key [] = refl
total-bump key ((k, n) ∷ counts) = elim (Bool-cases (str_eq k key)) [
  | inl hit ↦ rw hit (omega arith)
  | inr miss ↦ rw miss (omega (arith, total-bump key counts))
]

-- Every request is counted once by its source and once by its reason, and the requests that were
-- coalesced are all among them, beside the one that made the row.
pub record IsBalanced (s : FamilyState) : Type 0 where
  pub equal : total s.trigger_source_counts ≡ total s.trigger_reason_counts
  pub covered : s.coalesced_request_count + 1 ≤ total s.trigger_reason_counts

pub initial-IsBalanced : (p : DurableSearchRebuildPayload) → IsBalanced (initial_family_state p)
unfolding initial_family_state
initial-IsBalanced p = record { equal = refl; covered = omega arith }

pub coalesced-IsBalanced :
    (s : FamilyState) (p : DurableSearchRebuildPayload) (running : Bool) (now : ℕ)
    → IsBalanced s
    → IsBalanced (coalesced_family_state (some s) p running now)
unfolding coalesced_family_state
coalesced-IsBalanced s p running now b = record {
  equal = omega (
    arith,
    b.equal,
    total-bump p.trigger_source s.trigger_source_counts,
    total-bump p.trigger_reason s.trigger_reason_counts,
  );
  covered = omega (arith, b.covered, total-bump p.trigger_reason s.trigger_reason_counts);
}

pub successor-IsBalanced :
    (s : FamilyState) → IsBalanced s → IsBalanced (successor_family_state (some s))
unfolding successor_family_state
successor-IsBalanced s b = record { equal = b.equal; covered = omega (arith, b.covered) }

-- the requests that a row has taken in, one after the other: the request, whether the row was running,
-- and the time
abbrev pub Requests : Type 0
Requests = List (DurableSearchRebuildPayload × Bool × ℕ)

pub joined : FamilyState → Requests → FamilyState
unfolding coalesced_family_state
joined s [] = s
joined s ((p, running, now) ∷ rs) = joined (coalesced_family_state (some s) p running now) rs

joined-IsBalanced_from : (s : FamilyState) (rs : Requests) → IsBalanced s → IsBalanced (joined s rs)
unfolding joined
joined-IsBalanced_from s [] b = b
joined-IsBalanced_from s ((p, running, now) ∷ rs) b =
    joined-IsBalanced_from (coalesced_family_state (some s) p running now) rs
      (coalesced-IsBalanced s p running now b)

count_reason_joined :
    (reason : String) (s : FamilyState) (p : DurableSearchRebuildPayload) (running : Bool) (now : ℕ)
    → count_at reason s.trigger_reason_counts
      ≤ count_at reason (coalesced_family_state (some s) p running now).trigger_reason_counts
unfolding coalesced_family_state
count_reason_joined reason s p running now = ground (
  arith,
  count_at-bump p.trigger_reason reason s.trigger_reason_counts,
  eq_iff p.trigger_reason reason,
)

-- A request that joins a family leaves a rerun due exactly if one was due already, or the row is
-- running and has counted no request with the same reason.
pub coalesced_rerun_iff :
    (s : FamilyState) (p : DurableSearchRebuildPayload) (running : Bool) (now : ℕ)
    → ((coalesced_family_state (some s) p running now).rerun_requested ≡ true) ↔ (
        (s.rerun_requested ≡ true)
        ⊎ ((running ≡ true) × (count_at p.trigger_reason s.trigger_reason_counts ≡ 0)))
unfolding coalesced_family_state rerun_after
coalesced_rerun_iff s p running now = ground arith

-- However many requests join a rebuild, in whatever states of its row: its counts by source and by
-- reason have the same total, which covers the first request and every coalesced one; and so it is for
-- the successor that the completed row hands its state to.
pub joined-IsBalanced :
    (p : DurableSearchRebuildPayload) (rs : Requests)
    → IsBalanced (joined (initial_family_state p) rs)
      × IsBalanced (successor_family_state (some (joined (initial_family_state p) rs)))
joined-IsBalanced p rs =
    let b = joined-IsBalanced_from _ rs (initial-IsBalanced p) in (b, successor-IsBalanced _ b)
