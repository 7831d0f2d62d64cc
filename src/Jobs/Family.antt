-- ===== src/Jobs/Family.antt =====
-- src/jobs/pg-store.ts: the state that the requests of one search-rebuild family share.
pub mod Counting
use maids_claw.Common.{
  ℕ, String, Bool, true, false, not, ◌&&◌, Option, none, some, List, [], ◌∷◌, ◌+◌, max, str_eq, ltb,
  if◌then◌else◌, or_else, starts_with,
}
use maids_claw.Jobs.Rows.{FamilyState, DurableSearchRebuildPayload}

abbrev pub Counts : Type 0
Counts = List (String × ℕ)

-- `counts[key] ?? 0`
unfoldable pub count_at : String → Counts → ℕ
count_at key [] = 0
count_at key ((k, n) ∷ counts) = if str_eq k key then n else count_at key counts

-- `counts[key] = (counts[key] ?? 0) + 1`
unfoldable pub bump : String → Counts → Counts
bump key [] = (key, 1) ∷ []
bump key ((k, n) ∷ counts) = if str_eq k key then (k, n + 1) ∷ counts else (k, n) ∷ bump key counts

-- of the values that this module writes: `{}` or a whole state
unfoldable pub normalize_family_state : Option FamilyState → FamilyState
normalize_family_state none = record {
  rerun_requested = false;
  coalesced_request_count = 0;
  latest_requested_at = none;
  trigger_source_counts = [];
  trigger_reason_counts = [];
}
normalize_family_state (some s) = s

-- `rerunRequested` after a request joined a family that `running` tells of
unfoldable pub rerun_after : Bool → Bool → ℕ → Bool
rerun_after running requested covered =
    if running && not requested then (if ltb 0 covered then requested else true) else requested

unfoldable pub coalesced_family_state :
    Option FamilyState → DurableSearchRebuildPayload → (running : Bool) → (now : ℕ) → FamilyState
unfolding normalize_family_state rerun_after count_at bump
coalesced_family_state existing payload running now =
    let current = normalize_family_state existing in
    let incoming = or_else payload.requested_at now in
    record {
      rerun_requested =
          rerun_after running current.rerun_requested
            (count_at payload.trigger_reason current.trigger_reason_counts);
      coalesced_request_count = current.coalesced_request_count + 1;
      latest_requested_at = some (max (or_else current.latest_requested_at incoming) incoming);
      trigger_source_counts = bump payload.trigger_source current.trigger_source_counts;
      trigger_reason_counts = bump payload.trigger_reason current.trigger_reason_counts;
    }

unfoldable pub initial_family_state : DurableSearchRebuildPayload → FamilyState
initial_family_state payload = record {
  rerun_requested = false;
  coalesced_request_count = 0;
  latest_requested_at = none;
  trigger_source_counts = (payload.trigger_source, 1) ∷ [];
  trigger_reason_counts = (payload.trigger_reason, 1) ∷ [];
}

unfoldable pub successor_family_state : Option FamilyState → FamilyState
unfolding normalize_family_state
successor_family_state value =
    let current = normalize_family_state value in
    record {
      rerun_requested = false;
      coalesced_request_count = 0;
      latest_requested_at = current.latest_requested_at;
      trigger_source_counts = current.trigger_source_counts;
      trigger_reason_counts = current.trigger_reason_counts;
    }
