-- ===== src/Sessions/Listing.antt =====
-- Listing the sessions, from memory and from the table: `listSessions` of src/session/service.ts and of
-- src/storage/domain-repos/pg/session-repo.ts.
use maids_claw.Common.{
  sort_by, suc, Bool, true, not, ◌==◌, List, Option, none, some, String, str_eq, ltb, if◌then◌else◌,
  Result, ◌>>=◌, map, select, take, ◌&&◌, ◌||◌, is_some,
}
use maids_claw.Common.Maps.{has}
use maids_claw.Sessions.{
  SessionRecord, SessionListItem, SessionListParams, SessionListResult, SessionListStatus,
  CursorBoundary, SessionFault, Host, derive_status, same_status, clamp_list_limit,
  decode_cursor_boundary, is_before_cursor, build_paged_result, status_open, status_closed,
  status_recovery_required,
}
use maids_claw.Sessions.Memory.{Service}
use maids_claw.Sessions.Table.{SessionRow}

-- the comparison of `sort`, which puts the newest first; `collates a b` where `a.localeCompare(b)` is
-- negative
unfoldable pub comes_first : (String → String → Bool) → SessionListItem → SessionListItem → Bool
comes_first collates a b =
    if a.created_at == b.created_at
    then not (collates a.session_id b.session_id)
    else ltb b.created_at a.created_at

unfoldable pub item_of_record : List String → SessionRecord → SessionListItem
unfolding derive_status
item_of_record recovery_required r = record {
  session_id = r.session_id;
  agent_id = r.agent_id;
  created_at = r.created_at;
  closed_at = r.closed_at;
  status = derive_status r.closed_at (has r.session_id recovery_required);
}

unfoldable pub item_of_row : SessionRow → SessionListItem
unfolding derive_status
item_of_row row = record {
  session_id = row.session_id;
  agent_id = row.agent_id;
  created_at = row.created_at;
  closed_at = row.closed_at;
  status = derive_status row.closed_at (row.recovery_required == 1);
}

-- an empty `agentId` is no filter
abbrev pub agent_passes : Option String → SessionListItem → Bool
agent_passes none item = true
agent_passes (some a) item = if str_eq a "" then true else str_eq item.agent_id a

abbrev pub status_passes : Option SessionListStatus → SessionListItem → Bool
status_passes none item = true
status_passes (some s) item = same_status item.status s

-- the filters, the sort and the cursor, which the two branches share
unfoldable pub page_of :
    Host
    → (String → String → Bool)
    → SessionListParams
    → List SessionListItem
    → Result SessionFault SessionListResult
unfolding decode_cursor_boundary is_before_cursor comes_first build_paged_result clamp_list_limit
page_of host collates params items = decode_cursor_boundary host params.cursor >>= λ boundary.
    build_paged_result host
      (select (is_before_cursor host boundary) (
        sort_by (comes_first collates)
          (select (status_passes params.status) (select (agent_passes params.agent_id) items))))
      (clamp_list_limit params.limit)

unfoldable pub list_sessions :
    Host
    → (String → String → Bool)
    → SessionListParams
    → Service
    → Result SessionFault SessionListResult
unfolding page_of item_of_record
list_sessions host collates params service =
    page_of host collates params
      (map (λ e. item_of_record service.recovery_required e.1) service.sessions)

unfoldable pub list_session_rows :
    Host
    → (String → String → Bool)
    → SessionListParams
    → List SessionRow
    → Result SessionFault SessionListResult
unfolding page_of item_of_row
list_session_rows host collates params rows = page_of host collates params (map item_of_row rows)

-- `(created_at, session_id) < (cursorSortKey, cursorTieBreaker)`, in the collation of the database
abbrev pub cursor_passes : (String → String → Bool) → Option CursorBoundary → SessionRow → Bool
cursor_passes sql_less none row = true
cursor_passes sql_less (some b) row =
    ltb row.created_at b.created_at
    || (row.created_at == b.created_at && sql_less row.session_id b.session_id)

abbrev pub sql_agent_passes : Option String → SessionRow → Bool
sql_agent_passes none row = true
sql_agent_passes (some a) row = str_eq row.agent_id a

abbrev pub sql_status_passes : Option SessionListStatus → SessionRow → Bool
sql_status_passes none row = true
sql_status_passes (some status_recovery_required) row = row.recovery_required == 1
sql_status_passes (some status_closed) row = row.recovery_required == 0 && is_some row.closed_at
sql_status_passes (some status_open) row = row.recovery_required == 0 && not (is_some row.closed_at)

-- `ORDER BY created_at DESC, session_id DESC`
unfoldable pub row_first : (String → String → Bool) → SessionRow → SessionRow → Bool
row_first sql_less a b =
    if a.created_at == b.created_at
    then not (sql_less a.session_id b.session_id)
    else ltb b.created_at a.created_at

-- `listSessions` of the repository: the rows that pass, sorted, one more than the page holds
unfoldable pub pg_list_sessions :
    Host
    → (String → String → Bool)
    → SessionListParams
    → List SessionRow
    → Result SessionFault SessionListResult
unfolding item_of_row decode_cursor_boundary row_first build_paged_result clamp_list_limit
pg_list_sessions host sql_less params rows =
    decode_cursor_boundary host params.cursor >>= λ boundary.
    build_paged_result host
      (map item_of_row (
        take (suc (clamp_list_limit params.limit)) (
          sort_by (row_first sql_less) (
            select
              (λ row.
                sql_agent_passes params.agent_id row
                && (sql_status_passes params.status row && cursor_passes sql_less boundary row))
              rows))))
      (clamp_list_limit params.limit)
