-- ===== src/Sessions/Paging/Alike.antt =====
-- The repository's listing against the service's.
use maids_claw.Common.{
  sort_by, ℕ, suc, ◌≡◌, refl, sym, ap, ◌∙◌, Bool, false, ◌&&◌, List, Option, none, some, String,
  str_eq, map, select, take, All, All-imp, inl, inr, ◌⊎◌, Option-cases, Result-cases, arith,
}
use maids_claw.Sessions.{
  SessionListItem, SessionListParams, SessionListStatus, CursorBoundary, Host, derive_status,
  clamp_list_limit, decode_cursor_boundary, is_before_cursor, build_paged_result, status_open,
  status_closed, status_recovery_required,
}
use maids_claw.Sessions.Table.{SessionRow}
use maids_claw.Sessions.Listing.{
  comes_first, item_of_row, agent_passes, status_passes, page_of, list_session_rows, cursor_passes,
  sql_agent_passes, sql_status_passes, row_first, pg_list_sessions,
}
use maids_claw.Sessions.Paging.{OrdersTexts, IsDistinct}
use maids_claw.Sessions.Paging.Order.{IsDistinct-select}
use maids_claw.Sessions.Paging.Database.{
  map-select, map-sort_by, map-take, select-select, build-take, select-sort_by,
}

-- the flag of a row is 0 or 1
abbrev pub IsFlagged : SessionRow → Type 0
IsFlagged row = (row.recovery_required ≡ 0) ⊎ (row.recovery_required ≡ 1)

status_alike :
    (s : Option SessionListStatus) (row : SessionRow)
    → IsFlagged row
    → sql_status_passes s row ≡ status_passes s (item_of_row row)
unfolding item_of_row derive_status
status_alike none row f = refl
status_alike (some s) row f = elim (Option-cases row.closed_at) [
  | inl unset ↦ go s none unset f
  | inr (t, shut) ↦ go s (some t) shut f
]
  where
    go :
        (s : SessionListStatus) (o : Option ℕ)
        → row.closed_at ≡ o
        → IsFlagged row
        → sql_status_passes (some s) row ≡ status_passes (some s) (item_of_row row)
    go status_open none c (inl z) = rw c (rw z)
    go status_open none c (inr z) = rw c (rw z)
    go status_open (some t) c (inl z) = rw c (rw z)
    go status_open (some t) c (inr z) = rw c (rw z)
    go status_closed none c (inl z) = rw c (rw z)
    go status_closed none c (inr z) = rw c (rw z)
    go status_closed (some t) c (inl z) = rw c (rw z)
    go status_closed (some t) c (inr z) = rw c (rw z)
    go status_recovery_required none c (inl z) = rw c (rw z)
    go status_recovery_required none c (inr z) = rw c (rw z)
    go status_recovery_required (some t) c (inl z) = rw c (rw z)
    go status_recovery_required (some t) c (inr z) = rw c (rw z)

agent_alike :
    (a : Option String) (row : SessionRow)
    → ((name : String) → a ≡ some name → str_eq name "" ≡ false)
    → sql_agent_passes a row ≡ agent_passes a (item_of_row row)
unfolding item_of_row
agent_alike none row named = refl
agent_alike (some a) row named = rw (named a refl)

cursor_alike :
    (host : Host) (b : Option CursorBoundary) (row : SessionRow)
    → cursor_passes host.less b row ≡ is_before_cursor host b (item_of_row row)
unfolding item_of_row is_before_cursor
cursor_alike host none row = refl
cursor_alike host (some b) row = ground arith

first_alike :
    (less : String → String → Bool) (a b : SessionRow)
    → row_first less a b ≡ comes_first less (item_of_row a) (item_of_row b)
unfolding row_first comes_first item_of_row
first_alike less a b = refl

-- Where the database, `localeCompare` and `<` order texts alike, strictly and totally, each flag is 0
-- or 1, no two rows have one identifier, and the listing is not asked for the agent of the empty name,
-- the repository lists what the service lists over the same rows, for every filter, limit and cursor.
pub pg_list_sessions-alike :
    (host : Host)
    → OrdersTexts host.less
    → (params : SessionListParams) (rows : List SessionRow)
    → ((name : String) → params.agent_id ≡ some name → str_eq name "" ≡ false)
    → All IsFlagged rows
    → IsDistinct (map item_of_row rows)
    → pg_list_sessions host host.less params rows ≡ list_session_rows host host.less params rows
unfolding pg_list_sessions list_session_rows page_of
pg_list_sessions-alike host orders params rows named flags distinct =
    elim (Result-cases (decode_cursor_boundary host params.cursor)) [
      | inr (e, bad) ↦ rw bad
      | inl (boundary, good) ↦ rw good (same boundary)
    ]
  where
    same :
        (boundary : Option CursorBoundary)
        → build_paged_result host
            (map item_of_row (
              take (suc (clamp_list_limit params.limit)) (
                sort_by (row_first host.less) (
                  select
                    (λ row.
                      sql_agent_passes params.agent_id row
                      && (sql_status_passes params.status row
                          && cursor_passes host.less boundary row))
                    rows))))
            (clamp_list_limit params.limit)
          ≡ build_paged_result host
              (select (is_before_cursor host boundary) (
                sort_by (comes_first host.less) (
                  select
                    (status_passes params.status)
                    (select (agent_passes params.agent_id) (map item_of_row rows)))))
              (clamp_list_limit params.limit)
    same boundary =
        let limit : ℕ = clamp_list_limit params.limit in
        let items : List SessionListItem = map item_of_row rows in
        let passes : SessionListItem → Bool = λ x.
          agent_passes params.agent_id x
          && (status_passes params.status x && is_before_cursor host boundary x) in
        let chosen : List SessionListItem =
          select (status_passes params.status) (select (agent_passes params.agent_id) items) in
        let sql : SessionRow → Bool = λ row.
          sql_agent_passes params.agent_id row
          && (sql_status_passes params.status row && cursor_passes host.less boundary row) in
        let alike : All (λ (row : SessionRow). sql row ≡ passes (item_of_row row)) rows =
          All-imp IsFlagged (λ row. sql row ≡ passes (item_of_row row)) rows
            (λ row f.
              rw (agent_alike params.agent_id row named)
                (rw (status_alike params.status row f) (rw (cursor_alike host boundary row))))
            flags in
        ap (λ xs. build_paged_result host xs limit)
          (map-take item_of_row (suc limit) (sort_by (row_first host.less) (select sql rows)))
        ∙ build-take host (map item_of_row (sort_by (row_first host.less) (select sql rows))) limit
        ∙ ap (λ xs. build_paged_result host xs limit)
            (map-sort_by item_of_row (row_first host.less) (comes_first host.less)
                (first_alike host.less) (select sql rows)
              ∙ ap (sort_by (comes_first host.less)) (
                  map-select item_of_row sql passes rows alike
                  ∙ sym (
                      select-select (status_passes params.status) (is_before_cursor host boundary)
                        (select (agent_passes params.agent_id) items)
                      ∙ select-select (agent_passes params.agent_id)
                          (λ x. status_passes params.status x && is_before_cursor host boundary x)
                          items))
              ∙ sym (
                  select-sort_by host orders (is_before_cursor host boundary) chosen (
                    IsDistinct-select (status_passes params.status)
                      (select (agent_passes params.agent_id) items)
                      (IsDistinct-select (agent_passes params.agent_id) items distinct))))
