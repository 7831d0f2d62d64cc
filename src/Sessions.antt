-- ===== src/Sessions.antt =====
-- Sessions: the records, their listing and its cursors. src/session/service.ts,
-- src/contracts/cockpit/cursor.ts.
use maids_claw.Common.{
  ℕ, zero, suc, Bool, true, false, not, ◌&&◌, ◌||◌, List, [], ◌∷◌, Option, none, some, String, min,
  max, ltb, ◌==◌, str_eq, if◌then◌else◌, length, take, Result, ok, throw, ◌>>=◌, is_some,
}
use maids_claw.Common.Ints.{ℤ, pos, negsuc}
pub mod Memory
pub mod Table
pub mod Listing
pub mod Refinement
pub mod Paging
pub mod Closing

pub record SessionRecord : Type 0 where
  pub session_id : String
  pub created_at : ℕ
  pub closed_at : Option ℕ
  pub agent_id : String

-- a session that exists and is not closed
abbrev pub is_open_record : Option SessionRecord → Bool
is_open_record none = false
is_open_record (some r) = not (is_some r.closed_at)

pub data SessionListStatus : Type 0 where
  status_open : SessionListStatus
  status_closed : SessionListStatus
  status_recovery_required : SessionListStatus

-- a finite `limit` is given by its floor
pub record SessionListParams : Type 0 where
  pub agent_id : Option String
  pub status : Option SessionListStatus
  pub limit : Option ℤ
  pub cursor : Option String

pub record SessionListItem : Type 0 where
  pub session_id : String
  pub agent_id : String
  pub created_at : ℕ
  pub closed_at : Option ℕ
  pub status : SessionListStatus

pub record SessionListResult : Type 0 where
  pub items : List SessionListItem
  pub next_cursor : Option String

pub record CursorBoundary : Type 0 where
  pub created_at : ℕ
  pub session_id : String

pub data SessionFault : Type 0 where
  session_not_found : SessionFault
  bad_request : SessionFault
  payload_invalid : SessionFault

-- `sort_key` is any JSON value
pub data SortKey : Type 0 where
  sort_text : String → SortKey
  sort_other : SortKey

pub record CursorPayload : Type 0 where
  pub v : ℕ
  pub sort_key : SortKey
  pub tie_breaker : String

-- What the host provides: JSON in base64url, of an object with the fields of a cursor, `none` for a text
-- with other characters and for one that holds anything else; dates in ISO form; and the order of texts.
pub record Host : Type 0 where
  pub to_text : CursorPayload → String
  pub of_text : String → Option CursorPayload
  pub to_iso : ℕ → String
  pub date_parse : String → Option ℕ
  pub less : String → String → Bool

abbrev pub default_list_limit : ℕ
default_list_limit = 50

abbrev pub max_list_limit : ℕ
max_list_limit = 200

-- `value || DEFAULT_LIST_LIMIT`, within 1 and the largest limit
unfoldable pub clamp_list_limit : Option ℤ → ℕ
clamp_list_limit none = max 1 (min max_list_limit default_list_limit)
clamp_list_limit (some (pos zero)) = max 1 (min max_list_limit default_list_limit)
clamp_list_limit (some (pos (suc n))) = max 1 (min max_list_limit (suc n))
clamp_list_limit (some (negsuc n)) = 1

unfoldable pub derive_status : Option ℕ → Bool → SessionListStatus
derive_status closed_at true = status_recovery_required
derive_status (some t) false = status_closed
derive_status none false = status_open

abbrev pub same_status : SessionListStatus → SessionListStatus → Bool
same_status status_open status_open = true
same_status status_closed status_closed = true
same_status status_recovery_required status_recovery_required = true
same_status a b = false

-- `encodeCursor`: the schema wants a tie breaker that is not empty
unfoldable pub encode_cursor : Host → CursorPayload → Result SessionFault String
encode_cursor host payload =
    if not (payload.v == 1) || str_eq payload.tie_breaker ""
    then throw payload_invalid
    else ok (host.to_text payload)

abbrev pub check_payload : Option CursorPayload → Result SessionFault CursorPayload
check_payload none = throw bad_request
check_payload (some payload) =
    if not (payload.v == 1) || str_eq payload.tie_breaker "" then throw bad_request else ok payload

unfoldable pub decode_cursor : Host → String → Result SessionFault CursorPayload
decode_cursor host cursor = check_payload (host.of_text cursor)

abbrev pub boundary_at : String → Option ℕ → Result SessionFault CursorBoundary
boundary_at id none = throw bad_request
boundary_at id (some t) = ok (record { created_at = t; session_id = id })

abbrev pub boundary_of : Host → CursorPayload → SortKey → Result SessionFault CursorBoundary
boundary_of host payload sort_other = throw bad_request
boundary_of host payload (sort_text iso) = boundary_at payload.tie_breaker (host.date_parse iso)

abbrev pub some_boundary :
    Result SessionFault CursorBoundary → Result SessionFault (Option CursorBoundary)
some_boundary r = r >>= λ b. ok (some b)

-- an empty cursor counts as none
unfoldable pub decode_cursor_boundary :
    Host → Option String → Result SessionFault (Option CursorBoundary)
unfolding decode_cursor
decode_cursor_boundary host none = ok none
decode_cursor_boundary host (some cursor) =
    if str_eq cursor ""
    then ok none
    else some_boundary (decode_cursor host cursor >>= λ p. boundary_of host p p.sort_key)

unfoldable pub is_before_cursor : Host → Option CursorBoundary → SessionListItem → Bool
is_before_cursor host none item = true
is_before_cursor host (some b) item =
    if ltb item.created_at b.created_at
    then true
    else if ltb b.created_at item.created_at
    then false
    else host.less item.session_id b.session_id

abbrev pub last_of {ℓ} : {A : Type ℓ} → List A → Option A
last_of [] = none
last_of (x ∷ []) = some x
last_of (x ∷ y ∷ ys) = last_of (y ∷ ys)

unfoldable pub cursor_of : Host → Option SessionListItem → Result SessionFault (Option String)
unfolding encode_cursor
cursor_of host none = ok none
cursor_of host (some last) =
    encode_cursor host (record {
      v = 1;
      sort_key = sort_text (host.to_iso last.created_at);
      tie_breaker = last.session_id;
    })
    >>= λ c. ok (some c)

unfoldable pub build_paged_result :
    Host → List SessionListItem → ℕ → Result SessionFault SessionListResult
unfolding cursor_of
build_paged_result host items limit =
    if ltb limit (length items)
    then (cursor_of host (last_of (take limit items)) >>= λ c.
        ok (record { items = take limit items; next_cursor = c }))
    else ok (record { items = items; next_cursor = none })
