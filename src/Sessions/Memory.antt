-- ===== src/Sessions/Memory.antt =====
-- The service without a database: a `Map` of records and a `Set` of the sessions to recover.
-- src/session/service.ts.
use maids_claw.Common.{
  ℕ, Bool, List, [], Option, none, some, String, str_eq, if◌then◌else◌, Result, ok, throw, map,
  is_some,
}
use maids_claw.Common.Maps.{get, set, has, add, remove}
use maids_claw.Sessions.{SessionRecord, SessionFault, session_not_found, is_open_record}

pub record Service : Type 0 where
  pub sessions : List (String × SessionRecord)
  pub recovery_required : List String

-- a new `SessionService`
abbrev pub new_service : Service
new_service = record { sessions = []; recovery_required = [] }

-- with the identifier that `randomUUID` gave, and the time
unfoldable pub create_session : String → ℕ → String → Service → SessionRecord × Service
create_session session_id now agent_id service =
    let r : SessionRecord = record {
      session_id = session_id;
      created_at = now;
      closed_at = none;
      agent_id = agent_id;
    } in
    (r, record service { sessions = set session_id r service.sessions })

unfoldable pub get_session : String → Service → Option SessionRecord
get_session session_id service = get session_id service.sessions

-- the record that the map holds is changed in place
abbrev pub close_record : String → ℕ → List (String × SessionRecord) → List (String × SessionRecord)
close_record session_id now m =
    map (λ e. if str_eq e.0 session_id then (e.0, record e.1 { closed_at = some now }) else e) m

abbrev pub close_found :
    String → ℕ → Service → Option SessionRecord → Result SessionFault (SessionRecord × Service)
close_found session_id now service none = throw session_not_found
close_found session_id now service (some r) = ok (
  record r { closed_at = some now },
  record {
    sessions = close_record session_id now service.sessions;
    recovery_required = remove session_id service.recovery_required;
  },
)

unfoldable pub close_session : String → ℕ → Service → Result SessionFault (SessionRecord × Service)
unfolding get_session
close_session session_id now service =
    close_found session_id now service (get_session session_id service)

unfoldable pub is_open : String → Service → Bool
unfolding get_session
is_open session_id service = is_open_record (get_session session_id service)

unfoldable pub mark_recovery_required : String → Service → Result SessionFault Service
unfolding get_session
mark_recovery_required session_id service =
    if is_some (get_session session_id service)
    then ok (record service { recovery_required = add session_id service.recovery_required })
    else throw session_not_found

unfoldable pub clear_recovery_required : String → Service → Service
clear_recovery_required session_id service = record service {
  recovery_required = remove session_id service.recovery_required;
}

unfoldable pub requires_recovery : String → Service → Bool
requires_recovery session_id service = has session_id service.recovery_required
