-- ===== src/Sessions/Table.antt =====
-- The same service over a table, statement by statement: the database branches of
-- src/session/service.ts; src/storage/domain-repos/pg/session-repo.ts runs the same statements.
use maids_claw.Common.{
  ℕ, Bool, false, ◌==◌, List, [], ◌∷◌, ◌++◌, Option, none, some, String, str_eq, if◌then◌else◌,
  Result, ok, throw, map, is_some, find_first,
}
use maids_claw.Sessions.{SessionRecord, SessionFault, session_not_found, is_open_record}

pub record SessionRow : Type 0 where
  pub session_id : String
  pub agent_id : String
  pub created_at : ℕ
  pub closed_at : Option ℕ
  pub recovery_required : ℕ

abbrev pub row_of : String → List SessionRow → Option SessionRow
row_of session_id rows = find_first (λ r. str_eq r.session_id session_id) rows

abbrev pub update_rows : String → (SessionRow → SessionRow) → List SessionRow → List SessionRow
update_rows session_id f rows = map (λ r. if str_eq r.session_id session_id then f r else r) rows

unfoldable pub create_session :
    String → ℕ → String → List SessionRow → SessionRecord × List SessionRow
create_session session_id now agent_id rows = (
  record { session_id = session_id; created_at = now; closed_at = none; agent_id = agent_id },
  rows
      ++ record {
        session_id = session_id;
        agent_id = agent_id;
        created_at = now;
        closed_at = none;
        recovery_required = 0;
      }
        ∷ [],
)

abbrev pub record_of : Option SessionRow → Option SessionRecord
record_of none = none
record_of (some r) = some (record {
  session_id = r.session_id;
  created_at = r.created_at;
  closed_at = r.closed_at;
  agent_id = r.agent_id;
})

unfoldable pub get_session : String → List SessionRow → Option SessionRecord
get_session session_id rows = record_of (row_of session_id rows)

abbrev pub close_found :
    String
    → ℕ
    → List SessionRow
    → Option SessionRecord
    → Result SessionFault (SessionRecord × List SessionRow)
close_found session_id now rows none = throw session_not_found
close_found session_id now rows (some r) = ok (
  record r { closed_at = some now },
  update_rows session_id (λ row. record row { closed_at = some now; recovery_required = 0 }) rows,
)

unfoldable pub close_session :
    String → ℕ → List SessionRow → Result SessionFault (SessionRecord × List SessionRow)
unfolding get_session
close_session session_id now rows = close_found session_id now rows (get_session session_id rows)

unfoldable pub is_open : String → List SessionRow → Bool
unfolding get_session
is_open session_id rows = is_open_record (get_session session_id rows)

unfoldable pub mark_recovery_required :
    String → List SessionRow → Result SessionFault (List SessionRow)
unfolding get_session
mark_recovery_required session_id rows =
    if is_some (get_session session_id rows)
    then ok (update_rows session_id (λ row. record row { recovery_required = 1 }) rows)
    else throw session_not_found

unfoldable pub clear_recovery_required : String → List SessionRow → List SessionRow
clear_recovery_required session_id rows =
    update_rows session_id (λ row. record row { recovery_required = 0 }) rows

abbrev pub flag_of : Option SessionRow → Bool
flag_of none = false
flag_of (some r) = r.recovery_required == 1

unfoldable pub requires_recovery : String → List SessionRow → Bool
requires_recovery session_id rows = flag_of (row_of session_id rows)
