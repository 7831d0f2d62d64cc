-- ===== src/Sessions/Refinement/Runs.antt =====
-- Sequences of calls of the service, in memory and over the table.
use mathlib.Core.Option
use maids_claw.Common.{
  ℕ, ◌≡◌, refl, sym, ap, ◌∙◌, false, List, [], ◌∷◌, ◌++◌, Option, none, some, String, if◌then◌else◌,
  Result, ok, throw, inl, inr, Bool-cases, Option-cases,
}
use maids_claw.Common.Maps.{get, has}
use maids_claw.Sessions.{SessionRecord, SessionFault}
use maids_claw.Sessions.Memory
use maids_claw.Sessions.Memory.{Service, close_record, new_service}
use maids_claw.Sessions.Table
use maids_claw.Sessions.Table.{SessionRow, row_of, update_rows, record_of}
use maids_claw.Sessions.Refinement.{
  row_in, rows_of, IsWellFormed, row_of-rows_in, rows_in-add, rows_in-remove, rows_in-close_record,
  rows_in-set,
}

pub data SessionOp : Type 0 where
  creates : (session_id : String) → (now : ℕ) → (agent_id : String) → SessionOp
  closes : (session_id : String) → (now : ℕ) → SessionOp
  marks : (session_id : String) → SessionOp
  clears : (session_id : String) → SessionOp

-- what a call returns or throws
pub data Answer : Type 0 where
  gave : SessionRecord → Answer
  done : Answer
  threw : SessionFault → Answer

module _ {S : Type 0} where
  -- a call that throws changes nothing
  abbrev pub with_record : S → Result SessionFault (SessionRecord × S) → Answer × S
  with_record s (ok (r, t)) = (gave r, t)
  with_record s (throw e) = (threw e, s)

  abbrev pub with_state : S → Result SessionFault S → Answer × S
  with_state s (ok t) = (done, t)
  with_state s (throw e) = (threw e, s)

unfoldable pub apply_op : SessionOp → Service → Answer × Service
unfolding Memory.create_session Memory.close_session Memory.mark_recovery_required
    Memory.clear_recovery_required
apply_op (creates id now agent) s = with_record s (ok (Memory.create_session id now agent s))
apply_op (closes id now) s = with_record s (Memory.close_session id now s)
apply_op (marks id) s = with_state s (Memory.mark_recovery_required id s)
apply_op (clears id) s = (done, Memory.clear_recovery_required id s)

unfoldable pub apply_op_rows : SessionOp → List SessionRow → Answer × List SessionRow
unfolding Table.create_session Table.close_session Table.mark_recovery_required
    Table.clear_recovery_required
apply_op_rows (creates id now agent) s = with_record s (ok (Table.create_session id now agent s))
apply_op_rows (closes id now) s = with_record s (Table.close_session id now s)
apply_op_rows (marks id) s = with_state s (Table.mark_recovery_required id s)
apply_op_rows (clears id) s = (done, Table.clear_recovery_required id s)

-- `randomUUID` gives an identifier that no session has
abbrev pub IsFresh : SessionOp → Service → Type 0
IsFresh (creates id now agent) s = get id s.sessions ≡ none
IsFresh (closes id now) s = Unit
IsFresh (marks id) s = Unit
IsFresh (clears id) s = Unit

pub get_session-rows_of :
    (id : String) (s : Service)
    → IsWellFormed s
    → Table.get_session id (rows_of s) ≡ Memory.get_session id s
unfolding Table.get_session Memory.get_session
get_session-rows_of id s wf =
    ap record_of (row_of-rows_in id s.recovery_required s.sessions wf.keyed)
    ∙ same (get id s.sessions)
  where
    same : (o : Option SessionRecord) → record_of (Option.map (row_in s.recovery_required) o) ≡ o
    same none = refl
    same (some r) = refl

pub not_known :
    (id : String) (s : Service)
    → IsWellFormed s
    → get id s.sessions ≡ none
    → has id s.recovery_required ≡ false
not_known id s wf fresh = elim (Bool-cases (has id s.recovery_required)) [
  | inl marked ↦ absurd (cc (rw fresh at (wf.known id marked)))
  | inr free ↦ free
]

pub apply_op_rows-rows_of :
    (op : SessionOp) (s : Service)
    → IsWellFormed s
    → IsFresh op s
    → apply_op_rows op (rows_of s) ≡ ((apply_op op s).0, rows_of (apply_op op s).1)
unfolding apply_op apply_op_rows Memory.create_session Memory.close_session
    Memory.mark_recovery_required Memory.clear_recovery_required Table.create_session
    Table.close_session Table.mark_recovery_required Table.clear_recovery_required
apply_op_rows-rows_of (creates id now agent) s wf fresh =
    ap
      (λ rows. (
        gave (record { session_id = id; created_at = now; closed_at = none; agent_id = agent }),
        rows,
      ))
      (sym (
        rows_in-set id _ s.recovery_required s.sessions fresh
        ∙ ap
            (λ b.
              rows_of s
              ++ record {
                session_id = id;
                agent_id = agent;
                created_at = now;
                closed_at = none;
                recovery_required = if b then 1 else 0;
              }
                ∷ [])
            (not_known id s wf fresh)))
apply_op_rows-rows_of (closes id now) s wf fresh = elim (Option-cases (get id s.sessions)) [
  | inl missing ↦
      rw (get_session-rows_of id s wf, Table.close_session)
        (rw (missing, Memory.close_session, Memory.get_session))
  | inr (r, there) ↦
      rw (get_session-rows_of id s wf, Table.close_session)
        (rw (there, Memory.close_session, Memory.get_session)
          (ap (λ rows. (gave (record r { closed_at = some now }), rows))
            (sym (rows_in-close_record id now s.recovery_required s.sessions wf.keyed))))
]
apply_op_rows-rows_of (marks id) s wf fresh = elim (Option-cases (get id s.sessions)) [
  | inl missing ↦
      rw (get_session-rows_of id s wf, Table.mark_recovery_required)
        (rw (missing, Memory.mark_recovery_required, Memory.get_session))
  | inr (r, there) ↦
      rw (get_session-rows_of id s wf, Table.mark_recovery_required)
        (rw (there, Memory.mark_recovery_required, Memory.get_session)
          (ap (λ rows. (done, rows)) (sym (rows_in-add id s.recovery_required s.sessions))))
]
apply_op_rows-rows_of (clears id) s wf fresh =
    ap (λ rows. (done, rows)) (sym (rows_in-remove id s.recovery_required s.sessions))
