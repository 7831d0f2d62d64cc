-- ===== src/Sessions/Refinement/Answers.antt =====
-- What the callers of the two services see is the same.
use maids_claw.Common.{
  ◌≡◌, refl, sym, ap, ◌∙◌, Bool, List, [], ◌∷◌, some, String, str_eq, eq_iff, map, inl, inr,
  Bool-cases, Option-cases, arith,
}
use maids_claw.Common.Maps.{get, has, some_of}
use maids_claw.Sessions.{is_open_record, SessionRecord, SessionListParams, Host}
use maids_claw.Sessions.Memory
use maids_claw.Sessions.Memory.{Service, new_service}
use maids_claw.Sessions.Table
use maids_claw.Sessions.Table.{SessionRow, row_of, flag_of}
use maids_claw.Sessions.Listing.{
  list_sessions, list_session_rows, item_of_row, item_of_record, page_of,
}
use maids_claw.Sessions.Refinement.{rows_in, rows_of, IsKeyed, IsWellFormed, row_of-rows_in}
use maids_claw.Sessions.Refinement.Kept.{apply_op-IsWellFormed}
use maids_claw.Sessions.Refinement.Runs.{
  SessionOp, Answer, apply_op, apply_op_rows, IsFresh, get_session-rows_of, apply_op_rows-rows_of,
  not_known,
}

unfoldable pub run : List SessionOp → Service → List Answer × Service
unfolding apply_op
run [] s = ([], s)
run (op ∷ ops) s = let rest = run ops (apply_op op s).1 in ((apply_op op s).0 ∷ rest.0, rest.1)

unfoldable pub run_rows : List SessionOp → List SessionRow → List Answer × List SessionRow
unfolding apply_op_rows
run_rows [] rows = ([], rows)
run_rows (op ∷ ops) rows =
    let rest = run_rows ops (apply_op_rows op rows).1 in
    ((apply_op_rows op rows).0 ∷ rest.0, rest.1)

abbrev pub AllFresh : List SessionOp → Service → Type 0
AllFresh [] s = Unit
AllFresh (op ∷ ops) s = IsFresh op s × AllFresh ops (apply_op op s).1

pub run-IsWellFormed :
    (ops : List SessionOp) (s : Service) → IsWellFormed s → IsWellFormed (run ops s).1
unfolding run
run-IsWellFormed [] s wf = wf
run-IsWellFormed (op ∷ ops) s wf =
    run-IsWellFormed ops (apply_op op s).1 (apply_op-IsWellFormed op s wf)

run_rows-rows_of :
    (ops : List SessionOp) (s : Service)
    → IsWellFormed s
    → AllFresh ops s
    → run_rows ops (rows_of s) ≡ ((run ops s).0, rows_of (run ops s).1)
unfolding run run_rows
run_rows-rows_of [] s wf fresh = refl
run_rows-rows_of (op ∷ ops) s wf (now, later) = rw (apply_op_rows-rows_of op s wf now) (
    ap (λ r. ((apply_op op s).0 ∷ r.0, r.1))
      (run_rows-rows_of ops (apply_op op s).1 (apply_op-IsWellFormed op s wf) later))

keyed_get :
    (id : String) (r : SessionRecord) (m : List (String × SessionRecord))
    → IsKeyed m
    → get id m ≡ some r
    → r.session_id ≡ id
keyed_get id r [] k h = absurd (cc h)
keyed_get id r ((j, q) ∷ m) (here, k) h = elim (Bool-cases (str_eq j id)) [
  | inl at ↦ ap (λ t. t.session_id) (sym (some_of (rw at at h))) ∙ here ∙ (eq_iff j id).0 at
  | inr away ↦ keyed_get id r m k (rw away at h)
]

requires_recovery-rows_of :
    (id : String) (s : Service)
    → IsWellFormed s
    → Table.requires_recovery id (rows_of s) ≡ Memory.requires_recovery id s
unfolding Table.requires_recovery Memory.requires_recovery
requires_recovery-rows_of id s wf =
    ap flag_of (row_of-rows_in id s.recovery_required s.sessions wf.keyed)
    ∙ elim (Option-cases (get id s.sessions)) [
      | inl missing ↦ rw missing (sym (not_known id s wf missing))
      | inr (r, there) ↦
          let mine : r.session_id ≡ id = keyed_get id r s.sessions wf.keyed there in
          rw there (rw mine (ground arith))
    ]

items_same :
    (recovery : List String) (m : List (String × SessionRecord))
    → map item_of_row (rows_in recovery m) ≡ map (λ e. item_of_record recovery e.1) m
unfolding item_of_row item_of_record
items_same recovery [] = refl
items_same recovery ((j, r) ∷ m) =
    ap (λ t. t ∷ map item_of_row (rows_in recovery m))
      (elim (Bool-cases (has r.session_id recovery)) [ inl h ↦ rw h | inr h ↦ rw h ])
    ∙ ap (◌∷◌ (item_of_record recovery r)) (items_same recovery m)

-- what a caller can ask after some calls
pub record AnswersAlike (s : Service) (rows : List SessionRow) : Type 0 where
  pub gets : (id : String) → Table.get_session id rows ≡ Memory.get_session id s
  pub opens : (id : String) → Table.is_open id rows ≡ Memory.is_open id s
  pub recovers : (id : String) → Table.requires_recovery id rows ≡ Memory.requires_recovery id s
  pub lists :
      (host : Host) (collates : String → String → Bool) (params : SessionListParams)
      → list_session_rows host collates params rows ≡ list_sessions host collates params s

rows_of-AnswersAlike : (s : Service) → IsWellFormed s → AnswersAlike s (rows_of s)
unfolding Table.is_open Memory.is_open list_session_rows list_sessions
rows_of-AnswersAlike s wf = record {
  gets = λ id. get_session-rows_of id s wf;
  opens = λ id. ap is_open_record (get_session-rows_of id s wf);
  recovers = λ id. requires_recovery-rows_of id s wf;
  lists = λ host collates params.
      ap (page_of host collates params) (items_same s.recovery_required s.sessions);
}

-- From a new service and an empty table, every sequence of calls in which each session is created with
-- an identifier that no session has is answered alike call by call, and so is every question
-- afterwards: what a session is, whether it is open or to be recovered, and any listing.
pub run_rows-AnswersAlike :
    (ops : List SessionOp)
    → AllFresh ops new_service
    → ((run_rows ops []).0 ≡ (run ops new_service).0)
      × AnswersAlike (run ops new_service).1 (run_rows ops []).1
run_rows-AnswersAlike ops fresh =
    let empty : IsWellFormed new_service = record { keyed = tt; known = λ id h. absurd (cc h) } in
    let same : run_rows ops [] ≡ ((run ops new_service).0, rows_of (run ops new_service).1) =
      run_rows-rows_of ops new_service empty fresh in
    (
      ap (λ r. r.0) same,
      rw same
          (rows_of-AnswersAlike (run ops new_service).1 (run-IsWellFormed ops new_service empty)),
    )
