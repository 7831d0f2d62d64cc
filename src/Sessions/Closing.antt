-- ===== src/Sessions/Closing.antt =====
-- Closing a session, and that a closed session stays closed.
use maids_claw.Common.{
  ℕ, ◌≡◌, refl, sym, ap, ◌∙◌, Bool, true, false, List, [], ◌∷◌, none, some, String, str_eq, eq_iff,
  if◌then◌else◌, ok, throw, is_some, inl, inr, ◌⊎◌, Bool-cases, Option-cases,
}
use maids_claw.Common.Maps.{get, remove, get-set, has-remove, some_of}
use maids_claw.Sessions.{SessionRecord, session_not_found, is_open_record}
use maids_claw.Sessions.Memory.{
  Service, close_record, close_session, get_session, is_open, requires_recovery, create_session,
  mark_recovery_required, clear_recovery_required,
}
use maids_claw.Sessions.Refinement.Runs.{
  SessionOp, creates, closes, marks, clears, apply_op, IsFresh,
}
use maids_claw.Sessions.Refinement.Answers.{run, AllFresh}

-- the record as a session closed at this time has it, if it is this session's
abbrev pub closed_if : Bool → ℕ → SessionRecord → SessionRecord
closed_if true now r = record r { closed_at = some now }
closed_if false now r = r

get-close_record :
    (id k : String) (now : ℕ) (m : List (String × SessionRecord)) (r : SessionRecord)
    → get k m ≡ some r
    → get k (close_record id now m) ≡ some (closed_if (str_eq k id) now r)
get-close_record id k now [] r h = absurd (cc h)
get-close_record id k now ((j, q) ∷ m) r h = elim (Bool-cases (str_eq j k)) [
  | inl here ↦
      let q_r : q ≡ r = some_of (rw here at h) in
      let j_k : j ≡ k = (eq_iff j k).0 here in
      elim (Bool-cases (str_eq j id)) [
        | inl at ↦
            let there : str_eq k id ≡ true = rw (← j_k) at in
            rw at (rw here (rw there (ap (λ (x : SessionRecord). some (closed_if true now x)) q_r)))
        | inr other ↦
            let away : str_eq k id ≡ false = rw (← j_k) other in
            rw other (rw here (rw away (ap some q_r)))
      ]
  | inr apart ↦ elim (Bool-cases (str_eq j id)) [
    | inl at ↦ rw at (rw apart (get-close_record id k now m r (rw apart at h)))
    | inr other ↦ rw other (rw apart (get-close_record id k now m r (rw apart at h)))
  ]
]

-- what closing comes to
pub record Closes (id : String) (now : ℕ) (r : SessionRecord) (s t : Service) : Type 0 where
  pub kept : get_session id t ≡ some (record r { closed_at = some now })
  pub shut : is_open id t ≡ false
  pub settled : requires_recovery id t ≡ false
  pub others :
      (k : String)
      → str_eq id k ≡ false
      → (get_session k t ≡ get_session k s) × (requires_recovery k t ≡ requires_recovery k s)

get-close_other :
    (id k : String) (now : ℕ) (m : List (String × SessionRecord))
    → str_eq id k ≡ false
    → get k (close_record id now m) ≡ get k m
get-close_other id k now [] apart = refl
get-close_other id k now ((j, q) ∷ m) apart = elim (Bool-cases (str_eq j id)) [
  | inl at ↦
      let away : str_eq j k ≡ false = rw (← (eq_iff j id).0 at) at apart in
      rw at (rw away (get-close_other id k now m apart))
  | inr other ↦
      rw other (ap (λ o. if str_eq j k then some q else o) (get-close_other id k now m apart))
]

-- A session that the service does not have cannot be closed; closing one that it has gives its record
-- with the time, leaves it closed and no longer to be recovered, and no other session changed.
pub close_session-Closes :
    (id : String) (now : ℕ) (s : Service)
    → ((get_session id s ≡ none) × (close_session id now s ≡ throw session_not_found))
      ⊎ ((r : SessionRecord) × (t : Service) × (get_session id s ≡ some r)
          × (close_session id now s ≡ ok (record r { closed_at = some now }, t))
          × Closes id now r s t)
unfolding close_session get_session is_open requires_recovery
close_session-Closes id now s = elim (Option-cases (get id s.sessions)) [
  | inl missing ↦ inl (missing, rw (missing, close_session))
  | inr (r, there) ↦
      let same : str_eq id id ≡ true = (eq_iff id id).1 refl in
      let kept : get id (close_record id now s.sessions)
          ≡ some (record r { closed_at = some now }) =
        get-close_record id id now s.sessions r there ∙ rw same in
      inr (
        r,
        record {
          sessions = close_record id now s.sessions;
          recovery_required = remove id s.recovery_required;
        },
        there,
        rw (there, close_session),
        record {
          kept = kept;
          shut = ap is_open_record kept;
          settled = has-remove id id s.recovery_required ∙ rw same;
          others = λ k apart. (
            get-close_other id k now s.sessions apart,
            has-remove id k s.recovery_required ∙ rw apart,
          );
        },
      )
]

-- the session is there, and closed
abbrev pub IsShut : String → Service → Type 0
IsShut id s = (r : SessionRecord) × (get_session id s ≡ some r) × (is_some r.closed_at ≡ true)

shut_if :
    (b : Bool) (now : ℕ) (r : SessionRecord)
    → is_some r.closed_at ≡ true
    → is_some (closed_if b now r).closed_at ≡ true
shut_if true now r h = refl
shut_if false now r h = h

apply_op-IsShut :
    (op : SessionOp) (id : String) (s : Service)
    → IsFresh op s
    → IsShut id s
    → IsShut id (apply_op op s).1
unfolding apply_op create_session close_session get_session mark_recovery_required
    clear_recovery_required
apply_op-IsShut (creates k now agent) id s fresh (r, there, shut) = (
  r,
  get-set k id _ s.sessions ∙ elim (Bool-cases (str_eq k id)) [
    | inl same ↦ absurd (cc (sym fresh ∙ ap (λ i. get i s.sessions) ((eq_iff k id).0 same) ∙ there))
    | inr other ↦ rw other there
  ],
  shut,
)
apply_op-IsShut (closes k now) id s fresh (r, there, shut) =
    elim (Option-cases (get k s.sessions)) [
      | inl missing ↦ rw (missing, close_session) (r, there, shut)
      | inr (q, at) ↦
          rw (at, close_session)
            (
              closed_if (str_eq id k) now r,
              get-close_record k id now s.sessions r there,
              shut_if (str_eq id k) now r shut,
            )
    ]
apply_op-IsShut (marks k) id s fresh (r, there, shut) = elim (Option-cases (get k s.sessions)) [
  | inl missing ↦ rw (missing, mark_recovery_required) (r, there, shut)
  | inr (q, at) ↦ rw (at, mark_recovery_required) (r, there, shut)
]
apply_op-IsShut (clears k) id s fresh (r, there, shut) = (r, there, shut)

-- No sequence of calls opens a closed session again, if each session is created with an identifier
-- that no session has.
pub run-IsShut :
    (ops : List SessionOp) (id : String) (s : Service)
    → AllFresh ops s
    → IsShut id s
    → IsShut id (run ops s).1 × (is_open id (run ops s).1 ≡ false)
unfolding run is_open get_session
run-IsShut [] id s fresh (r, there, shut) = ((r, there, shut), rw there (rw shut))
run-IsShut (op ∷ ops) id s (now, later) shut =
    run-IsShut ops id (apply_op op s).1 later (apply_op-IsShut op id s now shut)
