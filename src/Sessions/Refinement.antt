-- ===== src/Sessions/Refinement.antt =====
-- The service over a table answers as the service in memory does.
use mathlib.Core.Option
use maids_claw.Common.{
  ℕ, ◌≡◌, refl, sym, ap, ◌∙◌, Bool, true, false, not, ◌==◌, ◌&&◌, ◌||◌, List, [], ◌∷◌, ◌++◌, Option,
  none, some, String, str_eq, eq_iff, if◌then◌else◌, Result, ok, throw, map, is_some, All, inl, inr,
  Bool-cases, Option-cases, arith, find_first,
}
use maids_claw.Common.Maps.{get, set, has, add, remove, get-set, has-add, has-remove}
use maids_claw.Sessions.{SessionRecord, SessionFault, session_not_found}
use maids_claw.Sessions.Memory
use maids_claw.Sessions.Memory.{Service, close_record}
use maids_claw.Sessions.Table
use maids_claw.Sessions.Table.{SessionRow, row_of, update_rows, record_of}
pub mod Runs
pub mod Kept
pub mod Answers

-- the row that a session of the memory stands for
abbrev pub row_in : List String → SessionRecord → SessionRow
row_in recovery r = record {
  session_id = r.session_id;
  agent_id = r.agent_id;
  created_at = r.created_at;
  closed_at = r.closed_at;
  recovery_required = if has r.session_id recovery then 1 else 0;
}

abbrev pub rows_in : List String → List (String × SessionRecord) → List SessionRow
rows_in recovery m = map (λ e. row_in recovery e.1) m

abbrev pub rows_of : Service → List SessionRow
rows_of service = rows_in service.recovery_required service.sessions

abbrev pub IsKeyed : List (String × SessionRecord) → Type 0
IsKeyed m = All (λ (e : String × SessionRecord). e.1.session_id ≡ e.0) m

-- each record stands under its identifier, and only sessions that exist are to be recovered
pub record IsWellFormed (service : Service) : Type 0 where
  pub keyed : IsKeyed service.sessions
  pub known :
      (id : String)
      → has id service.recovery_required ≡ true
      → is_some (get id service.sessions) ≡ true

pub row_of-rows_in :
    (id : String) (recovery : List String) (m : List (String × SessionRecord))
    → IsKeyed m
    → row_of id (rows_in recovery m) ≡ Option.map (row_in recovery) (get id m)
row_of-rows_in id recovery [] k = refl
row_of-rows_in id recovery ((j, r) ∷ m) (here, k) = rw here (elim (Bool-cases (str_eq j id)) [
  | inl same ↦ rw same
  | inr other ↦ rw other (row_of-rows_in id recovery m k)
])

-- a change of the set of sessions to recover is an update of one session's rows
rows_in-update :
    (id : String) (old new : List String) (flag : ℕ) (m : List (String × SessionRecord))
    → ((j : String)
        → (if has j new then 1 else 0)
          ≡ (if str_eq j id then flag else (if has j old then 1 else 0)))
    → rows_in new m
      ≡ update_rows id (λ row. record row { recovery_required = flag }) (rows_in old m)
rows_in-update id old new flag [] h = refl
rows_in-update id old new flag ((j, r) ∷ m) h =
    ap (λ t. t ∷ rows_in new m)
      (ap (λ n. record (row_in old r) { recovery_required = n }) (h r.session_id)
        ∙ elim (Bool-cases (str_eq r.session_id id)) [ inl same ↦ rw same | inr other ↦ rw other ])
    ∙ ap
        (λ ts.
          (if str_eq r.session_id id
            then record (row_in old r) { recovery_required = flag }
            else row_in old r)
          ∷ ts)
        (rows_in-update id old new flag m h)

pub rows_in-add :
    (id : String) (recovery : List String) (m : List (String × SessionRecord))
    → rows_in (add id recovery) m
      ≡ update_rows id (λ row. record row { recovery_required = 1 }) (rows_in recovery m)
rows_in-add id recovery m =
    rows_in-update id recovery (add id recovery) 1 m
      (λ j. rw (has-add id j recovery) (ground (arith, eq_iff id j, eq_iff j id)))

pub rows_in-remove :
    (id : String) (recovery : List String) (m : List (String × SessionRecord))
    → rows_in (remove id recovery) m
      ≡ update_rows id (λ row. record row { recovery_required = 0 }) (rows_in recovery m)
rows_in-remove id recovery m =
    rows_in-update id recovery (remove id recovery) 0 m
      (λ j. rw (has-remove id j recovery) (ground (arith, eq_iff id j, eq_iff j id)))

pub rows_in-close_record :
    (id : String) (now : ℕ) (recovery : List String) (m : List (String × SessionRecord))
    → IsKeyed m
    → rows_in (remove id recovery) (close_record id now m)
      ≡ update_rows id
          (λ row. record row { closed_at = some now; recovery_required = 0 })
          (rows_in recovery m)
rows_in-close_record id now recovery [] k = refl
rows_in-close_record id now recovery ((j, r) ∷ m) (here, k) =
    ap (λ t. t ∷ rows_in (remove id recovery) (close_record id now m))
      (elim (Bool-cases (str_eq r.session_id id)) [
        | inl same ↦
            let at : str_eq j id ≡ true = rw (← here) same in
            let gone : has r.session_id (remove id recovery) ≡ false =
              has-remove id r.session_id recovery
              ∙ ground (arith, eq_iff id r.session_id, eq_iff r.session_id id) in
            rw at (rw same (rw gone))
        | inr other ↦
            let at : str_eq j id ≡ false = rw (← here) other in
            let kept : has r.session_id (remove id recovery) ≡ has r.session_id recovery =
              has-remove id r.session_id recovery
              ∙ ground (arith, eq_iff id r.session_id, eq_iff r.session_id id) in
            rw at (rw other (rw kept))
      ])
    ∙ ap
        (λ ts.
          (if str_eq r.session_id id
            then record (row_in recovery r) { closed_at = some now; recovery_required = 0 }
            else row_in recovery r)
          ∷ ts)
        (rows_in-close_record id now recovery m k)

pub rows_in-set :
    (id : String) (r : SessionRecord) (recovery : List String) (m : List (String × SessionRecord))
    → get id m ≡ none
    → rows_in recovery (set id r m) ≡ rows_in recovery m ++ row_in recovery r ∷ []
rows_in-set id r recovery [] fresh = refl
rows_in-set id r recovery ((j, q) ∷ m) fresh = elim (Bool-cases (str_eq j id)) [
  | inl same ↦ absurd (cc (rw same at fresh))
  | inr other ↦
      rw other (ap (◌∷◌ (row_in recovery q)) (rows_in-set id r recovery m (rw other at fresh)))
]
