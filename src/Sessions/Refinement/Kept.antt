-- ===== src/Sessions/Refinement/Kept.antt =====
-- Every call keeps the service well-formed.
use maids_claw.Common.{
  ℕ, ◌≡◌, refl, sym, ap, ◌∙◌, true, not, ◌&&◌, List, [], ◌∷◌, String, str_eq, eq_iff, is_some, inl,
  inr, Bool-cases, Option-cases, arith,
}
use maids_claw.Common.Maps.{get, set, has, remove, get-set, has-add, has-remove}
use maids_claw.Sessions.{SessionRecord}
use maids_claw.Sessions.Memory
use maids_claw.Sessions.Memory.{Service, close_record, new_service}
use maids_claw.Sessions.Refinement.{IsKeyed, IsWellFormed}
use maids_claw.Sessions.Refinement.Runs.{SessionOp, creates, closes, marks, clears, apply_op}

IsKeyed-set :
    (id : String) (r : SessionRecord) (m : List (String × SessionRecord))
    → r.session_id ≡ id
    → IsKeyed m
    → IsKeyed (set id r m)
IsKeyed-set id r [] same k = (same, tt)
IsKeyed-set id r ((j, q) ∷ m) same (here, k) = elim (Bool-cases (str_eq j id)) [
  | inl at ↦ rw at (same ∙ sym ((eq_iff j id).0 at), k)
  | inr other ↦ rw other (here, IsKeyed-set id r m same k)
]

IsKeyed-close_record :
    (id : String) (now : ℕ) (m : List (String × SessionRecord))
    → IsKeyed m
    → IsKeyed (close_record id now m)
IsKeyed-close_record id now [] k = tt
IsKeyed-close_record id now ((j, q) ∷ m) (here, k) = elim (Bool-cases (str_eq j id)) [
  | inl at ↦ rw at (here, IsKeyed-close_record id now m k)
  | inr other ↦ rw other (here, IsKeyed-close_record id now m k)
]

-- closing changes no key
get-close_record :
    (id k : String) (now : ℕ) (m : List (String × SessionRecord))
    → is_some (get k (close_record id now m)) ≡ is_some (get k m)
get-close_record id k now [] = refl
get-close_record id k now ((j, q) ∷ m) = elim (Bool-cases (str_eq j id)) [
  | inl at ↦ rw at (elim (Bool-cases (str_eq j k)) [
    | inl here ↦ rw here
    | inr away ↦ rw away (get-close_record id k now m)
  ])
  | inr other ↦ rw other (elim (Bool-cases (str_eq j k)) [
    | inl here ↦ rw here
    | inr away ↦ rw away (get-close_record id k now m)
  ])
]

-- fewer sessions to recover, of the same keys
known-remove :
    (id k : String) (s : Service)
    → IsWellFormed s
    → has k (remove id s.recovery_required) ≡ true
    → is_some (get k s.sessions) ≡ true
known-remove id k s wf h =
    let both : (not (str_eq id k) && has k s.recovery_required) ≡ true =
      sym (has-remove id k s.recovery_required) ∙ h in
    wf.known k (ground arith)

pub apply_op-IsWellFormed :
    (op : SessionOp) (s : Service) → IsWellFormed s → IsWellFormed (apply_op op s).1
unfolding apply_op Memory.create_session Memory.close_session Memory.mark_recovery_required
    Memory.clear_recovery_required
apply_op-IsWellFormed (creates id now agent) s wf = record {
  keyed = IsKeyed-set id _ s.sessions refl wf.keyed;
  known = λ k h. ap is_some (get-set id k _ s.sessions) ∙ elim (Bool-cases (str_eq id k)) [
    | inl same ↦ rw same
    | inr other ↦ rw other (wf.known k h)
  ];
}
apply_op-IsWellFormed (closes id now) s wf = elim (Option-cases (get id s.sessions)) [
  | inl missing ↦ rw (missing, Memory.close_session, Memory.get_session) wf
  | inr (r, there) ↦
      rw (there, Memory.close_session, Memory.get_session)
        (record {
          keyed = IsKeyed-close_record id now s.sessions wf.keyed;
          known = λ k h. get-close_record id k now s.sessions ∙ known-remove id k s wf h;
        })
]
apply_op-IsWellFormed (marks id) s wf = elim (Option-cases (get id s.sessions)) [
  | inl missing ↦ rw (missing, Memory.mark_recovery_required, Memory.get_session) wf
  | inr (r, there) ↦
      rw (there, Memory.mark_recovery_required, Memory.get_session)
        (record {
          keyed = wf.keyed;
          known = λ k h. elim (Bool-cases (str_eq id k)) [
            | inl same ↦
                ap (λ i. is_some (get i s.sessions)) (sym ((eq_iff id k).0 same)) ∙ ap is_some there
            | inr other ↦ wf.known k (sym (has-add id k s.recovery_required ∙ rw other) ∙ h)
          ];
        })
]
apply_op-IsWellFormed (clears id) s wf = record {
  keyed = wf.keyed;
  known = λ k h. known-remove id k s wf h;
}
