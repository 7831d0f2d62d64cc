-- ===== src/State/Agreement.antt =====
-- The two indexes by session agree, whatever is stored and deleted.
use maids_claw.Common.{
  ◌≡◌, refl, sym, ap, ◌∙◌, String, true, false, not, ◌&&◌, inl, inr, Option, none, some, [], arith,
  str_eq, eq_iff, Option-cases, Bool-cases, is_some,
}
use maids_claw.Common.Maps.{get, set, unset, get-set, get-unset, unset_cases, some_of}
use maids_claw.State.{
  Blackboard, drop_key, leave_other, assign_key_to_session, remove_key_from_session_index,
  store_value, delete_value,
}
use maids_claw.State.Index.{indexed, indexed-drop_key, indexed-add, leave_else}

-- the sets of the sessions hold a key exactly where the other index names the session, and such a key
-- is stored
pub record Agrees {V : Type 0} (b : Blackboard V) : Type 0 where
  pub listed :
      (key s : String)
      → indexed key s b.session_key_index ≡ true
      → get key b.key_session_index ≡ some s
  pub named :
      (key s : String)
      → get key b.key_session_index ≡ some s
      → indexed key s b.session_key_index ≡ true
  pub stored :
      (key s : String) → get key b.key_session_index ≡ some s → is_some (get key b.store) ≡ true

-- a new `Blackboard`
abbrev pub empty_board : {V : Type 0} → Blackboard V
empty_board = record { store = []; session_key_index = []; key_session_index = [] }

pub empty_board-Agrees : {V : Type 0} → Agrees (empty_board {V = V})
empty_board-Agrees = record {
  listed = λ j t h. absurd (cc);
  named = λ j t h. absurd (cc);
  stored = λ j t h. absurd (cc);
}

module _ {V : Type 0} where
  leave_same :
      (b : Blackboard V) (s key t : String)
      → Agrees b
      → str_eq s t ≡ false
      → indexed key t (leave_other (get key b.key_session_index) s key b.session_key_index) ≡ false
  unfolding leave_other
  leave_same b s key t ok away = elim (Option-cases (get key b.key_session_index)) [
    | inl missing ↦
        rw (missing, leave_other)
          (elim (Bool-cases (indexed key t b.session_key_index)) [
            | inl here ↦ absurd (cc (ok.listed key t here))
            | inr gone ↦ gone
          ])
    | inr (old, there) ↦ elim (Bool-cases (indexed key t b.session_key_index)) [
      | inl here ↦
          let one : some old ≡ some t = sym there ∙ ok.listed key t here in
          let same : str_eq old t ≡ true = (eq_iff old t).1 (some_of one) in
          let apart : str_eq old s ≡ false =
            ground (arith, eq_iff old s, eq_iff old t, eq_iff s t) in
          rw (there, leave_other)
            (rw apart
              (indexed-drop_key old key key t b.session_key_index ∙ ground (arith, eq_iff key key)))
      | inr gone ↦
          rw (there, leave_other)
            (elim (Bool-cases (str_eq old s)) [
              | inl same ↦ rw same gone
              | inr apart ↦ rw apart (indexed-drop_key old key key t b.session_key_index ∙ rw gone)
            ])
    ]
  ]

  assign_key_to_session-Agrees :
      (key s : String) (b : Blackboard V)
      → Agrees b
      → is_some (get key b.store) ≡ true
      → Agrees (assign_key_to_session key s b)
  unfolding assign_key_to_session
  assign_key_to_session-Agrees key s b ok kept =
      let index = leave_other (get key b.key_session_index) s key b.session_key_index in
      record {
        listed = λ j t h. elim (Bool-cases (str_eq key j)) [
          | inl same ↦ elim (Bool-cases (str_eq s t)) [
            | inl mine ↦
                get-set key j s b.key_session_index ∙ rw same (ap some ((eq_iff s t).0 mine))
            | inr away ↦
                let i : indexed j t index ≡ true =
                  sym (indexed-add s key j t index ∙ rw away) ∙ h in
                absurd (
                  cc (
                    sym i
                    ∙ ap (λ k. indexed k t index) (sym ((eq_iff key j).0 same))
                    ∙ leave_same b s key t ok away))
          ]
          | inr other ↦
              let i : indexed j t index ≡ true =
                sym (indexed-add s key j t index ∙ rw other (ground arith)) ∙ h in
              get-set key j s b.key_session_index
              ∙ rw other (
                  ok.listed j t (
                    sym
                      (leave_else (get key b.key_session_index) s key j t b.session_key_index other)
                    ∙ i))
        ];
        named = λ j t h. elim (Bool-cases (str_eq key j)) [
          | inl same ↦
              let one : some s ≡ some t =
                rw same at (sym (get-set key j s b.key_session_index) ∙ h) in
              indexed-add s key j t index ∙ rw same (rw ((eq_iff s t).1 (some_of one)))
          | inr other ↦
              let old : get j b.key_session_index ≡ some t =
                rw other at (sym (get-set key j s b.key_session_index) ∙ h) in
              indexed-add s key j t index
              ∙ rw other (
                  rw
                    (leave_else (get key b.key_session_index) s key j t b.session_key_index other
                      ∙ ok.named j t old)
                    (ground arith))
        ];
        stored = λ j t h. elim (Bool-cases (str_eq key j)) [
          | inl same ↦ ap (λ k. is_some (get k b.store)) (sym ((eq_iff key j).0 same)) ∙ kept
          | inr other ↦ ok.stored j t (rw other at (sym (get-set key j s b.key_session_index) ∙ h))
        ];
      }

  wider :
      (key : String) (value : V) (b : Blackboard V)
      → Agrees b
      → Agrees (record b { store = set key value b.store })
  wider key value b ok = record {
    listed = ok.listed;
    named = ok.named;
    stored = λ j t h. ap is_some (get-set key j value b.store) ∙ elim (Bool-cases (str_eq key j)) [
      | inl same ↦ rw same
      | inr other ↦ rw other (ok.stored j t h)
    ];
  }

  -- the tables after a key is deleted that has a session
  delete_indexed :
      (key session : String) (b : Blackboard V)
      → Agrees b
      → get key b.key_session_index ≡ some session
      → Agrees (record b {
        store = unset key b.store;
        session_key_index = drop_key session key b.session_key_index;
        key_session_index = unset key b.key_session_index;
      })
  delete_indexed key session b ok there = record {
    listed = λ j t h.
        let both : (indexed j t b.session_key_index && not (str_eq session t && str_eq key j))
            ≡ true =
          sym (indexed-drop_key session key j t b.session_key_index) ∙ h in
        let old : get j b.key_session_index ≡ some t = ok.listed j t (ground arith) in
        elim (Bool-cases (str_eq key j)) [
          | inl same ↦
              let one : some session ≡ some t =
                sym there ∙ ap (λ k. get k b.key_session_index) ((eq_iff key j).0 same) ∙ old in
              let mine : str_eq session t ≡ true = (eq_iff session t).1 (some_of one) in
              absurd (ground arith)
          | inr other ↦ get-unset key j b.key_session_index ∙ rw other old
        ];
    named = λ j t h.
        let (other, old) = unset_cases key j b.key_session_index h in
        indexed-drop_key session key j t b.session_key_index
        ∙ rw (ok.named j t old) (rw other (ground arith));
    stored = λ j t h.
        let (other, old) = unset_cases key j b.key_session_index h in
        ap is_some (get-unset key j b.store) ∙ rw other (ok.stored j t old);
  }

  pub delete_value-Agrees :
      (key : String) (b : Blackboard V) → Agrees b → Agrees (delete_value key b).1
  unfolding delete_value remove_key_from_session_index
  delete_value-Agrees key b ok = elim (Option-cases (get key b.store)) [
    | inl missing ↦ rw (missing, delete_value) ok
    | inr (v, there) ↦ elim (Option-cases (get key b.key_session_index)) [
      | inr (session, at) ↦
          rw (there, delete_value)
            (rw (at, remove_key_from_session_index) (delete_indexed key session b ok at))
      | inl nowhere ↦
          rw (there, delete_value)
            (rw (nowhere, remove_key_from_session_index)
              (record {
                listed = ok.listed;
                named = ok.named;
                stored = λ j t h. elim (Bool-cases (str_eq key j)) [
                  | inl same ↦ absurd (
                      cc (
                        sym nowhere
                        ∙ ap (λ k. get k b.key_session_index) ((eq_iff key j).0 same)
                        ∙ h))
                  | inr other ↦ ap is_some (get-unset key j b.store) ∙ rw other (ok.stored j t h)
                ];
              }))
    ]
  ]

  pub store_value-Agrees :
      (key : String) (value : V) (session : Option String) (b : Blackboard V)
      → Agrees b
      → Agrees (store_value key value session b)
  unfolding store_value
  store_value-Agrees key value none b ok = wider key value b ok
  store_value-Agrees key value (some s) b ok =
      assign_key_to_session-Agrees key s (record b { store = set key value b.store })
        (wider key value b ok)
        (ap is_some (get-set key key value b.store) ∙ rw ((eq_iff key key).1 refl))
