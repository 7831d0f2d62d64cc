-- ===== src/State/Guards.antt =====
-- Who may change a key, and what every sequence of calls keeps.
use maids_claw.Common.{
  sym, if◌then◌else◌, ◌≡◌, refl, ap, ◌∙◌, String, Bool, true, false, ◌⊎◌, inl, inr, Option, none,
  some, List, [], ◌∷◌, arith, str_eq, eq_iff, Option-cases, Bool-cases, Result, ok, throw,
  Result-cases, All,
}
use maids_claw.Common.Maps.{get, get-set, get-unset}
use maids_claw.State.{
  Blackboard, NamespaceDefinition, BoardFault, namespace_reserved, resolve_namespace, validate_key,
  validate_ownership, is_writer, store_value, delete_value, set_key, delete_key,
  assign_key_to_session, remove_key_from_session_index,
}
use maids_claw.State.Agreement.{Agrees, store_value-Agrees, delete_value-Agrees}

pub data BoardOp (V : Type 0) : Type 0 where
  sets : (key : String) → V → (caller session : Option String) → BoardOp V
  deletes : (key : String) → (caller : Option String) → BoardOp V

-- what lets a call through
data Passes (key : String) (caller : Option String) : Type 0 where
  passes :
      (ns : NamespaceDefinition)
      → validate_key key ≡ ok ns
      → validate_ownership ns caller ≡ ok tt
      → Passes key caller

-- the namespace is reserved, or another than its one writer calls
abbrev pub IsBarred : NamespaceDefinition → Option String → Type 0
IsBarred ns caller =
    (ns.reserved ≡ true)
    ⊎ ((w : String) × ((ns.single_writer ≡ some w) × (is_writer caller w ≡ false)))

barred :
    (key : String) (ns : NamespaceDefinition) (caller : Option String)
    → resolve_namespace key ≡ some ns
    → IsBarred ns caller
    → Passes key caller
    → ⊥
unfolding validate_key validate_ownership
barred key ns caller there (inl reserved) (passes ns' good owned) =
    cc (rw reserved at (rw (there, validate_key) at good))
barred key ns caller there (inr (w, (one, other))) (passes ns' good owned) =
    elim (Bool-cases ns.reserved) [
      | inl reserved ↦ cc (rw reserved at (rw (there, validate_key) at good))
      | inr free ↦
          let pass : validate_key key ≡ (if ns.reserved then throw namespace_reserved else ok ns) =
            rw (there, validate_key) in
          let same : ns ≡ ns' =
            ok_of
              (sym (pass ∙ ap (λ r. if r then throw namespace_reserved else ok ns) free) ∙ good) in
          let mine : validate_ownership ns caller ≡ ok tt =
            ap (λ n. validate_ownership n caller) same ∙ owned in
          cc (rw other at (rw (one, validate_ownership) at mine))
    ]
  where
    ok_of :
        {a b : NamespaceDefinition}
        → Path (Result BoardFault NamespaceDefinition) (ok a) (ok b)
        → a ≡ b
    ok_of {a} {b} e = ground arith

module _ {V : Type 0} where
  abbrev pub written : Blackboard V → Result BoardFault (Blackboard V) → Blackboard V
  written b (ok b') = b'
  written b (throw e) = b

  abbrev pub deleted : Blackboard V → Result BoardFault (Bool × Blackboard V) → Blackboard V
  deleted b (ok (d, b')) = b'
  deleted b (throw e) = b

  -- one call; one that throws changes nothing
  unfoldable pub apply_op : BoardOp V → Blackboard V → Blackboard V
  unfolding set_key delete_key
  apply_op (sets key value caller session) b = written b (set_key key value caller session b)
  apply_op (deletes key caller) b = deleted b (delete_key key caller b)

  unfoldable pub run : List (BoardOp V) → Blackboard V → Blackboard V
  unfolding apply_op
  run [] b = b
  run (o ∷ os) b = run os (apply_op o b)

  abbrev pub caller_of : BoardOp V → Option String
  caller_of (sets key value caller session) = caller
  caller_of (deletes key caller) = caller

  abbrev pub key_of : BoardOp V → String
  key_of (sets key value caller session) = key
  key_of (deletes key caller) = key

  -- A call changes nothing, or its key and its caller have passed the checks.
  apply_op_cases :
      (o : BoardOp V) (b : Blackboard V) → (apply_op o b ≡ b) ⊎ Passes (key_of o) (caller_of o)
  unfolding apply_op set_key delete_key
  apply_op_cases (sets key value caller session) b = elim (Result-cases (validate_key key)) [
    | inr (e, bad) ↦ inl (rw bad)
    | inl (ns, good) ↦ elim (Result-cases (validate_ownership ns caller)) [
      | inr (e, bad) ↦ inl (rw good (rw bad))
      | inl (tt, owned) ↦ inr (passes ns good owned)
    ]
  ]
  apply_op_cases (deletes key caller) b = elim (Result-cases (validate_key key)) [
    | inr (e, bad) ↦ inl (rw bad)
    | inl (ns, good) ↦ elim (Result-cases (validate_ownership ns caller)) [
      | inr (e, bad) ↦ inl (rw good (rw bad))
      | inl (tt, owned) ↦ inr (passes ns good owned)
    ]
  ]

  store_value_else :
      (key k : String) (value : V) (session : Option String) (b : Blackboard V)
      → str_eq key k ≡ false
      → get k (store_value key value session b).store ≡ get k b.store
  unfolding store_value assign_key_to_session
  store_value_else key k value none b other = get-set key k value b.store ∙ rw other
  store_value_else key k value (some s) b other = get-set key k value b.store ∙ rw other

  delete_value_else :
      (key k : String) (b : Blackboard V)
      → str_eq key k ≡ false
      → get k (delete_value key b).1.store ≡ get k b.store
  unfolding delete_value remove_key_from_session_index
  delete_value_else key k b other = elim (Option-cases (get key b.store)) [
    | inl missing ↦ rw (missing, delete_value)
    | inr (v, there) ↦ elim (Option-cases (get key b.key_session_index)) [
      | inl nowhere ↦
          rw (there, delete_value)
            (rw (nowhere, remove_key_from_session_index) (get-unset key k b.store ∙ rw other))
      | inr (s, at) ↦
          rw (there, delete_value)
            (rw (at, remove_key_from_session_index) (get-unset key k b.store ∙ rw other))
    ]
  ]

  apply_op_else :
      (o : BoardOp V) (k : String) (b : Blackboard V)
      → str_eq (key_of o) k ≡ false
      → get k (apply_op o b).store ≡ get k b.store
  unfolding apply_op set_key delete_key
  apply_op_else (sets key value caller session) k b other = elim (Result-cases (validate_key key)) [
    | inr (e, bad) ↦ rw bad
    | inl (ns, good) ↦ elim (Result-cases (validate_ownership ns caller)) [
      | inr (e, bad) ↦ rw good (rw bad)
      | inl (tt, owned) ↦ rw good (rw owned (store_value_else key k value session b other))
    ]
  ]
  apply_op_else (deletes key caller) k b other = elim (Result-cases (validate_key key)) [
    | inr (e, bad) ↦ rw bad
    | inl (ns, good) ↦ elim (Result-cases (validate_ownership ns caller)) [
      | inr (e, bad) ↦ rw good (rw bad)
      | inl (tt, owned) ↦ rw good (rw owned (delete_value_else key k b other))
    ]
  ]

  apply_op_barred :
      (o : BoardOp V) (k : String) (ns : NamespaceDefinition) (b : Blackboard V)
      → resolve_namespace k ≡ some ns
      → IsBarred ns (caller_of o)
      → get k (apply_op o b).store ≡ get k b.store
  apply_op_barred o k ns b there bar = elim (apply_op_cases o b) [
    | inl same ↦ ap (λ (c : Blackboard V). get k c.store) same
    | inr through ↦ elim (Bool-cases (str_eq (key_of o) k)) [
      | inr other ↦ apply_op_else o k b other
      | inl same ↦
          let here : resolve_namespace (key_of o) ≡ some ns =
            ap resolve_namespace ((eq_iff (key_of o) k).0 same) ∙ there in
          absurd (barred (key_of o) ns (caller_of o) here bar through)
    ]
  ]

  -- No sequence of writes and deletes changes the value of a key whose namespace is reserved, or has one
  -- writer who makes none of the calls.
  pub run_protects :
      (os : List (BoardOp V)) (k : String) (ns : NamespaceDefinition) (b : Blackboard V)
      → resolve_namespace k ≡ some ns
      → All (λ o. IsBarred ns (caller_of o)) os
      → get k (run os b).store ≡ get k b.store
  unfolding run
  run_protects [] k ns b there bars = refl
  run_protects (o ∷ os) k ns b there (bar, bars) =
      run_protects os k ns (apply_op o b) there bars ∙ apply_op_barred o k ns b there bar

  apply_op-Agrees : (o : BoardOp V) (b : Blackboard V) → Agrees b → Agrees (apply_op o b)
  unfolding apply_op set_key delete_key
  apply_op-Agrees (sets key value caller session) b good = elim (Result-cases (validate_key key)) [
    | inr (e, bad) ↦ rw bad good
    | inl (ns, known) ↦ elim (Result-cases (validate_ownership ns caller)) [
      | inr (e, bad) ↦ rw known (rw bad good)
      | inl (tt, owned) ↦ rw known (rw owned (store_value-Agrees key value session b good))
    ]
  ]
  apply_op-Agrees (deletes key caller) b good = elim (Result-cases (validate_key key)) [
    | inr (e, bad) ↦ rw bad good
    | inl (ns, known) ↦ elim (Result-cases (validate_ownership ns caller)) [
      | inr (e, bad) ↦ rw known (rw bad good)
      | inl (tt, owned) ↦ rw known (rw owned (delete_value-Agrees key b good))
    ]
  ]

  -- Writes and deletes, allowed or refused, keep the two indexes by session in agreement: the set of a
  -- session holds a key exactly where the other index names that session, and such a key is stored.
  pub run-Agrees : (os : List (BoardOp V)) (b : Blackboard V) → Agrees b → Agrees (run os b)
  unfolding run
  run-Agrees [] b good = good
  run-Agrees (o ∷ os) b good = run-Agrees os (apply_op o b) (apply_op-Agrees o b good)
