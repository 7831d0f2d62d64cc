-- ===== src/State/Snapshot.antt =====
-- What a snapshot of the blackboard holds.
use maids_claw.Common.{
  ◌≡◌, refl, sym, ap, ◌∙◌, Bool, true, not, ◌&&◌, ◌||◌, List, [], ◌∷◌, Option, none, some, String,
  str_eq, eq_iff, if◌then◌else◌, select, any_of, All, inl, inr, Bool-cases, Option-cases, arith,
  is_some, put, sort_by,
}
use maids_claw.Common.Maps.{get, has}
use maids_claw.State.{
  Blackboard, is_reserved_key, session_entries, entries_of, key_first, to_snapshot,
}
use maids_claw.State.Index.{in_set, indexed}

module _ {V : Type 0} where
  abbrev has_entry : String → List (String × V) → Bool
  has_entry k m = any_of (λ e. str_eq e.0 k) m

  -- each entry is what the store has under its key
  abbrev IsFrom : List (String × V) → List (String × V) → Type 0
  IsFrom store m = All (λ (e : String × V). get e.0 store ≡ some e.1) m

  get-IsFrom :
      (store m : List (String × V)) (k : String)
      → IsFrom store m
      → get k m ≡ (if has_entry k m then get k store else none)
  get-IsFrom store [] k from = refl
  get-IsFrom store ((j, v) ∷ m) k (here, from) = elim (Bool-cases (str_eq j k)) [
    | inl same ↦ rw same (sym here ∙ ap (λ i. get i store) ((eq_iff j k).0 same))
    | inr other ↦ rw other (get-IsFrom store m k from)
  ]

  module _ (order : String × V → String × V → Bool) (store : List (String × V)) where
    put-IsFrom :
        (e : String × V) (m : List (String × V))
        → get e.0 store ≡ some e.1
        → IsFrom store m
        → IsFrom store (put order e m)
    put-IsFrom e [] here from = (here, tt)
    put-IsFrom e (x ∷ m) here (at, from) = elim (Bool-cases (order e x)) [
      | inl first ↦ rw first (here, (at, from))
      | inr later ↦ rw later (at, put-IsFrom e m here from)
    ]

    sort_by-IsFrom : (m : List (String × V)) → IsFrom store m → IsFrom store (sort_by order m)
    sort_by-IsFrom [] from = tt
    sort_by-IsFrom (e ∷ m) (here, from) =
        put-IsFrom e (sort_by order m) here (sort_by-IsFrom m from)

    has_entry-put :
        (k : String) (e : String × V) (m : List (String × V))
        → has_entry k (put order e m) ≡ (str_eq e.0 k || has_entry k m)
    has_entry-put k e [] = refl
    has_entry-put k e (x ∷ m) = elim (Bool-cases (order e x)) [
      | inl first ↦ rw first
      | inr later ↦ rw later (ap (λ b. str_eq x.0 k || b) (has_entry-put k e m) ∙ ground arith)
    ]

    has_entry-sort_by :
        (k : String) (m : List (String × V)) → has_entry k (sort_by order m) ≡ has_entry k m
    has_entry-sort_by k [] = refl
    has_entry-sort_by k (e ∷ m) =
        has_entry-put k e (sort_by order m) ∙ ap (λ b. str_eq e.0 k || b) (has_entry-sort_by k m)

    -- what the sorted entries of the store hold
    get-sort_by :
        (m : List (String × V)) (k : String)
        → IsFrom store m
        → get k (sort_by order m) ≡ (if has_entry k m then get k store else none)
    get-sort_by m k from =
        get-IsFrom store (sort_by order m) k (sort_by-IsFrom m from)
        ∙ ap (λ b. if b then get k store else none) (has_entry-sort_by k m)

  session_entries-IsFrom :
      (b : Blackboard V) (keys : List String) → IsFrom b.store (session_entries b keys)
  unfolding session_entries
  session_entries-IsFrom b [] = tt
  session_entries-IsFrom b (key ∷ keys) = elim (Bool-cases (is_reserved_key key)) [
    | inl reserved ↦ rw reserved (session_entries-IsFrom b keys)
    | inr free ↦ rw free (elim (Option-cases (get key b.store)) [
      | inl missing ↦ rw missing (session_entries-IsFrom b keys)
      | inr (v, there) ↦ rw there (there, session_entries-IsFrom b keys)
    ])
  ]

  has_entry-session_entries :
      (b : Blackboard V) (keys : List String) (k : String)
      → has_entry k (session_entries b keys)
        ≡ (has k keys && (not (is_reserved_key k) && is_some (get k b.store)))
  unfolding session_entries
  has_entry-session_entries b [] k = refl
  has_entry-session_entries b (key ∷ keys) k =
      let ih = has_entry-session_entries b keys k in
      let same_key : str_eq key k ≡ true → key ≡ k = λ same. (eq_iff key k).0 same in
      elim (Bool-cases (is_reserved_key key)) [
        | inl reserved ↦ rw reserved (
            ih ∙ elim (Bool-cases (str_eq key k)) [
              | inl same ↦
                  rw same (rw (ap is_reserved_key (sym (same_key same)) ∙ reserved) (ground arith))
              | inr other ↦ rw other
            ])
        | inr free ↦ rw free (elim (Option-cases (get key b.store)) [
          | inl missing ↦ rw missing (
              ih ∙ elim (Bool-cases (str_eq key k)) [
                | inl same ↦
                    rw same
                      (rw (ap (λ i. get i b.store) (sym (same_key same)) ∙ missing) (ground arith))
                | inr other ↦ rw other
              ])
          | inr (v, there) ↦ rw there (
              ap (λ x. str_eq key k || x) ih ∙ elim (Bool-cases (str_eq key k)) [
                | inl same ↦ rw same (
                    rw (ap is_reserved_key (sym (same_key same)) ∙ free)
                      (rw (ap (λ i. get i b.store) (sym (same_key same)) ∙ there)))
                | inr other ↦ rw other (ground arith)
              ])
        ])
      ]

  has_entry-select :
      (m : List (String × V)) (k : String)
      → has_entry k (select (λ e. not (is_reserved_key e.0)) m)
        ≡ (not (is_reserved_key k) && has_entry k m)
  has_entry-select [] k = ground arith
  has_entry-select ((j, v) ∷ m) k = elim (Bool-cases (is_reserved_key j)) [
    | inl reserved ↦ rw reserved (
        has_entry-select m k ∙ elim (Bool-cases (str_eq j k)) [
          | inl same ↦
              rw same
                (rw (ap is_reserved_key (sym ((eq_iff j k).0 same)) ∙ reserved) (ground arith))
          | inr other ↦ rw other
        ])
    | inr free ↦ rw free (
        ap (λ x. str_eq j k || x) (has_entry-select m k) ∙ elim (Bool-cases (str_eq j k)) [
          | inl same ↦
              rw same (rw (ap is_reserved_key (sym ((eq_iff j k).0 same)) ∙ free) (ground arith))
          | inr other ↦ rw other (ground arith)
        ])
  ]

  select-IsFrom :
      (store m : List (String × V)) (p : String × V → Bool)
      → IsFrom store m
      → IsFrom store (select p m)
  select-IsFrom store [] p from = tt
  select-IsFrom store (e ∷ m) p (here, from) = elim (Bool-cases (p e)) [
    | inl kept ↦ rw kept (here, select-IsFrom store m p from)
    | inr gone ↦ rw gone (select-IsFrom store m p from)
  ]

  has_entry-none :
      (m : List (String × V)) (k : String) → (if has_entry k m then get k m else none) ≡ get k m
  has_entry-none [] k = refl
  has_entry-none ((j, v) ∷ m) k = elim (Bool-cases (str_eq j k)) [
    | inl same ↦ rw same
    | inr other ↦ rw other (has_entry-none m k)
  ]

  -- Where each key has one entry in the store: a snapshot of a session holds a key with the store's value
  -- exactly if the session's set has the key, its namespace is not reserved, and it is stored; a
  -- snapshot of all holds every stored key whose namespace is not reserved, with its value.
  pub get-to_snapshot :
      (collates : String → String → Bool) (b : Blackboard V)
      → All (λ (e : String × V). get e.0 b.store ≡ some e.1) b.store
      → (session_id k : String)
      → (get k (to_snapshot collates (some session_id) b) ≡ (
          if indexed k session_id b.session_key_index && not (is_reserved_key k)
          then get k b.store
          else none))
        × (get k (to_snapshot collates none b)
            ≡ (if is_reserved_key k then none else get k b.store))
  unfolding to_snapshot
  get-to_snapshot collates b single session_id k = (
    of_session (get session_id b.session_key_index),
    get-sort_by (key_first collates) b.store (select (λ e. not (is_reserved_key e.0)) b.store) k
          (select-IsFrom b.store b.store (λ e. not (is_reserved_key e.0)) single)
        ∙ rw (has_entry-select b.store k) (elim (Bool-cases (is_reserved_key k)) [
          | inl reserved ↦ rw reserved
          | inr free ↦ rw free (has_entry-none b.store k)
        ]),
  )
    where
      of_session :
          (o : Option (List String))
          → get k (sort_by (key_first collates) (entries_of b o))
            ≡ (if in_set k o && not (is_reserved_key k) then get k b.store else none)
      of_session none = refl
      of_session (some keys) =
          get-sort_by (key_first collates) b.store (session_entries b keys) k
            (session_entries-IsFrom b keys)
          ∙ rw (has_entry-session_entries b keys k) (elim (Option-cases (get k b.store)) [
            | inl missing ↦ rw missing (ground arith)
            | inr (v, there) ↦ rw there (ground arith)
          ])
