-- ===== src/State/Index.antt =====
-- The index of the keys of a session, when a key is added or dropped.
use maids_claw.Common.{
  ◌≡◌, refl, sym, ap, ◌∙◌, String, Bool, true, false, not, ◌&&◌, ◌||◌, inl, inr, Option, none, some,
  List, [], ◌∷◌, arith, str_eq, eq_iff, Option-cases, Bool-cases, List-cases, or_else,
}
use maids_claw.Common.Maps.{get, set, has, add, remove, get-set, get-unset, has-add, has-remove}
use maids_claw.State.{drop_key, leave_other}

-- whether the set of a session holds a key
abbrev pub in_set : String → Option (List String) → Bool
in_set key none = false
in_set key (some keys) = has key keys

abbrev pub indexed : String → String → List (String × List String) → Bool
indexed key session index = in_set key (get session index)

pub indexed-drop_key :
    (old key j t : String) (index : List (String × List String))
    → indexed j t (drop_key old key index)
      ≡ (indexed j t index && not (str_eq old t && str_eq key j))
unfolding drop_key
indexed-drop_key old key j t index =
    let here : str_eq old t ≡ true → get t index ≡ get old index =
      λ same. ap (λ k. get k index) (sym ((eq_iff old t).0 same)) in
    elim (Option-cases (get old index)) [
      | inl missing ↦
          rw (missing, drop_key)
            (elim (Bool-cases (str_eq old t)) [
              | inl same ↦ rw (here same ∙ missing)
              | inr other ↦ rw other (ground arith)
            ])
      | inr (keys, there) ↦ elim (List-cases (remove key keys)) [
        | inl empty ↦
            rw (there, drop_key)
              (rw empty (
                ap (in_set j) (get-unset old t index) ∙ elim (Bool-cases (str_eq old t)) [
                  | inl same ↦
                      let gone : (not (str_eq key j) && has j keys) ≡ false =
                        sym (has-remove key j keys) ∙ ap (has j) empty in
                      rw same (rw (here same ∙ there) (ground arith))
                  | inr other ↦ rw other (ground arith)
                ]))
        | inr (x, xs, more) ↦
            rw (there, drop_key)
              (rw more (
                ap (in_set j) (get-set old t (x ∷ xs) index) ∙ elim (Bool-cases (str_eq old t)) [
                  | inl same ↦
                      let left : has j (x ∷ xs) ≡ (not (str_eq key j) && has j keys) =
                        ap (has j) (sym more) ∙ has-remove key j keys in
                      rw same (rw (here same ∙ there) (left ∙ ground arith))
                  | inr other ↦ rw other (ground arith)
                ]))
      ]
    ]

pub indexed-add :
    (s key j t : String) (index : List (String × List String))
    → indexed j t (set s (add key (or_else (get s index) [])) index)
      ≡ ((str_eq s t && str_eq key j) || indexed j t index)
indexed-add s key j t index =
    ap (in_set j) (get-set s t (add key (or_else (get s index) [])) index)
    ∙ elim (Bool-cases (str_eq s t)) [
      | inl same ↦
          let here : get t index ≡ get s index =
            ap (λ k. get k index) (sym ((eq_iff s t).0 same)) in
          rw same (
            rw here (
              has-add key j (or_else (get s index) [])
              ∙ ap (λ b. str_eq key j || b) (or_empty (get s index))))
      | inr other ↦ rw other
    ]
  where
    or_empty : (o : Option (List String)) → has j (or_else o []) ≡ in_set j o
    or_empty none = refl
    or_empty (some keys) = refl

pub leave_else :
    (o : Option String) (s key j t : String) (index : List (String × List String))
    → str_eq key j ≡ false
    → indexed j t (leave_other o s key index) ≡ indexed j t index
unfolding leave_other
leave_else none s key j t index other = refl
leave_else (some old) s key j t index other = elim (Bool-cases (str_eq old s)) [
  | inl same ↦ rw same
  | inr away ↦ rw away (indexed-drop_key old key j t index ∙ rw other (ground arith))
]
