-- ===== src/Common/Maps.antt =====
-- A `Map` and a `Set` with string keys, as lists in insertion order.
use maids_claw.Common.{
  ◌≡◌, Bool, false, not, ◌&&◌, ◌||◌, List, [], ◌∷◌, Option, none, some, arith, String, str_eq,
  eq_iff, if◌then◌else◌, Bool-cases, ◌⊎◌, inl, inr, sym, ◌∙◌, any_of, select,
}

module _ {ℓ} {A : Type ℓ} where
  abbrev pub get : String → List (String × A) → Option A
  get k [] = none
  get k ((j, a) ∷ m) = if str_eq j k then some a else get k m

  abbrev pub set : String → A → List (String × A) → List (String × A)
  set k a [] = (k, a) ∷ []
  set k a ((j, b) ∷ m) = if str_eq j k then (j, a) ∷ m else (j, b) ∷ set k a m

  -- `delete`
  abbrev pub unset : String → List (String × A) → List (String × A)
  unset k [] = []
  unset k ((j, b) ∷ m) = if str_eq j k then unset k m else (j, b) ∷ unset k m

abbrev pub has : String → List String → Bool
has k xs = any_of (λ x. str_eq x k) xs

abbrev pub add : String → List String → List String
add k [] = k ∷ []
add k (x ∷ xs) = if str_eq x k then x ∷ xs else x ∷ add k xs

abbrev pub remove : String → List String → List String
remove k xs = select (λ x. not (str_eq x k)) xs

module _ {ℓ} {A : Type ℓ} where
  pub get-set :
      (k j : String) (a : A) (m : List (String × A))
      → get j (set k a m) ≡ (if str_eq k j then some a else get j m)
  get-set k j a [] = ground (arith, eq_iff k j)
  get-set k j a ((i, b) ∷ m) = ground (arith, eq_iff k j, eq_iff i k, eq_iff i j, get-set k j a m)

  pub get-unset :
      (k j : String) (m : List (String × A))
      → get j (unset k m) ≡ (if str_eq k j then none else get j m)
  get-unset k j [] = ground (arith, eq_iff k j)
  get-unset k j ((i, b) ∷ m) = ground (arith, eq_iff k j, eq_iff i k, eq_iff i j, get-unset k j m)

  pub unset_cases :
      (k j : String) (m : List (String × A)) {a : A}
      → get j (unset k m) ≡ some a
      → (str_eq k j ≡ false) × (get j m ≡ some a)
  unset_cases k j m {a} h = elim (Bool-cases (str_eq k j)) [
    | inl same ↦ absurd (cc (rw same at (sym (get-unset k j m) ∙ h)))
    | inr other ↦ (other, rw other at (sym (get-unset k j m) ∙ h))
  ]

  pub some_of : {a b : A} → some a ≡ some b → a ≡ b
  some_of {a} {b} e = ground arith

  -- what a key names after a change of the map
  pub get-set_cases :
      (k j : String) (a b : A) (m : List (String × A))
      → get j (set k a m) ≡ some b
      → ((k ≡ j) × (a ≡ b)) ⊎ ((str_eq k j ≡ false) × (get j m ≡ some b))
  get-set_cases k j a b m h = elim (Bool-cases (str_eq k j)) [
    | inl same ↦ inl ((eq_iff k j).0 same, some_of (rw same at (sym (get-set k j a m) ∙ h)))
    | inr other ↦ inr (other, rw other at (sym (get-set k j a m) ∙ h))
  ]

pub has-add : (k j : String) (xs : List String) → has j (add k xs) ≡ (str_eq k j || has j xs)
has-add k j [] = ground (arith, eq_iff k j)
has-add k j (x ∷ xs) = ground (arith, eq_iff k j, eq_iff x k, eq_iff x j, has-add k j xs)

pub has-remove :
    (k j : String) (xs : List String) → has j (remove k xs) ≡ (not (str_eq k j) && has j xs)
has-remove k j [] = ground (arith, eq_iff k j)
has-remove k j (x ∷ xs) =
    ground (arith, eq_iff k j, eq_iff x k, eq_iff x j, eq_iff k x, has-remove k j xs)
