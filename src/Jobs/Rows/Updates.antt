-- ===== src/Jobs/Rows/Updates.antt =====
-- How an `UPDATE … WHERE` acts on the rows of a table, on one key and on predicates over all rows.
use maids_claw.Common.{
  ◌≡◌, refl, Bool, true, false, Option, none, some, List, [], ◌∷◌, ◌++◌, String, str_eq, eq_iff,
  if◌then◌else◌, find_first, any_of, All, Bool-cases, inl, inr, arith,
}
use mathlib.Core.Path.{subst}
use maids_claw.Jobs.Rows.{PgJobCurrentRow, update_where, has_key}

abbrev pub Row : Type 0
Row = PgJobCurrentRow

module _ {ℓ} {A : Type ℓ} where
  pub All-update_where {κ} :
      (P : A → Type κ) (p : A → Bool) (f : A → A) (xs : List A)
      → ((x : A) → p x ≡ true → P x → P (f x))
      → All P xs
      → All P (update_where p f xs)
  All-update_where P p f [] h a = tt
  All-update_where P p f (x ∷ xs) h (px, a) = elim (Bool-cases (p x)) [
    | inl hit ↦ rw hit (h x hit px, All-update_where P p f xs h a)
    | inr miss ↦ rw miss (px, All-update_where P p f xs h a)
  ]

  -- An update that no row meets changes nothing.
  pub update_where_none :
      (p : A → Bool) (f : A → A) (xs : List A) → any_of p xs ≡ false → update_where p f xs ≡ xs
  update_where_none p f [] h = refl
  update_where_none p f (x ∷ xs) h = ground (arith, update_where_none p f xs)

  pub any_of_found : (p : A → Bool) (xs : List A) → find_first p xs ≡ none → any_of p xs ≡ false
  any_of_found p [] h = refl
  any_of_found p (x ∷ xs) h = ground (arith, any_of_found p xs)

  pub found_passes : (p : A → Bool) (xs : List A) {a : A} → find_first p xs ≡ some a → p a ≡ true
  found_passes p [] h = cc
  found_passes p (x ∷ xs) {a} h = ground (arith, found_passes p xs {a = a})

  pub All_found {κ} :
      (P : A → Type κ) (p : A → Bool) (xs : List A) {a : A}
      → All P xs
      → find_first p xs ≡ some a
      → P a
  All_found P p [] h e = cc
  All_found P p (x ∷ xs) {a} (px, h) e = elim (Bool-cases (p x)) [
    | inl hit ↦ subst P (ground arith) px
    | inr miss ↦ All_found P p xs h (rw miss at e)
  ]

  pub find_first-append :
      (p : A → Bool) (xs ys : List A) {a : A}
      → find_first p xs ≡ some a
      → find_first p (xs ++ ys) ≡ some a
  find_first-append p [] ys h = cc
  find_first-append p (x ∷ xs) ys {a} h = ground (arith, find_first-append p xs ys {a = a})

  pub find_first-append_none :
      (p : A → Bool) (xs ys : List A)
      → find_first p xs ≡ none
      → find_first p (xs ++ ys) ≡ find_first p ys
  find_first-append_none p [] ys h = refl
  find_first-append_none p (x ∷ xs) ys h = ground (arith, find_first-append_none p xs ys)

-- an update keeps keys if the changed row has the key of the old one
abbrev pub KeepsKey : (Row → Row) → Type 0
KeepsKey f = (r : Row) → (f r).job_key ≡ r.job_key

abbrev pub after : (Row → Bool) → (Row → Row) → Option Row → Option Row
after p f none = none
after p f (some r) = some (if p r then f r else r)

-- The row of a key after an update is the updated row of that key.
pub row_of-update_where :
    (k : String) (p : Row → Bool) (f : Row → Row) (xs : List Row)
    → KeepsKey f
    → find_first (has_key k) (update_where p f xs) ≡ after p f (find_first (has_key k) xs)
row_of-update_where k p f [] keeps = refl
row_of-update_where k p f (x ∷ xs) keeps = elim (Bool-cases (p x)) [
  | inl hit ↦ ground (arith, keeps x, row_of-update_where k p f xs keeps)
  | inr miss ↦ ground (arith, row_of-update_where k p f xs keeps)
]

-- no row has the key
abbrev pub NoKey : String → List Row → Type 0
NoKey k xs = any_of (has_key k) xs ≡ false

-- the primary key
abbrev pub UniqueKeys : List Row → Type 0
UniqueKeys [] = Unit
UniqueKeys (r ∷ rs) = NoKey r.job_key rs × UniqueKeys rs

pub NoKey-update_where :
    (k : String) (p : Row → Bool) (f : Row → Row) (xs : List Row)
    → KeepsKey f
    → NoKey k xs
    → NoKey k (update_where p f xs)
NoKey-update_where k p f [] keeps h = refl
NoKey-update_where k p f (x ∷ xs) keeps h =
    ground (arith, keeps x, NoKey-update_where k p f xs keeps)

pub UniqueKeys-update_where :
    (p : Row → Bool) (f : Row → Row) (xs : List Row)
    → KeepsKey f
    → UniqueKeys xs
    → UniqueKeys (update_where p f xs)
UniqueKeys-update_where p f [] keeps h = tt
UniqueKeys-update_where p f (x ∷ xs) keeps (fresh, h) =
    let kept = NoKey-update_where x.job_key p f xs keeps fresh in
    let rest = UniqueKeys-update_where p f xs keeps h in
    elim (Bool-cases (p x)) [
      | inl hit ↦ rw (hit, keeps x) (kept, rest)
      | inr miss ↦ rw miss (kept, rest)
    ]

pub NoKey-append_one :
    (k : String) (xs : List Row) (r : Row)
    → NoKey k xs
    → str_eq r.job_key k ≡ false
    → NoKey k (xs ++ r ∷ [])
NoKey-append_one k [] r h n = rw n
NoKey-append_one k (x ∷ xs) r h n = ground (arith, NoKey-append_one k xs r)

pub UniqueKeys-append_one :
    (xs : List Row) (r : Row) → UniqueKeys xs → NoKey r.job_key xs → UniqueKeys (xs ++ r ∷ [])
UniqueKeys-append_one [] r h n = (refl, tt)
UniqueKeys-append_one (x ∷ xs) r (fresh, h) n = (
  NoKey-append_one x.job_key xs r fresh
      (ground (arith, eq_iff x.job_key r.job_key, eq_iff r.job_key x.job_key)),
  UniqueKeys-append_one xs r h (ground arith),
)

pub found_has_key :
    (p : Row → Bool) (xs : List Row) (k : String) {a : Row}
    → NoKey k xs
    → find_first p xs ≡ some a
    → str_eq a.job_key k ≡ false
found_has_key p [] k n e = cc
found_has_key p (x ∷ xs) k {a} n e = ground (arith, found_has_key p xs k {a = a})

-- With unique keys, a row that is found by any test is the row of its key.
pub row_of_found :
    (p : Row → Bool) (xs : List Row) {a : Row}
    → UniqueKeys xs
    → find_first p xs ≡ some a
    → find_first (has_key a.job_key) xs ≡ some a
row_of_found p [] u e = cc
row_of_found p (x ∷ xs) {a} (fresh, u) e = elim (Bool-cases (p x)) [
  | inl hit ↦
      let same : x ≡ a = ground arith in
      subst (λ b. find_first (has_key b.job_key) (x ∷ xs) ≡ some b) same
        (rw ((eq_iff x.job_key x.job_key).1 refl))
  | inr miss ↦
      let later : find_first p xs ≡ some a = rw miss at e in
      ground (
        arith,
        found_has_key p xs x.job_key fresh later,
        row_of_found p xs u later,
        eq_iff x.job_key a.job_key,
        eq_iff a.job_key x.job_key,
      )
]
