-- ===== src/Sessions/Paging/Database.antt =====
-- The repository lists the sessions as the service does: `listSessions` of
-- src/storage/domain-repos/pg/session-repo.ts.
use maids_claw.Common.{
  put, sort_by, ℕ, zero, suc, ◌≡◌, refl, sym, ap, ◌∙◌, Bool, true, false, ◌&&◌, List, [], ◌∷◌,
  str_eq, ltb, if◌then◌else◌, map, select, take, length, All, All-imp, inl, inr, Bool-cases, arith,
}
use maids_claw.Sessions.{SessionListItem, Host, build_paged_result}
use maids_claw.Sessions.Listing.{comes_first}
use maids_claw.Sessions.Paging.{
  OrdersTexts, follows, follows-transitive, comes_first_cases, IsDescending, IsDistinct,
}
use maids_claw.Sessions.Paging.Order.{sort_by-IsDescending, All-select, All-sort_by}

module _ {A B : Type 0} (f : A → B) where
  pub map-select :
      (p : A → Bool) (q : B → Bool) (xs : List A)
      → All (λ x. p x ≡ q (f x)) xs
      → map f (select p xs) ≡ select q (map f xs)
  map-select p q [] all = refl
  map-select p q (x ∷ xs) (same, all) = elim (Bool-cases (p x)) [
    | inl kept ↦ rw kept (rw (sym same ∙ kept) (ap (◌∷◌ (f x)) (map-select p q xs all)))
    | inr gone ↦ rw gone (rw (sym same ∙ gone) (map-select p q xs all))
  ]

  map-put :
      (r : A → A → Bool) (s : B → B → Bool)
      → ((x y : A) → r x y ≡ s (f x) (f y))
      → (x : A) (ys : List A) → map f (put r x ys) ≡ put s (f x) (map f ys)
  map-put r s same x [] = refl
  map-put r s same x (y ∷ ys) = elim (Bool-cases (r x y)) [
    | inl first ↦ rw first (rw (sym (same x y) ∙ first))
    | inr later ↦ rw later (rw (sym (same x y) ∙ later) (ap (◌∷◌ (f y)) (map-put r s same x ys)))
  ]

  pub map-sort_by :
      (r : A → A → Bool) (s : B → B → Bool)
      → ((x y : A) → r x y ≡ s (f x) (f y))
      → (xs : List A) → map f (sort_by r xs) ≡ sort_by s (map f xs)
  map-sort_by r s same [] = refl
  map-sort_by r s same (x ∷ xs) =
      map-put r s same x (sort_by r xs) ∙ ap (put s (f x)) (map-sort_by r s same xs)

  pub map-take : (n : ℕ) (xs : List A) → map f (take n xs) ≡ take n (map f xs)
  map-take zero xs = refl
  map-take (suc n) [] = refl
  map-take (suc n) (x ∷ xs) = ap (◌∷◌ (f x)) (map-take n xs)

pub select-select :
    {A : Type 0} (p q : A → Bool) (xs : List A)
    → select q (select p xs) ≡ select (λ x. p x && q x) xs
select-select p q [] = refl
select-select p q (x ∷ xs) = elim (Bool-cases (p x)) [
  | inl h ↦ rw h (ap (λ ys. if q x then x ∷ ys else ys) (select-select p q xs))
  | inr h ↦ rw h (select-select p q xs)
]

take-take : {A : Type 0} (n : ℕ) (xs : List A) → take n (take (suc n) xs) ≡ take n xs
take-take zero xs = refl
take-take (suc n) [] = refl
take-take (suc n) (x ∷ xs) = ap (◌∷◌ x) (take-take n xs)

over-take :
    {A : Type 0} (n : ℕ) (xs : List A) → ltb n (length (take (suc n) xs)) ≡ ltb n (length xs)
over-take n [] = refl
over-take zero (x ∷ xs) = ground arith
over-take (suc n) (x ∷ xs) = ground (arith, over-take n xs)

take-all : {A : Type 0} (n : ℕ) (xs : List A) → ltb n (length xs) ≡ false → take (suc n) xs ≡ xs
take-all n [] h = refl
take-all zero (x ∷ xs) h = absurd (ground arith)
take-all (suc n) (x ∷ xs) h = ap (◌∷◌ x) (take-all n xs (ground arith))

-- one item more than the page holds is enough to build it
pub build-take :
    (host : Host) (items : List SessionListItem) (limit : ℕ)
    → build_paged_result host (take (suc limit) items) limit ≡ build_paged_result host items limit
unfolding build_paged_result
build-take host items limit = elim (Bool-cases (ltb limit (length items))) [
  | inl over ↦ rw (over-take limit items ∙ over) (rw over (rw (take-take limit items)))
  | inr fits ↦ ap (λ xs. build_paged_result host xs limit) (take-all limit items fits)
]

module _ (host : Host) (orders : OrdersTexts host.less) where
  put_front :
      (x : SessionListItem) (ys : List SessionListItem)
      → All (λ y. follows host x y ≡ true) ys
      → All (λ (y : SessionListItem). str_eq x.session_id y.session_id ≡ false) ys
      → put (comes_first host.less) x ys ≡ x ∷ ys
  put_front x [] after apart = refl
  put_front x (y ∷ ys) (a, after) (b, apart) = rw (comes_first_cases host orders x y b ∙ a)

  select-put :
      (p : SessionListItem → Bool) (x : SessionListItem) (ys : List SessionListItem)
      → All (λ (y : SessionListItem). str_eq x.session_id y.session_id ≡ false) ys
      → IsDescending host ys
      → select p (put (comes_first host.less) x ys)
        ≡ (if p x then put (comes_first host.less) x (select p ys) else select p ys)
  select-put p x [] apart down = refl
  select-put p x (y ∷ ys) (b, apart) (after, down) = elim (Bool-cases (comes_first host.less x y)) [
    | inr later ↦ rw later (elim (Bool-cases (p y)) [
      | inl kept ↦ rw kept (
          rw (select-put p x ys apart down)
            (elim (Bool-cases (p x)) [ inl px ↦ rw px (rw later) | inr qx ↦ rw qx ]))
      | inr gone ↦ rw gone (select-put p x ys apart down)
    ])
    | inl first ↦
        let next : follows host x y ≡ true = sym (comes_first_cases host orders x y b) ∙ first in
        let rest : All (λ z. follows host x z ≡ true) ys =
          All-imp (λ z. follows host y z ≡ true) (λ z. follows host x z ≡ true) ys
            (λ z h. follows-transitive host orders x y z next h) after in
        rw first (elim (Bool-cases (p x)) [
          | inr qx ↦ rw qx
          | inl px ↦ rw px (elim (Bool-cases (p y)) [
            | inl kept ↦ rw kept (rw first)
            | inr gone ↦ rw gone (
                sym (
                  put_front x (select p ys) (All-select (λ z. follows host x z ≡ true) p ys rest) (
                    All-select (λ (z : SessionListItem). str_eq x.session_id z.session_id ≡ false) p
                      ys apart)))
          ])
        ])
  ]

  -- filtering after sorting is sorting after filtering
  pub select-sort_by :
      (p : SessionListItem → Bool) (xs : List SessionListItem)
      → IsDistinct xs
      → select p (sort_by (comes_first host.less) xs)
        ≡ sort_by (comes_first host.less) (select p xs)
  select-sort_by p [] d = refl
  select-sort_by p (x ∷ xs) (apart, d) =
      select-put p x (sort_by (comes_first host.less) xs)
        (All-sort_by host orders (λ (z : SessionListItem). str_eq x.session_id z.session_id ≡ false)
          xs apart)
        (sort_by-IsDescending host orders xs d)
      ∙ elim (Bool-cases (p x)) [
        | inl px ↦ rw px (ap (put (comes_first host.less) x) (select-sort_by p xs d))
        | inr qx ↦ rw qx (select-sort_by p xs d)
      ]
