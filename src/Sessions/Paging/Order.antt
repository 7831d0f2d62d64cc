-- ===== src/Sessions/Paging/Order.antt =====
-- Sorting puts the items of a listing in order, and keeps them.
use maids_claw.Common.{
  put, sort_by, ◌≡◌, refl, sym, ap, ◌∙◌, Bool, true, false, List, [], ◌∷◌, ◌++◌, str_eq, All, inl,
  inr, Bool-cases, select, All-imp,
}
use maids_claw.Sessions.{SessionListItem, Host}
use maids_claw.Sessions.Listing.{comes_first}
use maids_claw.Sessions.Paging.{
  OrdersTexts, follows, follows-transitive, follows-asymmetric, follows-irreflexive,
  comes_first_cases, not_first, IsDescending, IsDistinct,
}

abbrev Apart : SessionListItem → SessionListItem → Type 0
Apart x y = str_eq x.session_id y.session_id ≡ false

module _ (host : Host) (orders : OrdersTexts host.less) where
  All-put {κ} :
      (P : SessionListItem → Type κ) (x : SessionListItem) (xs : List SessionListItem)
      → P x
      → All P xs
      → All P (put (comes_first host.less) x xs)
  All-put P x [] p all = (p, tt)
  All-put P x (y ∷ ys) p (q, all) = elim (Bool-cases (comes_first host.less x y)) [
    | inl first ↦ rw first (p, (q, all))
    | inr later ↦ rw later (q, All-put P x ys p all)
  ]

  put-IsDescending :
      (x : SessionListItem) (xs : List SessionListItem)
      → All (Apart x) xs
      → IsDescending host xs
      → IsDescending host (put (comes_first host.less) x xs)
  put-IsDescending x [] apart down = (tt, tt)
  put-IsDescending x (y ∷ ys) (apart, all) (after, down) =
      elim (Bool-cases (comes_first host.less x y)) [
        | inl first ↦
            let next : follows host x y ≡ true =
              sym (comes_first_cases host orders x y apart) ∙ first in
            rw first (
              (
                next,
                All-imp (λ z. follows host y z ≡ true) (λ z. follows host x z ≡ true) ys
                    (λ z h. follows-transitive host orders x y z next h) after,
              ),
              (after, down),
            )
        | inr later ↦
            let next : follows host y x ≡ true =
              not_first host orders x y apart
                (sym (comes_first_cases host orders x y apart) ∙ later) in
            rw later (
              All-put (λ z. follows host y z ≡ true) x ys next after,
              put-IsDescending x ys all down,
            )
      ]

  pub All-sort_by {κ} :
      (P : SessionListItem → Type κ) (xs : List SessionListItem)
      → All P xs
      → All P (sort_by (comes_first host.less) xs)
  All-sort_by P [] all = tt
  All-sort_by P (x ∷ xs) (p, all) =
      All-put P x (sort_by (comes_first host.less) xs) p (All-sort_by P xs all)

  pub sort_by-IsDescending :
      (xs : List SessionListItem)
      → IsDistinct xs
      → IsDescending host (sort_by (comes_first host.less) xs)
  sort_by-IsDescending [] d = tt
  sort_by-IsDescending (x ∷ xs) (apart, d) =
      put-IsDescending x (sort_by (comes_first host.less) xs) (All-sort_by (Apart x) xs apart)
        (sort_by-IsDescending xs d)

  select_all :
      (x : SessionListItem) (xs : List SessionListItem)
      → All (λ y. follows host x y ≡ true) xs
      → select (follows host x) xs ≡ xs
  select_all x [] all = refl
  select_all x (y ∷ ys) (h, all) = rw h (ap (◌∷◌ y) (select_all x ys all))

  -- what follows an item of a list in order is what stands after it
  pub select-follows :
      (xs : List SessionListItem) (x : SessionListItem) (ys : List SessionListItem)
      → IsDescending host (xs ++ x ∷ ys)
      → select (follows host x) (xs ++ x ∷ ys) ≡ ys
  select-follows [] x ys (after, down) =
      rw (follows-irreflexive host orders x) (select_all x ys after)
  select-follows (p ∷ ps) x ys (after, down) =
      rw (follows-asymmetric host orders p x (member ps after)) (select-follows ps x ys down)
    where
      member :
          (qs : List SessionListItem)
          → All (λ z. follows host p z ≡ true) (qs ++ x ∷ ys)
          → follows host p x ≡ true
      member [] (h, all) = h
      member (q ∷ qs) (h, all) = member qs all

pub All-select {κ} :
    (P : SessionListItem → Type κ) (p : SessionListItem → Bool) (xs : List SessionListItem)
    → All P xs
    → All P (select p xs)
All-select P p [] all = tt
All-select P p (x ∷ xs) (h, all) = elim (Bool-cases (p x)) [
  | inl kept ↦ rw kept (h, All-select P p xs all)
  | inr gone ↦ rw gone (All-select P p xs all)
]

pub IsDistinct-select :
    (p : SessionListItem → Bool) (xs : List SessionListItem)
    → IsDistinct xs
    → IsDistinct (select p xs)
IsDistinct-select p [] d = tt
IsDistinct-select p (x ∷ xs) (apart, d) = elim (Bool-cases (p x)) [
  | inl kept ↦ rw kept (All-select (Apart x) p xs apart, IsDistinct-select p xs d)
  | inr gone ↦ rw gone (IsDistinct-select p xs d)
]
