-- ===== src/Sessions/Paging.antt =====
-- The pages of a listing: what follows a cursor is what the page before it left.
use maids_claw.Common.{
  put, sort_by, ℕ, zero, suc, ◌+◌, ◌-◌, ◌≤◌, ◌<◌, ◌≡◌, refl, sym, ap, ◌∙◌, Bool, true, false, not,
  ◌==◌, ◌&&◌, ◌||◌, List, [], ◌∷◌, ◌++◌, Option, none, some, String, str_eq, eq_iff, ltb,
  if◌then◌else◌, Result, ok, throw, map, select, take, drop, length, All, inl, inr, Bool-cases,
  Option-cases, arith, ◌>>=◌, ==_iff,
}
use maids_claw.Sessions.{
  SessionListItem, SessionListParams, SessionListResult, CursorBoundary, CursorPayload,
  SessionFault, Host, is_before_cursor, build_paged_result, decode_cursor_boundary,
  clamp_list_limit, sort_text, encode_cursor, decode_cursor, last_of,
}
use maids_claw.Sessions.Listing.{comes_first, page_of, agent_passes, status_passes}
pub mod Order
pub mod Walk
pub mod Follow
pub mod Database
pub mod Alike

-- the boundary that a page ends at
abbrev pub boundary : SessionListItem → CursorBoundary
boundary item = record { created_at = item.created_at; session_id = item.session_id }

-- what the host promises of its texts: their order is strict and total
pub record OrdersTexts (less : String → String → Bool) : Type 0 where
  pub irreflexive : (s : String) → less s s ≡ false
  pub transitive : (s t u : String) → less s t ≡ true → less t u ≡ true → less s u ≡ true
  pub total : (s t : String) → less s t ≡ false → less t s ≡ false → s ≡ t

-- an item is later in a listing than another
unfoldable pub follows : Host → SessionListItem → SessionListItem → Bool
unfolding is_before_cursor
follows host a b = is_before_cursor host (some (boundary a)) b

abbrev pub IsDescending : Host → List SessionListItem → Type 0
IsDescending host [] = Unit
IsDescending host (x ∷ xs) = All (λ y. follows host x y ≡ true) xs × IsDescending host xs

-- no two sessions have one identifier
abbrev pub IsDistinct : List SessionListItem → Type 0
IsDistinct [] = Unit
IsDistinct (x ∷ xs) =
    All (λ (y : SessionListItem). str_eq x.session_id y.session_id ≡ false) xs × IsDistinct xs

module _ (host : Host) (orders : OrdersTexts host.less) where
  pub follows-irreflexive : (a : SessionListItem) → follows host a a ≡ false
  unfolding follows is_before_cursor
  follows-irreflexive a = ground (arith, orders.irreflexive a.session_id)

  pub follows-asymmetric :
      (a b : SessionListItem) → follows host a b ≡ true → follows host b a ≡ false
  unfolding follows is_before_cursor
  follows-asymmetric a b h = ground (
    arith,
    orders.irreflexive a.session_id,
    orders.transitive a.session_id b.session_id a.session_id,
  )

  pub follows-transitive :
      (a b c : SessionListItem)
      → follows host a b ≡ true
      → follows host b c ≡ true
      → follows host a c ≡ true
  unfolding follows is_before_cursor
  follows-transitive a b c h k =
      ground (arith, orders.transitive c.session_id b.session_id a.session_id)

  pub comes_first_cases :
      (a b : SessionListItem)
      → str_eq a.session_id b.session_id ≡ false
      → comes_first host.less a b ≡ follows host a b
  unfolding follows is_before_cursor comes_first
  comes_first_cases a b apart = ground (
    arith,
    eq_iff a.session_id b.session_id,
    orders.irreflexive a.session_id,
    orders.total a.session_id b.session_id,
    orders.transitive a.session_id b.session_id a.session_id,
  )

  pub not_first :
      (a b : SessionListItem)
      → str_eq a.session_id b.session_id ≡ false
      → follows host a b ≡ false
      → follows host b a ≡ true
  unfolding follows is_before_cursor
  not_first a b apart h = ground (
    arith,
    eq_iff a.session_id b.session_id,
    orders.irreflexive a.session_id,
    orders.total a.session_id b.session_id,
    orders.transitive a.session_id b.session_id a.session_id,
  )
