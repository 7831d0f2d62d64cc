-- ===== src/Sessions/Paging/Walk.antt =====
-- Following the cursors of a listing from page to page.
use maids_claw.Common.{
  sort_by, ℕ, zero, suc, ◌≤◌, ◌<◌, ◌≡◌, refl, ap, false, List, [], ◌∷◌, ◌++◌, Option, none, some,
  String, str_eq, ok, select, take, drop, length, arith,
}
use maids_claw.Common.Ints.{ℤ, pos, negsuc}
use maids_claw.Sessions.{
  SessionListItem, SessionListParams, CursorBoundary, CursorPayload, Host, is_before_cursor,
  build_paged_result, decode_cursor_boundary, clamp_list_limit, sort_text, encode_cursor,
  decode_cursor, last_of, cursor_of, max_list_limit,
}
use maids_claw.Sessions.Listing.{comes_first, page_of, agent_passes, status_passes}
use maids_claw.Sessions.Paging.{boundary}

-- the latest time that a date can stand for
abbrev pub latest_date : ℕ
latest_date = 8640000000000000

-- what the host promises: JSON in base64url is read back, and so is the ISO form of a date
pub record ReadsBack (host : Host) : Type 0 where
  pub text : (p : CursorPayload) → host.of_text (host.to_text p) ≡ some p
  pub inhabited : (p : CursorPayload) → str_eq (host.to_text p) "" ≡ false
  pub date : (t : ℕ) → t ≤ latest_date → host.date_parse (host.to_iso t) ≡ some t

-- a session with an identifier, created at a time that a date can stand for
abbrev pub IsDated : SessionListItem → Type 0
IsDated item = (str_eq item.session_id "" ≡ false) × (item.created_at ≤ latest_date)

-- The cursor after an item, for an item with an identifier and a date, is made, and is read back as
-- the boundary at that item, where the host reads back what it writes.
pub cursor_of-decode :
    (host : Host)
    → ReadsBack host
    → (item : SessionListItem) → IsDated item
    → (c : String) × (cursor_of host (some item) ≡ ok (some c))
      × (decode_cursor_boundary host (some c) ≡ ok (some (boundary item)))
unfolding cursor_of encode_cursor decode_cursor_boundary decode_cursor
cursor_of-decode host reads item (named, dated) =
    let p : CursorPayload = record {
      v = 1;
      sort_key = sort_text (host.to_iso item.created_at);
      tie_breaker = item.session_id;
    } in
    (
      host.to_text p,
      rw named,
      rw (reads.inhabited p) (rw (reads.text p) (rw named (rw (reads.date item.created_at dated)))),
    )

-- a page splits before its last item
pub page_split :
    (limit : ℕ) (rest : List SessionListItem)
    → 0 < limit
    → limit < length rest
    → (init : List SessionListItem) × (x : SessionListItem) × (last_of (take limit rest) ≡ some x)
      × (take limit rest ≡ init ++ x ∷ [])
      × (rest ≡ init ++ x ∷ drop limit rest)
page_split zero rest h k = absurd (omega arith)
page_split (suc zero) [] h k = absurd (omega arith)
page_split (suc zero) (x ∷ xs) h k = ([], x, refl, refl, refl)
page_split (suc (suc n)) [] h k = absurd (omega arith)
page_split (suc (suc n)) (y ∷ []) h k = absurd (omega arith)
page_split (suc (suc n)) (y ∷ z ∷ zs) h k =
    let (init, x, last, front, whole) = page_split (suc n) (z ∷ zs) (omega arith) (omega arith) in
    (y ∷ init, x, last, ap (◌∷◌ y) front, ap (◌∷◌ y) whole)

pub clamp_list_limit_lem :
    (limit : Option ℤ) → (0 < clamp_list_limit limit) × (clamp_list_limit limit ≤ max_list_limit)
unfolding clamp_list_limit
clamp_list_limit_lem none = ground arith
clamp_list_limit_lem (some (pos zero)) = ground arith
clamp_list_limit_lem (some (pos (suc n))) = ground arith
clamp_list_limit_lem (some (negsuc n)) = ground arith

abbrev pub flatten : List (List SessionListItem) → List SessionListItem
flatten [] = []
flatten (xs ∷ xss) = xs ++ flatten xss

module _ (host : Host) (params : SessionListParams) (items : List SessionListItem) where
  -- everything that the filters let through, in order
  abbrev pub listed : List SessionListItem
  listed =
      sort_by (comes_first host.less)
        (select (status_passes params.status) (select (agent_passes params.agent_id) items))

  -- the pages that come of asking with this cursor, and then with the cursor of each page
  pub data Walk : Option String → List (List SessionListItem) → Type 0 where
    last_page :
        (cursor : Option String) (page : List SessionListItem)
        → page_of host host.less (record params { cursor = cursor }) items
          ≡ ok (record { items = page; next_cursor = none })
        → Walk cursor (page ∷ [])
    next_page :
        (cursor : Option String) (page : List SessionListItem) (c : String)
        (pages : List (List SessionListItem))
        → page_of host host.less (record params { cursor = cursor }) items
          ≡ ok (record { items = page; next_cursor = some c })
        → Walk (some c) pages
        → Walk cursor (page ∷ pages)

  -- a cursor that stands before these items of the listing
  pub record Before (cursor : Option String) (rest : List SessionListItem) : Type 0 where
    pub at : Option CursorBoundary
    pub decoded : decode_cursor_boundary host cursor ≡ ok at
    pub left : select (is_before_cursor host at) listed ≡ rest

  pub page_of-Before :
      (cursor : Option String) (rest : List SessionListItem)
      → Before cursor rest
      → page_of host host.less (record params { cursor = cursor }) items
        ≡ build_paged_result host rest (clamp_list_limit params.limit)
  unfolding page_of
  page_of-Before cursor rest b =
      rw b.decoded (ap (λ r. build_paged_result host r (clamp_list_limit params.limit)) b.left)
