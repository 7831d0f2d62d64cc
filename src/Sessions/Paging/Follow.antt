-- ===== src/Sessions/Paging/Follow.antt =====
-- Following the cursors of a listing to its last page.
use maids_claw.Common.{
  ℕ, zero, suc, ◌≤◌, ◌≡◌, refl, sym, ap, ◌∙◌, false, List, [], ◌∷◌, ◌++◌, Option, none, some,
  String, ltb, select, take, drop, length, All, inl, inr, Bool-cases, arith, length-drop, ltb→lt,
  ltb→le,
}
use maids_claw.Sessions.{
  SessionListItem, SessionListParams, Host, is_before_cursor, build_paged_result,
  decode_cursor_boundary, clamp_list_limit,
}
use maids_claw.Sessions.Listing.{agent_passes, status_passes}
use maids_claw.Sessions.Paging.{OrdersTexts, boundary, IsDescending, IsDistinct, follows}
use maids_claw.Sessions.Paging.Order.{
  sort_by-IsDescending, select-follows, IsDistinct-select, All-select, All-sort_by,
}
use maids_claw.Sessions.Paging.Walk.{
  ReadsBack, IsDated, cursor_of-decode, page_split, clamp_list_limit_lem, flatten, listed, Walk,
  last_page, next_page, Before, page_of-Before,
}

append_assoc : (xs ys zs : List SessionListItem) → (xs ++ ys) ++ zs ≡ xs ++ (ys ++ zs)
append_assoc [] ys zs = refl
append_assoc (x ∷ xs) ys zs = ap (◌∷◌ x) (append_assoc xs ys zs)

append_nil : (xs : List SessionListItem) → xs ++ [] ≡ xs
append_nil [] = refl
append_nil (x ∷ xs) = ap (◌∷◌ x) (append_nil xs)

length-take : (n : ℕ) (xs : List SessionListItem) → length (take n xs) ≤ n
length-take zero xs = omega arith
length-take (suc n) [] = omega arith
length-take (suc n) (x ∷ xs) = omega (arith, length-take n xs)

All_middle {κ} :
    (P : SessionListItem → Type κ) (xs : List SessionListItem) (x : SessionListItem)
    (ys : List SessionListItem)
    → All P (xs ++ x ∷ ys)
    → P x
All_middle P [] x ys (p, all) = p
All_middle P (z ∷ zs) x ys (p, all) = All_middle P zs x ys all

select_all : (host : Host) (xs : List SessionListItem) → select (is_before_cursor host none) xs ≡ xs
unfolding is_before_cursor
select_all host [] = refl
select_all host (x ∷ xs) = ap (◌∷◌ x) (select_all host xs)

module _ (host : Host) (orders : OrdersTexts host.less) (reads : ReadsBack host)
    (params : SessionListParams) (items : List SessionListItem)
    (down : IsDescending host (listed host params items))
    (dated : All IsDated (listed host params items)) where
  abbrev page_limit : ℕ
  page_limit = clamp_list_limit params.limit

  -- the pages from a cursor on
  abbrev Pages : Option String → List SessionListItem → Type 0
  Pages cursor rest =
      (pages : List (List SessionListItem)) × Walk host params items cursor pages
      × (flatten pages ≡ rest)
      × All (λ (page : List SessionListItem). length page ≤ page_limit) pages

  ends :
      (cursor : Option String) (rest : List SessionListItem)
      → Before host params items cursor rest
      → ltb page_limit (length rest) ≡ false
      → Pages cursor rest
  unfolding build_paged_result
  ends cursor rest b fits = (
    rest ∷ [],
    last_page cursor rest
        (page_of-Before host params items cursor rest b ∙ rw (fits, build_paged_result)),
    append_nil rest,
    (ltb→le page_limit (length rest) fits, tt),
  )

  pub walks :
      (fuel : ℕ) (pre rest : List SessionListItem) (cursor : Option String)
      → Before host params items cursor rest
      → listed host params items ≡ pre ++ rest
      → length rest ≤ fuel
      → Pages cursor rest
  unfolding build_paged_result follows
  walks zero pre rest cursor b whole less = ends cursor rest b (ground arith)
  walks (suc fuel) pre rest cursor b whole less = elim (Bool-cases (ltb page_limit (length rest))) [
    | inr fits ↦ ends cursor rest b fits
    | inl over ↦
        let (some_limit, bound) = clamp_list_limit_lem params.limit in
        let (init, x, last, front, split) =
          page_split page_limit rest some_limit (ltb→lt page_limit (length rest) over) in
        let placed : listed host params items ≡ (pre ++ init) ++ x ∷ drop page_limit rest =
          whole
          ∙ ap (λ r. pre ++ r) split
          ∙ sym (append_assoc pre init (x ∷ drop page_limit rest)) in
        let (c, made, read) =
          cursor_of-decode host reads x
            (All_middle IsDated (pre ++ init) x (drop page_limit rest) (rw (← placed) dated)) in
        let after : Before host params items (some c) (drop page_limit rest) = record {
          at = some (boundary x);
          decoded = read;
          left =
              ap (select (follows host x)) placed
              ∙ select-follows host orders (pre ++ init) x (drop page_limit rest)
                  (rw (← placed) down);
        } in
        let (pages, walk, flat, short) =
          walks fuel ((pre ++ init) ++ x ∷ []) (drop page_limit rest) (some c) after
            (placed ∙ sym (append_assoc (pre ++ init) (x ∷ []) (drop page_limit rest)))
            (omega (arith, length-drop page_limit rest)) in
        (
          take page_limit rest ∷ pages,
          next_page cursor (take page_limit rest) c pages
              (page_of-Before host params items cursor rest b
                ∙ rw (over, build_paged_result) (rw last (rw made)))
              walk,
          ap (λ r. take page_limit rest ++ r) flat
              ∙ ap (λ f. f ++ drop page_limit rest) front
              ∙ append_assoc init (x ∷ []) (drop page_limit rest)
              ∙ sym split,
          (length-take page_limit rest, short),
        )
  ]

-- Where the host orders texts strictly and totally and reads back what it writes, and `localeCompare`
-- orders as `<` does, the pages of a listing that is asked for without a cursor can be followed to
-- the last: none is longer than the limit, and together they are all that the filters let through,
-- in order; for sessions of different identifiers, none empty, created at times that a date can stand
-- for.
pub follow_pages :
    (host : Host)
    → OrdersTexts host.less
    → ReadsBack host
    → (params : SessionListParams) (items : List SessionListItem) → IsDistinct items
    → All IsDated items
    → (pages : List (List SessionListItem)) × Walk host params items none pages
      × (flatten pages ≡ listed host params items)
      × All (λ (page : List SessionListItem). length page ≤ clamp_list_limit params.limit) pages
unfolding decode_cursor_boundary
follow_pages host orders reads params items distinct dated =
    let chosen : List SessionListItem =
      select (status_passes params.status) (select (agent_passes params.agent_id) items) in
    walks host orders reads params items
      (sort_by-IsDescending host orders chosen (
        IsDistinct-select (status_passes params.status)
          (select (agent_passes params.agent_id) items)
          (IsDistinct-select (agent_passes params.agent_id) items distinct)))
      (All-sort_by host orders IsDated chosen (
        All-select IsDated (status_passes params.status)
          (select (agent_passes params.agent_id) items)
          (All-select IsDated (agent_passes params.agent_id) items dated)))
      (length (listed host params items)) [] (listed host params items) none
      (record { at = none; decoded = refl; left = select_all host (listed host params items) }) refl
      (omega arith)
