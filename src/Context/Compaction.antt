-- ===== src/Context/Compaction.antt =====
-- What compacting leaves: `compact` against a description that has no loop.
use maids_claw.Common.{
  ℕ, suc, ◌+◌, ◌≡◌, refl, ap, ◌∙◌, true, false, List, [], ◌∷◌, some, select, length, arith, map,
  String,
}
use maids_claw.Common.Ints.{ℤ, pos, negsuc}
use maids_claw.Context.{
  ChatMessage, IndexedMessage, compact, indexed_from, is_evictable, is_retained,
}
use maids_claw.Context.Eviction.{EvictsOldest, evict_loop-EvictsOldest, select-drop_matching}

length-indexed_from :
    {Input : Type 0} (n : ℕ) (ms : List (ChatMessage Input))
    → length (indexed_from n ms) ≡ length ms
length-indexed_from n [] = refl
length-indexed_from n (m ∷ ms) = ap suc (length-indexed_from (n + 1) ms)

apart :
    {Input : Type 0} (boundary : ℤ) (e : IndexedMessage Input)
    → is_evictable boundary e ≡ true
    → is_retained boundary e ≡ false
apart (pos n) e h = ground arith
apart (negsuc n) e h = ground arith

-- With a positive budget and one round more than there are messages, the loop of compacting ends, and
-- leaves the messages without the oldest evictable ones, as few as bring the estimate within the
-- budget, or without all of these; the system messages and those above the boundary all stay, in
-- order.
pub compact-EvictsOldest :
    {Input : Type 0} (stringify : Input → String) (boundary : ℤ) (budget : ℕ)
    (messages : List (ChatMessage Input))
    → (kept : List (IndexedMessage Input)) × (compact stringify boundary
          (suc (length messages))
          messages
          (pos (suc budget))
        ≡ some (map (λ e. e.message) kept))
      × EvictsOldest stringify boundary (suc budget) (indexed_from 0 messages) kept
      × (select (is_retained boundary) kept
          ≡ select (is_retained boundary) (indexed_from 0 messages))
unfolding compact
compact-EvictsOldest stringify boundary budget messages =
    let (kept, ends, e) =
      evict_loop-EvictsOldest stringify boundary (suc budget) (suc (length messages))
        (indexed_from 0 messages) (omega (arith, length-indexed_from 0 messages)) in
    (
      kept,
      rw ends,
      e,
      ap (select (is_retained boundary)) e.kept_eq
          ∙ select-drop_matching (is_evictable boundary) (is_retained boundary) (apart boundary)
              e.count (indexed_from 0 messages),
    )
