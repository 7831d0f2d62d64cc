-- ===== src/Context.antt =====
-- Messages, their estimated size, and what is evicted: src/core/truncate-compactor.ts,
-- src/core/context-budget.ts and the types of src/core/models/chat-provider.ts.
use Prim.Native.Char.{code}
use Prim.Native.Nat.{◌/◌}
use mathlib.Core.Option
use maids_claw.Common.{
  ℕ, zero, suc, ◌+◌, ◌≡◌, Bool, true, false, not, ◌&&◌, ◌||◌, List, [], ◌∷◌, ◌++◌, map, Option,
  none, some, String, max, ltb, leb, if◌then◌else◌, select, length, Result, ok, throw,
}
use maids_claw.Common.Ints.{ℤ, pos, negsuc, at_most, above, not_positive, not_negative}
pub mod Eviction
pub mod Compaction

pub data Role : Type 0 where
  system : Role
  user : Role
  assistant : Role
  tool : Role

-- `input` is an object of the caller
pub data ContentBlock (Input : Type 0) : Type 0 where
  text : String → ContentBlock Input
  tool_use : (id name : String) → Input → ContentBlock Input
  tool_result : (tool_call_id content : String) → ContentBlock Input

pub data MessageContent (Input : Type 0) : Type 0 where
  plain : String → MessageContent Input
  blocks : List (ContentBlock Input) → MessageContent Input

pub record ChatMessage (Input : Type 0) : Type 0 where
  pub role : Role
  pub content : MessageContent Input
  pub tool_call_id : Option String

pub record IndexedMessage (Input : Type 0) : Type 0 where
  pub index : ℕ
  pub message : ChatMessage Input

abbrev pub is_system : Role → Bool
is_system system = true
is_system user = false
is_system assistant = false
is_system tool = false

-- `text.length`: a character beyond 16 bits is two units
abbrev pub text_length : String → ℕ
text_length String.[] = 0
text_length (String.◌∷◌ c s) = (if ltb 65535 (code c) then 2 else 1) + text_length s

unfoldable pub estimate_text_budget : String → ℕ
estimate_text_budget s = max 1 ((text_length s + 3) / 4)

module _ {Input : Type 0} (stringify : Input → String) where
  abbrev pub estimate_block : ContentBlock Input → ℕ
  unfolding estimate_text_budget
  estimate_block (text s) = estimate_text_budget s
  estimate_block (tool_result call s) = estimate_text_budget s
  estimate_block (tool_use id name input) = estimate_text_budget (stringify input)

  abbrev pub sum_blocks : List (ContentBlock Input) → ℕ
  sum_blocks [] = 0
  sum_blocks (b ∷ bs) = estimate_block b + sum_blocks bs

  abbrev pub estimate_content : MessageContent Input → ℕ
  estimate_content (plain s) = estimate_text_budget s
  estimate_content (blocks bs) = sum_blocks bs

  unfoldable pub estimate_message_budget : ChatMessage Input → ℕ
  unfolding estimate_text_budget
  estimate_message_budget message = estimate_content message.content

  unfoldable pub estimate_budget : List (IndexedMessage Input) → ℕ
  unfolding estimate_message_budget
  estimate_budget [] = 0
  estimate_budget (entry ∷ entries) =
      estimate_message_budget entry.message + estimate_budget entries

-- `findIndex`, -1 as `none`
abbrev pub find_index {ℓ} : {A : Type ℓ} → (A → Bool) → List A → Option ℕ
find_index p [] = none
find_index p (x ∷ xs) = if p x then some 0 else Option.map suc (find_index p xs)

-- `splice(index, 1)`
abbrev pub splice_one {ℓ} : {A : Type ℓ} → ℕ → List A → List A
splice_one n [] = []
splice_one zero (x ∷ xs) = xs
splice_one (suc n) (x ∷ xs) = x ∷ splice_one n xs

module _ {Input : Type 0} where
  abbrev pub indexed_from : ℕ → List (ChatMessage Input) → List (IndexedMessage Input)
  indexed_from n [] = []
  indexed_from n (m ∷ ms) = record { index = n; message = m } ∷ indexed_from (n + 1) ms

  -- kept whatever the budget
  abbrev pub is_retained : ℤ → IndexedMessage Input → Bool
  is_retained flush_boundary entry =
      is_system entry.message.role || above entry.index flush_boundary

  abbrev pub is_evictable : ℤ → IndexedMessage Input → Bool
  is_evictable flush_boundary entry =
      not (is_system entry.message.role) && at_most entry.index flush_boundary

module _ {Input : Type 0} (stringify : Input → String) (flush_boundary : ℤ) (budget : ℕ) where
  -- the `while` loop of `compact`, `none` where the rounds run out
  unfoldable pub evict_loop : ℕ → List (IndexedMessage Input) → Option (List (IndexedMessage Input))
  unfolding estimate_budget
  evict_loop zero retained = none
  evict_loop (suc rounds) retained = elim (ltb budget (estimate_budget stringify retained)) [
    | false ↦ some retained
    | true ↦ elim (find_index (is_evictable flush_boundary) retained) [
      | none ↦ some retained
      | some evictable_index ↦ evict_loop rounds (splice_one evictable_index retained)
    ]
  ]

abbrev pub size_of : ℤ → ℕ
size_of (pos n) = n
size_of (negsuc n) = 0

-- `compact`, with the rounds its loop is given
unfoldable pub compact :
    {Input : Type 0}
    → (Input → String)
    → ℤ
    → ℕ
    → List (ChatMessage Input)
    → ℤ
    → Option (List (ChatMessage Input))
unfolding evict_loop
compact stringify flush_boundary rounds messages budget =
    if not_positive budget
    then some (map (λ e. e.message) (select (is_retained flush_boundary) (indexed_from 0 messages)))
    else Option.map (map (λ e. e.message))
        (evict_loop stringify flush_boundary (size_of budget) rounds (indexed_from 0 messages))
