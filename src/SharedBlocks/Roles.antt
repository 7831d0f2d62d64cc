-- ===== src/SharedBlocks/Roles.antt =====
-- Who may edit and read a block: src/memory/shared-blocks/shared-block-permissions.ts.
use maids_claw.Common.{
  ℕ, ◌≡◌, Bool, true, false, ◌&&◌, List, Option, none, some, String, ◌==◌, str_eq, if◌then◌else◌,
  any_of, inl, inr, Bool-cases,
}
use maids_claw.SharedBlocks.{SharedBlock, Db, get_block}

pub data SharedBlockRole : Type 0 where
  owner : SharedBlockRole
  admin : SharedBlockRole
  member : SharedBlockRole
  no_role : SharedBlockRole

unfoldable pub is_owner : ℕ → String → Db → Bool
is_owner block_id agent_id db =
    any_of (λ b. b.id == block_id && str_eq b.created_by_agent_id agent_id) db.shared_blocks

-- a row of the admins' table
abbrev pub has_row : ℕ → String → List (ℕ × String) → Bool
has_row block_id agent_id rows = any_of (λ r. r.0 == block_id && str_eq r.1 agent_id) rows

unfoldable pub is_admin : ℕ → String → Db → Bool
unfolding is_owner
is_admin block_id agent_id db =
    if is_owner block_id agent_id db then true else has_row block_id agent_id db.admins

unfoldable pub is_member : ℕ → String → Db → Bool
is_member block_id agent_id db = has_row block_id agent_id db.attachments

unfoldable pub can_edit : ℕ → String → Db → Bool
unfolding is_admin
can_edit block_id agent_id db = is_admin block_id agent_id db

unfoldable pub can_read : ℕ → String → Db → Bool
unfolding is_admin is_member
can_read block_id agent_id db =
    if is_admin block_id agent_id db then true else is_member block_id agent_id db

unfoldable pub can_grant_admin : ℕ → String → Db → Bool
unfolding is_owner
can_grant_admin block_id agent_id db = is_owner block_id agent_id db

unfoldable pub get_role : ℕ → String → Db → SharedBlockRole
unfolding is_owner is_member
get_role block_id agent_id db =
    if is_owner block_id agent_id db
    then owner
    else if has_row block_id agent_id db.admins
    then admin
    else if is_member block_id agent_id db
    then member
    else no_role

abbrev pub retrieval_flag : Option SharedBlock → Bool
retrieval_flag none = false
retrieval_flag (some b) = b.retrieval_only

unfoldable pub is_retrieval_only : ℕ → Db → Bool
unfolding get_block
is_retrieval_only block_id db = retrieval_flag (get_block block_id db)

-- what a role lets do
abbrev pub grants_admin : SharedBlockRole → Bool
grants_admin owner = true
grants_admin admin = false
grants_admin member = false
grants_admin no_role = false

abbrev pub edits : SharedBlockRole → Bool
edits owner = true
edits admin = true
edits member = false
edits no_role = false

abbrev pub reads : SharedBlockRole → Bool
reads owner = true
reads admin = true
reads member = true
reads no_role = false

-- The role of an agent decides what it may do: the owner alone makes admins, the owner and the admins
-- edit, and these and the members read.
pub get_role-Decides :
    (block_id : ℕ) (agent_id : String) (db : Db)
    → (can_grant_admin block_id agent_id db ≡ grants_admin (get_role block_id agent_id db))
      × (can_edit block_id agent_id db ≡ edits (get_role block_id agent_id db))
      × (can_read block_id agent_id db ≡ reads (get_role block_id agent_id db))
unfolding can_grant_admin can_edit can_read is_admin get_role
get_role-Decides block_id agent_id db = elim (Bool-cases (is_owner block_id agent_id db)) [
  | inl o ↦ (rw o, rw o, rw o)
  | inr n ↦ elim (Bool-cases (has_row block_id agent_id db.admins)) [
    | inl a ↦ (rw n (rw a), rw n (rw a), rw n (rw a))
    | inr b ↦ elim (Bool-cases (is_member block_id agent_id db)) [
      | inl m ↦ (rw n (rw b (rw m)), rw n (rw b (rw m)), rw n (rw b (rw m)))
      | inr c ↦ (rw n (rw b (rw c)), rw n (rw b (rw c)), rw n (rw b (rw c)))
    ]
  ]
]
