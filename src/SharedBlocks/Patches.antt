-- ===== src/SharedBlocks/Patches.antt =====
-- Applying a patch to a block: src/memory/shared-blocks/shared-block-patch-service.ts.
use Prim.Native.Nat.{◌%◌}
use maids_claw.Common.{
  ℕ, ◌+◌, Bool, true, false, not, ◌&&◌, List, [], ◌∷◌, ◌++◌, Option, none, some, String, ◌==◌,
  str_eq, max, if◌then◌else◌, any_of, or_else, Result, ok, throw, ◌>>=◌, ◌>>◌,
}
use mathlib.Core.Option
use maids_claw.SharedBlocks.{
  Db, SharedBlock, SharedBlockSection, SharedBlockSnapshot, PatchOp, PatchRow, BlockHost,
  set_section, delete_section, move_section, set_title, validate_section_path, get_block,
  get_section, section_exists, upsert_section, delete_section_rows, rename_section, update_title,
  build_snapshot_json,
}
use maids_claw.SharedBlocks.Roles.{can_edit}

pub record PatchParams : Type 0 where
  pub section_path : Option String
  pub target_path : Option String
  pub content : Option String
  pub title : Option String

pub record PatchResult : Type 0 where
  pub patch_seq : ℕ
  pub snapshot_taken : Bool

pub data PatchFault : Type 0 where
  cannot_edit : PatchFault
  section_path_required : PatchFault
  target_path_required : PatchFault
  title_required : PatchFault
  invalid_section_path : PatchFault
  move_target_conflict : PatchFault
  patch_seq_conflict : PatchFault
  snapshot_conflict : PatchFault

-- who applies a patch, from where and when, and the identifier that the database gives a new section
pub record PatchCall : Type 0 where
  pub applied_by_agent_id : String
  pub source_ref : String
  pub now : ℕ
  pub new_id : ℕ

abbrev pub auto_snapshot_interval : ℕ
auto_snapshot_interval = 25

-- an empty path counts as missing
abbrev pub required : PatchFault → Option String → Result PatchFault String
required e none = throw e
required e (some path) = if str_eq path "" then throw e else ok path

unfoldable pub assert_section_path : String → Result PatchFault (Unit {0})
unfolding validate_section_path
assert_section_path path = if validate_section_path path then ok tt else throw invalid_section_path

abbrev pub given_title : Option String → Result PatchFault String
given_title none = throw title_required
given_title (some title) = ok title

unfoldable pub apply_op : PatchCall → ℕ → PatchOp → PatchParams → Db → Result PatchFault Db
unfolding assert_section_path section_exists upsert_section delete_section_rows rename_section
    update_title
apply_op call block_id set_section params db =
    required section_path_required params.section_path >>= λ path.
    assert_section_path path
    >> ok (upsert_section call.new_id block_id path (or_else params.content "") call.now db)
apply_op call block_id delete_section params db =
    required section_path_required params.section_path >>= λ path.
    ok (delete_section_rows block_id path call.now db)
apply_op call block_id move_section params db =
    required section_path_required params.section_path >>= λ path.
    required target_path_required params.target_path >>= λ target.
    assert_section_path path
    >> (assert_section_path target
        >> (if section_exists block_id target db
            then throw move_target_conflict
            else ok (rename_section block_id path target call.now db)))
apply_op call block_id set_title params db =
    given_title params.title >>= λ title. ok (update_title block_id title call.now db)

abbrev pub content_at : ℕ → Option String → Db → Option String
content_at block_id none db = none
content_at block_id (some path) db =
    if str_eq path ""
    then none
    else Option.map (λ (s : SharedBlockSection). s.content) (get_section block_id path db)

abbrev pub if_given : Option String → Option String
if_given none = none
if_given (some path) = if str_eq path "" then none else some path

unfoldable pub before_value : ℕ → PatchOp → PatchParams → Db → Option String
unfolding get_section get_block
before_value block_id set_section params db = content_at block_id params.section_path db
before_value block_id delete_section params db = content_at block_id params.section_path db
before_value block_id move_section params db = if_given params.section_path
before_value block_id set_title params db =
    Option.map (λ (b : SharedBlock). b.title) (get_block block_id db)

abbrev pub after_value : PatchOp → PatchParams → Option String
after_value set_section params = some (or_else params.content "")
after_value delete_section params = none
after_value move_section params = params.target_path
after_value set_title params = params.title

abbrev pub logged_content : PatchOp → PatchParams → Option String
logged_content set_section params = params.content
logged_content delete_section params = params.content
logged_content move_section params = params.content
logged_content set_title params = params.title

-- `MAX(patch_seq)` of the block, 0 where it has no row
abbrev pub max_seq : ℕ → List PatchRow → ℕ
max_seq block_id [] = 0
max_seq block_id (p ∷ ps) =
    let rest = max_seq block_id ps in if p.block_id == block_id then max p.patch_seq rest else rest

unfoldable pub get_next_patch_seq : ℕ → Db → ℕ
get_next_patch_seq block_id db = max_seq block_id db.patch_log + 1

-- `UNIQUE(block_id, patch_seq)`
unfoldable pub insert_patch : PatchRow → Db → Result PatchFault Db
insert_patch row db =
    if any_of (λ p. p.block_id == row.block_id && p.patch_seq == row.patch_seq) db.patch_log
    then throw patch_seq_conflict
    else ok (record db { patch_log = db.patch_log ++ row ∷ [] })

-- `UNIQUE(block_id, snapshot_seq)`
abbrev pub has_snapshot : ℕ → ℕ → List SharedBlockSnapshot → Bool
has_snapshot block_id seq rows = any_of (λ s. s.block_id == block_id && s.snapshot_seq == seq) rows

unfoldable pub write_snapshot : BlockHost → ℕ → ℕ → ℕ → Db → Result PatchFault Db
unfolding build_snapshot_json
write_snapshot host block_id seq now db =
    if has_snapshot block_id seq db.snapshots
    then throw snapshot_conflict
    else ok (record db {
      snapshots =
          db.snapshots
          ++ record {
            block_id = block_id;
            snapshot_seq = seq;
            content_json = build_snapshot_json host block_id db;
            created_at = now;
          }
            ∷ [];
    })

unfoldable pub finish : BlockHost → ℕ → ℕ → ℕ → Db → Result PatchFault (PatchResult × Db)
unfolding write_snapshot
finish host block_id seq now db =
    if seq % auto_snapshot_interval == 0
    then (write_snapshot host block_id seq now db >>= λ db'.
        ok (record { patch_seq = seq; snapshot_taken = true }, db'))
    else ok (record { patch_seq = seq; snapshot_taken = false }, db)

unfoldable pub patch_row : PatchCall → ℕ → PatchOp → PatchParams → Db → ℕ → PatchRow
unfolding before_value
patch_row call block_id op params before seq = record {
  block_id = block_id;
  patch_seq = seq;
  op = op;
  section_path = params.section_path;
  target_path = params.target_path;
  content = logged_content op params;
  before_value = before_value block_id op params before;
  after_value = after_value op params;
  source_ref = call.source_ref;
  applied_by_agent_id = call.applied_by_agent_id;
  applied_at = call.now;
}

-- `applyPatch`, one transaction: what it throws leaves the tables as they were
unfoldable pub apply_patch :
    BlockHost → PatchCall → ℕ → PatchOp → PatchParams → Db → Result PatchFault (PatchResult × Db)
unfolding apply_op get_next_patch_seq insert_patch finish patch_row can_edit
apply_patch host call block_id op params db =
    if not (can_edit block_id call.applied_by_agent_id db)
    then throw cannot_edit
    else (apply_op call block_id op params db >>= λ db'.
        insert_patch (patch_row call block_id op params db (get_next_patch_seq block_id db')) db'
        >>= λ db''. finish host block_id (get_next_patch_seq block_id db') call.now db'')
