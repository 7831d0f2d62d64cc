-- ===== src/SharedBlocks.antt =====
-- Shared memory blocks, the tables and who may do what: src/memory/shared-blocks/shared-block-repo.ts,
-- shared-block-permissions.ts and section-path-validator.ts, with the tables' keys from
-- src/storage/pg-app-schema-truth.ts.
use Prim.Native.Char.{code}
use maids_claw.Common.{
  ℕ, zero, suc, ◌+◌, Bool, true, false, not, ◌&&◌, ◌||◌, List, [], ◌∷◌, ◌++◌, Option, none, some,
  String, leb, ◌==◌, str_eq, if◌then◌else◌, map, select, find_first, any_of, is_some,
}
pub mod Patches
pub mod Roles
pub mod Frame
pub mod Numbering
pub mod Contents
pub mod Effects
pub mod Applying
pub mod History

pub record SharedBlock : Type 0 where
  pub id : ℕ
  pub title : String
  pub created_by_agent_id : String
  pub retrieval_only : Bool
  pub created_at : ℕ
  pub updated_at : ℕ

pub record SharedBlockSection : Type 0 where
  pub id : ℕ
  pub block_id : ℕ
  pub section_path : String
  pub title : String
  pub content : String
  pub created_at : ℕ
  pub updated_at : ℕ

pub record SharedBlockSnapshot : Type 0 where
  pub block_id : ℕ
  pub snapshot_seq : ℕ
  pub content_json : String
  pub created_at : ℕ

pub data PatchOp : Type 0 where
  set_section : PatchOp
  delete_section : PatchOp
  move_section : PatchOp
  set_title : PatchOp

-- a row of the patch log
pub record PatchRow : Type 0 where
  pub block_id : ℕ
  pub patch_seq : ℕ
  pub op : PatchOp
  pub section_path : Option String
  pub target_path : Option String
  pub content : Option String
  pub before_value : Option String
  pub after_value : Option String
  pub source_ref : String
  pub applied_by_agent_id : String
  pub applied_at : ℕ

-- the tables; of the admins and the attachments to agents, the block and the agent
pub record Db : Type 0 where
  pub shared_blocks : List SharedBlock
  pub sections : List SharedBlockSection
  pub snapshots : List SharedBlockSnapshot
  pub patch_log : List PatchRow
  pub admins : List (ℕ × String)
  pub attachments : List (ℕ × String)

-- JSON of an object with these members, and `ORDER BY section_path`
pub record BlockHost : Type 0 where
  pub to_json : List (String × String) → String
  pub order_by_path : List SharedBlockSection → List SharedBlockSection

abbrev pub between : ℕ → ℕ → ℕ → Bool
between low high n = leb low n && leb n high

-- `[a-z0-9_-]`
abbrev pub is_path_char : ℕ → Bool
is_path_char c = between 97 122 c || (between 48 57 c || (c == 95 || c == 45))

-- `^[a-z0-9_-]+(?:\/[a-z0-9_-]+)*$`, from a place where a segment has characters already or has none
abbrev pub matches_path : (segment_empty : Bool) → String → Bool
matches_path segment_empty String.[] = not segment_empty
matches_path segment_empty (String.◌∷◌ c s) = elim (is_path_char (code c)) [
  | true ↦ matches_path false s
  | false ↦ elim (code c == 47 && not segment_empty) [ true ↦ matches_path true s | false ↦ false ]
]

unfoldable pub validate_section_path : String → Bool
validate_section_path path = matches_path true path

unfoldable pub get_block : ℕ → Db → Option SharedBlock
get_block block_id db = find_first (λ b. b.id == block_id) db.shared_blocks

abbrev pub is_section : ℕ → String → SharedBlockSection → Bool
is_section block_id path s = s.block_id == block_id && str_eq s.section_path path

unfoldable pub get_section : ℕ → String → Db → Option SharedBlockSection
get_section block_id path db = find_first (is_section block_id path) db.sections

unfoldable pub section_exists : ℕ → String → Db → Bool
section_exists block_id path db = any_of (is_section block_id path) db.sections

unfoldable pub touch_block : ℕ → ℕ → Db → Db
touch_block block_id now db = record db {
  shared_blocks =
      map (λ b. if b.id == block_id then record b { updated_at = now } else b) db.shared_blocks;
}

-- with the identifier that the database gives a new row
abbrev pub upsert_rows :
    ℕ
    → ℕ
    → String
    → String
    → ℕ
    → Option SharedBlockSection
    → List SharedBlockSection
    → List SharedBlockSection
upsert_rows new_id block_id path content now (some existing) rows =
    map
      (λ s.
        if s.id == existing.id
        then record s { content = content; title = ""; updated_at = now }
        else s)
      rows
upsert_rows new_id block_id path content now none rows =
    rows
    ++ record {
      id = new_id;
      block_id = block_id;
      section_path = path;
      title = "";
      content = content;
      created_at = now;
      updated_at = now;
    }
      ∷ []

unfoldable pub upsert_section : ℕ → ℕ → String → String → ℕ → Db → Db
unfolding get_section touch_block
upsert_section new_id block_id path content now db = touch_block block_id now (record db {
  sections =
      upsert_rows new_id block_id path content now (get_section block_id path db) db.sections;
})

-- the block is touched where a row was removed
unfoldable pub delete_section_rows : ℕ → String → ℕ → Db → Db
unfolding touch_block
delete_section_rows block_id path now db =
    let db' : Db = record db {
      sections = select (λ s. not (is_section block_id path s)) db.sections;
    } in
    if any_of (is_section block_id path) db.sections then touch_block block_id now db' else db'

unfoldable pub rename_section : ℕ → String → String → ℕ → Db → Db
unfolding touch_block
rename_section block_id from_path to_path now db =
    let db' : Db = record db {
      sections =
          map
            (λ s.
              if is_section block_id from_path s
              then record s { section_path = to_path; updated_at = now }
              else s)
            db.sections;
    } in
    if any_of (is_section block_id from_path) db.sections then touch_block block_id now db' else db'

unfoldable pub update_title : ℕ → String → ℕ → Db → Db
update_title block_id title now db = record db {
  shared_blocks =
      map (λ b. if b.id == block_id then record b { title = title; updated_at = now } else b)
        db.shared_blocks;
}

-- the members of the object, in the order of the paths
unfoldable pub build_snapshot_json : BlockHost → ℕ → Db → String
build_snapshot_json host block_id db = host.to_json (
    map (λ s. (s.section_path, s.content))
      (host.order_by_path (select (λ s. s.block_id == block_id) db.sections)))

-- with the identifier that the database gives the block
unfoldable pub create_block : ℕ → String → String → Bool → ℕ → Db → SharedBlock × Db
create_block new_id title created_by_agent_id retrieval_only now db =
    let b : SharedBlock = record {
      id = new_id;
      title = title;
      created_by_agent_id = created_by_agent_id;
      retrieval_only = retrieval_only;
      created_at = now;
      updated_at = now;
    } in
    (
      b,
      record db {
        shared_blocks = db.shared_blocks ++ b ∷ [];
        snapshots =
            db.snapshots
            ++ record { block_id = new_id; snapshot_seq = 0; content_json = "{}"; created_at = now }
              ∷ [];
      },
    )
