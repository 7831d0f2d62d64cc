-- ===== src/Tests/Blocks.antt =====
-- A shared block and its patches.
use maids_claw.Common.{List, ◌≡◌, refl, true, false, none, some, [], ◌∷◌, ok, throw, ◌⊎◌, arith}
use maids_claw.SharedBlocks.{Db, BlockHost, move_section, set_section, validate_section_path}
use maids_claw.SharedBlocks.Patches.{
  PatchCall, PatchParams, PatchFault, apply_op, apply_patch, max_seq,
}
use maids_claw.SharedBlocks.Frame.{is_call_fault}
use maids_claw.SharedBlocks.Numbering.{IsNumbered}
use maids_claw.SharedBlocks.Applying.{IsApplied, apply_patch-IsApplied}
use maids_claw.SharedBlocks.Contents.{content_in}
use maids_claw.SharedBlocks.History.{
  BlockOp, makes, patches, run, empty_db, empty_db-IsBlank, IsKept, run-IsKept,
}
use maids_claw.SharedBlocks.Effects.{specified, apply_op-specified}

abbrev host : BlockHost
host = record { to_json = λ members. "{}"; order_by_path = λ rows. rows }

-- a block that `create_block` made
abbrev db : Db
db = record {
  shared_blocks =
      record {
        id = 4;
        title = "house rules";
        created_by_agent_id = "rin";
        retrieval_only = false;
        created_at = 10;
        updated_at = 10;
      }
      ∷ [];
  sections =
      record {
        id = 1;
        block_id = 4;
        section_path = "kitchen/tea";
        title = "";
        content = "at five";
        created_at = 11;
        updated_at = 11;
      }
      ∷ [];
  snapshots = record { block_id = 4; snapshot_seq = 0; content_json = "{}"; created_at = 10 } ∷ [];
  patch_log = [];
  admins = (4, "mei") ∷ [];
  attachments = (4, "yue") ∷ [];
}

abbrev call : PatchCall
call = record { applied_by_agent_id = "mei"; source_ref = "system"; now = 20; new_id = 2 }

abbrev params : PatchParams
params = record {
  section_path = some "kitchen/tea";
  target_path = some "garden/tea";
  content = none;
  title = none;
}

numbered : IsNumbered 4 0 db
numbered = record { numbers = λ s. ground arith; last = refl; snaps = λ s. ground arith }

good_path : validate_section_path "kitchen/tea-2" ≡ true
unfolding validate_section_path
good_path = refl

bad_path : validate_section_path "kitchen//tea" ≡ false
unfolding validate_section_path
bad_path = refl

apply_patch-IsApplied_example :
    ((e : PatchFault) × (apply_patch host call 4 move_section params db ≡ throw e)
      × (is_call_fault e ≡ true))
    ⊎ IsApplied host call 4 move_section params 0 db
apply_patch-IsApplied_example = apply_patch-IsApplied host call 4 move_section params 0 db numbered

abbrev moved : Db
moved = record db {
  shared_blocks =
      record {
        id = 4;
        title = "house rules";
        created_by_agent_id = "rin";
        retrieval_only = false;
        created_at = 10;
        updated_at = 20;
      }
      ∷ [];
  sections =
      record {
        id = 1;
        block_id = 4;
        section_path = "garden/tea";
        title = "";
        content = "at five";
        created_at = 11;
        updated_at = 20;
      }
      ∷ [];
}

moves : apply_op call 4 move_section params db ≡ ok moved
unfolding apply_op
moves = refl

apply_op-specified_example :
    content_in 4 "garden/tea" moved.sections
    ≡ specified 4 move_section params (λ b p. content_in b p db.sections) 4 "garden/tea"
apply_op-specified_example =
    apply_op-specified call 4 move_section params db moved (tt, tt) moves 4 "garden/tea"

abbrev calls : List BlockOp
calls =
    makes 4 "house rules" "rin" false 10
    ∷ patches (record call { applied_by_agent_id = "rin" }) 4 set_section
        (record params { content = some "at five" })
    ∷ patches call 4 move_section params
    ∷ []

run-IsKept_example : IsKept 4 (run host calls empty_db)
run-IsKept_example = run-IsKept host calls (empty_db-IsBlank 4, (tt, (tt, tt))) 4

-- the owner's patch alone is in the log
one_patch : max_seq 4 (run host calls empty_db).patch_log ≡ 1
unfolding run
one_patch = refl
