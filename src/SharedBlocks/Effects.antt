-- ===== src/SharedBlocks/Effects.antt =====
-- What the operation of a patch does to the contents of the blocks.
use maids_claw.Common.{
  ℕ, ◌≡◌, refl, sym, ap, ◌∙◌, Bool, true, false, Option, none, some, String, str_eq, if◌then◌else◌,
  find_first, any_of, or_else, Result, ok, throw, ◌>>=◌, ◌>>◌, inl, inr, Bool-cases, Option-cases,
  arith,
}
use maids_claw.SharedBlocks.{
  Db, PatchOp, set_section, delete_section, move_section, set_title, is_section, get_section,
  section_exists, upsert_section, delete_section_rows, rename_section, update_title, touch_block,
  validate_section_path,
}
use maids_claw.SharedBlocks.Patches.{
  PatchCall, PatchParams, PatchFault, apply_op, required, assert_section_path,
  section_path_required, target_path_required, move_target_conflict,
}
use maids_claw.SharedBlocks.Contents.{
  content_in, IsKeyed, same_place, content_in-append, content_in-update, content_in-delete,
  content_in-rename,
}

-- the blocks as their paths and contents, after an operation of one block
abbrev pub specified :
    ℕ → PatchOp → PatchParams → (ℕ → String → Option String) → ℕ → String → Option String
specified b set_section params before c q =
    if same_place b (or_else params.section_path "") c q
    then some (or_else params.content "")
    else before c q
specified b delete_section params before c q =
    if same_place b (or_else params.section_path "") c q then none else before c q
specified b move_section params before c q =
    if same_place b (or_else params.target_path "") c q
    then before b (or_else params.section_path "")
    else if same_place b (or_else params.section_path "") c q
    then none
    else before c q
specified b set_title params before c q = before c q

ok_of {ℓ} : {A : Type ℓ} {a b : A} → Path (Result PatchFault A) (ok a) (ok b) → a ≡ b
ok_of {a} {b} e = ground arith

-- a call that goes on had the path it requires
required-ok :
    (e : PatchFault) (o : Option String) (db : Db) (k : String → Result PatchFault Db)
    → (required e o >>= k) ≡ ok db
    → k (or_else o "") ≡ ok db
required-ok e none db k h = absurd (cc h)
required-ok e (some path) db k h = elim (Bool-cases (str_eq path "")) [
  | inl empty ↦ absurd (cc (rw empty at h))
  | inr given ↦ rw given at h
]

asserted-ok :
    (path : String) (db : Db) (k : Result PatchFault Db)
    → (assert_section_path path >> k) ≡ ok db
    → k ≡ ok db
unfolding assert_section_path
asserted-ok path db k h = elim (Bool-cases (validate_section_path path)) [
  | inl good ↦ rw good at h
  | inr bad ↦ absurd (cc (rw bad at h))
]

if_touched :
    (b : Bool) (block_id now : ℕ) (db : Db)
    → (if b then touch_block block_id now db else db).sections ≡ db.sections
unfolding touch_block
if_touched true block_id now db = refl
if_touched false block_id now db = refl

sections-upsert :
    (new_id b : ℕ) (path content : String) (now : ℕ) (db : Db) (c : ℕ) (q : String)
    → IsKeyed db.sections
    → content_in c q (upsert_section new_id b path content now db).sections
      ≡ (if same_place b path c q then some content else content_in c q db.sections)
unfolding upsert_section get_section touch_block
sections-upsert new_id b path content now db c q keyed =
    elim (Option-cases (find_first (is_section b path) db.sections)) [
      | inl missing ↦
          rw (missing, upsert_section, get_section)
            (content_in-append new_id b path content now db.sections c q missing)
      | inr (e, there) ↦
          rw (there, upsert_section, get_section)
            (content_in-update new_id b path content now db.sections c q e keyed there)
    ]

-- Where no two sections share an identifier, the operation of a patch that does not fail does to the
-- contents of all blocks what it is specified to: it sets the content of a path, removes a path,
-- moves what stood at a path to another, or changes none.
pub apply_op-specified :
    (call : PatchCall) (b : ℕ) (op : PatchOp) (params : PatchParams) (db db' : Db)
    → IsKeyed db.sections
    → apply_op call b op params db ≡ ok db'
    → (c : ℕ) (q : String)
    → content_in c q db'.sections ≡ specified b op params (λ d p. content_in d p db.sections) c q
unfolding apply_op section_exists delete_section_rows rename_section update_title
apply_op-specified call b set_section params db db' keyed h c q =
    let path : String = or_else params.section_path "" in
    let done : upsert_section call.new_id b path (or_else params.content "") call.now db ≡ db' =
      ok_of
        (asserted-ok path db' _ (required-ok section_path_required params.section_path db' _ h)) in
    rw (← done)
      (sections-upsert call.new_id b path (or_else params.content "") call.now db c q keyed)
apply_op-specified call b delete_section params db db' keyed h c q =
    let path : String = or_else params.section_path "" in
    let done : delete_section_rows b path call.now db ≡ db' =
      ok_of (required-ok section_path_required params.section_path db' _ h) in
    ap (λ d. content_in c q d.sections) (sym done)
    ∙ ap (content_in c q) (if_touched (any_of (is_section b path) db.sections) b call.now _)
    ∙ content_in-delete b path db.sections c q
apply_op-specified call b move_section params db db' keyed h c q =
    let path : String = or_else params.section_path "" in
    let target : String = or_else params.target_path "" in
    let free : (if section_exists b target db
          then throw move_target_conflict
          else ok (rename_section b path target call.now db))
        ≡ ok db' =
      asserted-ok target db' _ (
        asserted-ok path db' _ (
          required-ok target_path_required params.target_path db' _
            (required-ok section_path_required params.section_path db' _ h))) in
    elim (Bool-cases (section_exists b target db)) [
      | inl taken ↦ absurd (cc (rw taken at free))
      | inr clear ↦
          let done : rename_section b path target call.now db ≡ db' = ok_of (rw clear at free) in
          ap (λ d. content_in c q d.sections) (sym done)
          ∙ ap (content_in c q) (if_touched (any_of (is_section b path) db.sections) b call.now _)
          ∙ content_in-rename b path target call.now db.sections c q clear
    ]
apply_op-specified call b set_title params db db' keyed h c q = elim (Option-cases params.title) [
  | inl missing ↦ absurd (cc (rw missing at h))
  | inr (title, given) ↦
      let done : update_title b title call.now db ≡ db' = ok_of (rw given at h) in
      ap (λ d. content_in c q d.sections) (sym done)
]
