-- ===== src/SharedBlocks/Frame.antt =====
-- What an operation of a patch leaves alone, and how it fails.
use maids_claw.Common.{
  ℕ, ◌≡◌, refl, ap, ◌∙◌, Bool, true, false, ◌&&◌, ◌||◌, List, [], ◌∷◌, Option, none, some, String,
  ◌==◌, str_eq, if◌then◌else◌, map, any_of, Result, ok, throw, ◌>>=◌, ◌>>◌, ◌⊎◌, inl, inr,
  Bool-cases, Option-cases,
}
use maids_claw.SharedBlocks.{
  Db, PatchOp, set_section, delete_section, move_section, set_title, validate_section_path,
  section_exists, upsert_section, delete_section_rows, rename_section, update_title, touch_block,
  is_section,
}
use maids_claw.SharedBlocks.Roles.{is_owner}
use maids_claw.SharedBlocks.Patches.{
  PatchCall, PatchParams, PatchFault, apply_op, required, assert_section_path,
  section_path_required, target_path_required, title_required, invalid_section_path,
  move_target_conflict, patch_seq_conflict, snapshot_conflict, cannot_edit,
}

-- the faults of a call, and not those of a number that is taken
abbrev pub is_call_fault : PatchFault → Bool
is_call_fault cannot_edit = true
is_call_fault section_path_required = true
is_call_fault target_path_required = true
is_call_fault title_required = true
is_call_fault invalid_section_path = true
is_call_fault move_target_conflict = true
is_call_fault patch_seq_conflict = false
is_call_fault snapshot_conflict = false

-- only the sections, and titles and times of blocks, differ
pub record Framed (db db' : Db) : Type 0 where
  pub log : db'.patch_log ≡ db.patch_log
  pub snaps : db'.snapshots ≡ db.snapshots
  pub grants : db'.admins ≡ db.admins
  pub members : db'.attachments ≡ db.attachments
  pub owners : (c : ℕ) (a : String) → is_owner c a db' ≡ is_owner c a db

any_of-map :
    {A : Type 0} (p : A → Bool) (f : A → A) (xs : List A)
    → ((x : A) → p (f x) ≡ p x)
    → any_of p (map f xs) ≡ any_of p xs
any_of-map p f [] h = refl
any_of-map p f (x ∷ xs) h = rw (h x) (ap (λ b. p x || b) (any_of-map p f xs h))

touch_block-Framed :
    (block_id now : ℕ) (db db' : Db) → Framed db db' → Framed db (touch_block block_id now db')
unfolding touch_block is_owner
touch_block-Framed block_id now db db' f = record {
  log = f.log;
  snaps = f.snaps;
  grants = f.grants;
  members = f.members;
  owners = λ c a.
      any_of-map _ _ db'.shared_blocks
        (λ b. elim (Bool-cases (b.id == block_id)) [ inl h ↦ rw h | inr h ↦ rw h ])
      ∙ f.owners c a;
}

if_touched :
    (b : Bool) (block_id now : ℕ) (db db' : Db)
    → Framed db db'
    → Framed db (if b then touch_block block_id now db' else db')
if_touched true block_id now db db' f = touch_block-Framed block_id now db db' f
if_touched false block_id now db db' f = f

update_title-Framed :
    (block_id : ℕ) (title : String) (now : ℕ) (db : Db)
    → Framed db (update_title block_id title now db)
unfolding update_title is_owner
update_title-Framed block_id title now db = record {
  log = refl;
  snaps = refl;
  grants = refl;
  members = refl;
  owners = λ c a.
      any_of-map _ _ db.shared_blocks
        (λ b. elim (Bool-cases (b.id == block_id)) [ inl h ↦ rw h | inr h ↦ rw h ]);
}

-- an operation fails as the call asks for, or leaves all but the sections and the block's row alone
abbrev pub Outcome : Db → Result PatchFault Db → Type 0
Outcome db r =
    ((e : PatchFault) × (r ≡ throw e) × (is_call_fault e ≡ true))
    ⊎ ((db' : Db) × (r ≡ ok db') × Framed db db')

required_cases :
    (e : PatchFault) (o : Option String) (db : Db) (k : String → Result PatchFault Db)
    → is_call_fault e ≡ true
    → ((path : String) → Outcome db (k path))
    → Outcome db (required e o >>= k)
required_cases e none db k h next = inl (e, refl, h)
required_cases e (some path) db k h next = elim (Bool-cases (str_eq path "")) [
  | inl empty ↦ inl (e, rw empty, h)
  | inr given ↦ rw given (next path)
]

asserted_cases :
    (path : String) (db : Db) (k : Result PatchFault Db)
    → Outcome db k
    → Outcome db (assert_section_path path >> k)
unfolding assert_section_path
asserted_cases path db k next = elim (Bool-cases (validate_section_path path)) [
  | inl good ↦ rw good next
  | inr bad ↦ inl (invalid_section_path, rw bad, refl)
]

same_tables :
    (db db' : Db)
    → db'.patch_log ≡ db.patch_log
    → db'.snapshots ≡ db.snapshots
    → db'.admins ≡ db.admins
    → db'.attachments ≡ db.attachments
    → db'.shared_blocks ≡ db.shared_blocks
    → Framed db db'
unfolding is_owner
same_tables db db' l s g m b = record {
  log = l;
  snaps = s;
  grants = g;
  members = m;
  owners = λ c a. ap (any_of (λ x. x.id == c && str_eq x.created_by_agent_id a)) b;
}

pub apply_op-Outcome :
    (call : PatchCall) (block_id : ℕ) (op : PatchOp) (params : PatchParams) (db : Db)
    → Outcome db (apply_op call block_id op params db)
unfolding apply_op upsert_section delete_section_rows rename_section
apply_op-Outcome call block_id set_section params db =
    required_cases section_path_required params.section_path db _ refl λ path.
      asserted_cases path db _ (
        inr (
          _,
          refl,
          touch_block-Framed block_id call.now db _ (same_tables db _ refl refl refl refl refl),
        ))
apply_op-Outcome call block_id delete_section params db =
    required_cases section_path_required params.section_path db _ refl λ path. inr (
      _,
      refl,
      if_touched (any_of (is_section block_id path) db.sections) block_id call.now db _
          (same_tables db _ refl refl refl refl refl),
    )
apply_op-Outcome call block_id move_section params db =
    required_cases section_path_required params.section_path db _ refl λ path.
      required_cases target_path_required params.target_path db _ refl λ target.
        asserted_cases path db _ (
          asserted_cases target db _ (elim (Bool-cases (section_exists block_id target db)) [
            | inl taken ↦ inl (move_target_conflict, rw taken, refl)
            | inr free ↦ inr (
              rename_section block_id path target call.now db,
              rw free,
              if_touched (any_of (is_section block_id path) db.sections) block_id call.now db _
                  (same_tables db _ refl refl refl refl refl),
            )
          ]))
apply_op-Outcome call block_id set_title params db = elim (Option-cases params.title) [
  | inl missing ↦ inl (title_required, rw missing, refl)
  | inr (title, given) ↦ inr (_, rw given, update_title-Framed block_id title call.now db)
]
