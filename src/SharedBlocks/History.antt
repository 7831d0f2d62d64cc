-- ===== src/SharedBlocks/History.antt =====
-- The life of the shared blocks, from empty tables.
use maids_claw.Common.{
  ℕ, suc, ◌≡◌, refl, ap, ◌∙◌, Bool, false, ◌&&◌, List, [], ◌∷◌, String, ◌==◌, ==_iff, Result, ok,
  throw, ◌⊎◌, inl, inr, Bool-cases, arith, str_eq,
}
use maids_claw.SharedBlocks.{Db, PatchOp, BlockHost, create_block}
use maids_claw.SharedBlocks.Roles.{
  no_role, can_edit, get_role, get_role-Decides, is_owner, is_member, edits,
}
use maids_claw.SharedBlocks.Patches.{
  PatchCall, PatchParams, PatchResult, PatchFault, apply_patch, max_seq, has_snapshot,
}
use maids_claw.SharedBlocks.Numbering.{
  IsNumbered, IsNumbered-same, SameNumbers, has_patch, any_of-append,
}
use maids_claw.SharedBlocks.Applying.{apply_patch-IsApplied}

pub data BlockOp : Type 0 where
  makes :
      (new_id : ℕ) (title created_by_agent_id : String) (retrieval_only : Bool) (now : ℕ) → BlockOp
  patches : PatchCall → (block_id : ℕ) → PatchOp → PatchParams → BlockOp

abbrev pub kept : Db → Result PatchFault (PatchResult × Db) → Db
kept db (ok (r, db')) = db'
kept db (throw e) = db

-- one call; a patch that throws is rolled back
unfoldable pub apply_call : BlockHost → BlockOp → Db → Db
unfolding create_block apply_patch
apply_call host (makes id title agent retrieval_only now) db =
    (create_block id title agent retrieval_only now db).1
apply_call host (patches call b op params) db = kept db (apply_patch host call b op params db)

unfoldable pub run : BlockHost → List BlockOp → Db → Db
unfolding apply_call
run host [] db = db
run host (op ∷ ops) db = run host ops (apply_call host op db)

-- no row of any table names the block
pub record IsBlank (b : ℕ) (db : Db) : Type 0 where
  pub unpatched : (s : ℕ) → has_patch b s db.patch_log ≡ false
  pub lowest : max_seq b db.patch_log ≡ 0
  pub untaken : (s : ℕ) → has_snapshot b s db.snapshots ≡ false
  pub roleless : (a : String) → get_role b a db ≡ no_role

-- the database gives a new block an identifier that no row names
abbrev pub IsFresh : BlockOp → Db → Type 0
IsFresh (makes id title agent retrieval_only now) db = IsBlank id db
IsFresh (patches call b op params) db = Unit

abbrev pub AllFresh : BlockHost → List BlockOp → Db → Type 0
AllFresh host [] db = Unit
AllFresh host (op ∷ ops) db = IsFresh op db × AllFresh host ops (apply_call host op db)

abbrev pub empty_db : Db
empty_db = record {
  shared_blocks = [];
  sections = [];
  snapshots = [];
  patch_log = [];
  admins = [];
  attachments = [];
}

pub empty_db-IsBlank : (b : ℕ) → IsBlank b empty_db
unfolding get_role is_owner is_member
empty_db-IsBlank b = record {
  unpatched = λ s. refl;
  lowest = refl;
  untaken = λ s. refl;
  roleless = λ a. refl;
}

-- the patches of the block are numbered without a gap, or no row names it
abbrev pub IsKept : ℕ → Db → Type 0
IsKept b db = ((n : ℕ) × IsNumbered b n db) ⊎ IsBlank b db

IsKept-same :
    (b : ℕ) (db db' : Db)
    → SameNumbers b db db'
    → ((a : String) → get_role b a db' ≡ get_role b a db)
    → IsKept b db
    → IsKept b db'
IsKept-same b db db' same roles (inl (n, k)) = inl (n, IsNumbered-same b n db db' same k)
IsKept-same b db db' same roles (inr z) = inr (record {
  unpatched = λ s. same.patches s ∙ z.unpatched s;
  lowest = same.highest ∙ z.lowest;
  untaken = λ s. same.taken s ∙ z.untaken s;
  roleless = λ a. roles a ∙ z.roleless a;
})

pub create_block-IsNumbered :
    (id : ℕ) (title agent : String) (retrieval_only : Bool) (now : ℕ) (db : Db)
    → IsBlank id db
    → IsNumbered id 0 (create_block id title agent retrieval_only now db).1
unfolding create_block
create_block-IsNumbered id title agent retrieval_only now db z = record {
  numbers = λ s. z.unpatched s ∙ ground arith;
  last = z.lowest;
  snaps = λ s. any_of-append _ db.snapshots _ ∙ ground (arith, z.untaken s);
}

create_block-others :
    (id : ℕ) (title agent : String) (retrieval_only : Bool) (now : ℕ) (db : Db) (b : ℕ)
    → (id == b) ≡ false
    → SameNumbers b db (create_block id title agent retrieval_only now db).1
      × ((a : String)
          → get_role b a (create_block id title agent retrieval_only now db).1 ≡ get_role b a db)
unfolding create_block get_role is_owner is_member
create_block-others id title agent retrieval_only now db b other = (
  record {
    patches = λ s. refl;
    highest = refl;
    taken = λ s. any_of-append _ db.snapshots _ ∙ rw other (ground arith);
  },
  λ a.
      rw (any_of-append (λ x. x.id == b && str_eq x.created_by_agent_id a) db.shared_blocks _)
        (rw other (elim (Bool-cases (is_owner b a db)) [ inl h ↦ rw h | inr h ↦ rw h ])),
)

-- nobody may patch a block that no row names
refused :
    (host : BlockHost) (call : PatchCall) (b : ℕ) (op : PatchOp) (params : PatchParams) (db : Db)
    → IsBlank b db
    → kept db (apply_patch host call b op params db) ≡ db
unfolding apply_patch
refused host call b op params db z =
    let barred : can_edit b call.applied_by_agent_id db ≡ false =
      (get_role-Decides b call.applied_by_agent_id db).1
      ∙ ap edits (z.roleless call.applied_by_agent_id) in
    rw barred

apply_call-IsKept :
    (host : BlockHost) (op : BlockOp) (db : Db)
    → IsFresh op db
    → ((b : ℕ) → IsKept b db)
    → (b : ℕ) → IsKept b (apply_call host op db)
unfolding apply_call
apply_call-IsKept host (makes id title agent retrieval_only now) db z k b =
    elim (Bool-cases (id == b)) [
      | inl same ↦ inl (
        0,
        rw (← (==_iff id b).0 same)
            (create_block-IsNumbered id title agent retrieval_only now db z),
      )
      | inr other ↦
          let (numbers, roles) = create_block-others id title agent retrieval_only now db b other in
          IsKept-same b db _ numbers roles (k b)
    ]
apply_call-IsKept host (patches call c op params) db u k b = elim (k c) [
  | inr z ↦ rw (refused host call c op params db z) (k b)
  | inl (n, numbered) ↦ elim (apply_patch-IsApplied host call c op params n db numbered) [
    | inl (e, fails, fault) ↦ rw fails (k b)
    | inr a ↦ rw a.returns (elim (Bool-cases (c == b)) [
      | inl same ↦ inl (suc n, rw (← (==_iff c b).0 same) a.numbered)
      | inr other ↦ IsKept-same b db a.after (a.others b other) (λ g. a.rights g b) (k b)
    ])
  ]
]

-- From empty tables, whatever blocks are made, each with an identifier that no row names, and whatever
-- patches are tried, the patches of every block are numbered from 1 without a gap, and it has the
-- snapshots of the multiples of 25 up to the last of them, or no row of any table names it.
pub run-IsKept :
    (host : BlockHost) (ops : List BlockOp)
    → AllFresh host ops empty_db
    → (b : ℕ) → IsKept b (run host ops empty_db)
unfolding run
run-IsKept host ops fresh b = go ops empty_db fresh start b
  where
    start : (c : ℕ) → IsKept c empty_db
    start c = inr (empty_db-IsBlank c)

    go :
        (os : List BlockOp) (db : Db)
        → AllFresh host os db
        → ((c : ℕ) → IsKept c db)
        → (c : ℕ) → IsKept c (run host os db)
    go [] db f k c = k c
    go (o ∷ os) db (now, later) k c =
        go os (apply_call host o db) later (apply_call-IsKept host o db now k) c
