-- ===== src/SharedBlocks/Numbering.antt =====
-- The numbers of a block's patches, and its snapshots.
use Prim.Native.Nat.{◌%◌}
use maids_claw.Common.{
  ℕ, suc, ◌≡◌, refl, ap, ◌∙◌, Bool, false, ◌&&◌, ◌||◌, List, [], ◌∷◌, ◌++◌, String, ◌==◌, leb, max,
  if◌then◌else◌, any_of, ok, inl, inr, Bool-cases, arith,
}
use maids_claw.SharedBlocks.{SharedBlockSnapshot, Db, PatchRow, BlockHost, build_snapshot_json}
use maids_claw.SharedBlocks.Roles.{get_role, is_owner, is_member}
use maids_claw.SharedBlocks.Patches.{
  insert_patch, write_snapshot, finish, max_seq, has_snapshot, auto_snapshot_interval,
}
use maids_claw.SharedBlocks.Frame.{Framed}

abbrev pub has_patch : ℕ → ℕ → List PatchRow → Bool
has_patch block_id seq rows = any_of (λ p. p.block_id == block_id && p.patch_seq == seq) rows

-- the patches of a block are numbered from 1 to `n`, and it has the snapshots of the multiples of 25
-- from 0 to `n`
pub record IsNumbered (block_id n : ℕ) (db : Db) : Type 0 where
  pub numbers : (s : ℕ) → has_patch block_id s db.patch_log ≡ (leb 1 s && leb s n)
  pub last : max_seq block_id db.patch_log ≡ n
  pub snaps : (s : ℕ) → has_snapshot block_id s db.snapshots ≡ (s % 25 == 0 && leb s n)

pub any_of-append :
    {A : Type 0} (p : A → Bool) (xs : List A) (y : A)
    → any_of p (xs ++ y ∷ []) ≡ (any_of p xs || p y)
any_of-append p [] y = ground arith
any_of-append p (x ∷ xs) y = ap (λ b. p x || b) (any_of-append p xs y) ∙ ground arith

max_seq-append :
    (b : ℕ) (rows : List PatchRow) (row : PatchRow)
    → max_seq b (rows ++ row ∷ [])
      ≡ (if row.block_id == b then max (max_seq b rows) row.patch_seq else max_seq b rows)
max_seq-append b [] row = ground arith
max_seq-append b (p ∷ ps) row = rw (max_seq-append b ps row) (ground arith)

-- a block has the same patches and snapshots in both
pub record SameNumbers (b : ℕ) (db db' : Db) : Type 0 where
  pub patches : (s : ℕ) → has_patch b s db'.patch_log ≡ has_patch b s db.patch_log
  pub highest : max_seq b db'.patch_log ≡ max_seq b db.patch_log
  pub taken : (s : ℕ) → has_snapshot b s db'.snapshots ≡ has_snapshot b s db.snapshots

pub SameNumbers-trans :
    (b : ℕ) (x y z : Db) → SameNumbers b x y → SameNumbers b y z → SameNumbers b x z
SameNumbers-trans b x y z p q = record {
  patches = λ s. q.patches s ∙ p.patches s;
  highest = q.highest ∙ p.highest;
  taken = λ s. q.taken s ∙ p.taken s;
}

pub SameNumbers-frame : (b : ℕ) (db db' : Db) → Framed db db' → SameNumbers b db db'
SameNumbers-frame b db db' f = record {
  patches = λ s. ap (has_patch b s) f.log;
  highest = ap (max_seq b) f.log;
  taken = λ s. ap (has_snapshot b s) f.snaps;
}

pub IsNumbered-same :
    (b n : ℕ) (db db' : Db) → SameNumbers b db db' → IsNumbered b n db → IsNumbered b n db'
IsNumbered-same b n db db' same k = record {
  numbers = λ s. same.patches s ∙ k.numbers s;
  last = same.highest ∙ k.last;
  snaps = λ s. same.taken s ∙ k.snaps s;
}

-- another block's patch
pub SameNumbers-row :
    (b : ℕ) (db : Db) (row : PatchRow)
    → (row.block_id == b) ≡ false
    → SameNumbers b db (record db { patch_log = db.patch_log ++ row ∷ [] })
SameNumbers-row b db row other = record {
  patches = λ s. any_of-append _ db.patch_log row ∙ rw other (ground arith);
  highest = max_seq-append b db.patch_log row ∙ rw other;
  taken = λ s. refl;
}

-- another block's snapshot
pub SameNumbers-snapshot :
    (b : ℕ) (db : Db) (x : SharedBlockSnapshot)
    → (x.block_id == b) ≡ false
    → SameNumbers b db (record db { snapshots = db.snapshots ++ x ∷ [] })
SameNumbers-snapshot b db x other = record {
  patches = λ s. refl;
  highest = refl;
  taken = λ s. any_of-append _ db.snapshots x ∙ rw other (ground arith);
}

-- the patch is numbered next
unfoldable pub IsLogged : (b n : ℕ) (db db' : Db) → Type 0
IsLogged b n db db' =
    ((s : ℕ) → has_patch b s db'.patch_log ≡ (leb 1 s && leb s (suc n)))
    × (max_seq b db'.patch_log ≡ suc n)
    × (db'.snapshots ≡ db.snapshots)

pub insert_patch-IsLogged :
    (b n : ℕ) (db : Db) (row : PatchRow)
    → row.block_id ≡ b
    → row.patch_seq ≡ suc n
    → IsNumbered b n db
    → (db' : Db) × (insert_patch row db ≡ ok db')
      × IsLogged b n db db'
      × (db' ≡ record db { patch_log = db.patch_log ++ row ∷ [] })
unfolding insert_patch IsLogged
insert_patch-IsLogged b n db row here next k =
    let free : has_patch row.block_id row.patch_seq db.patch_log ≡ false =
      ap (λ c. has_patch c row.patch_seq db.patch_log) here
      ∙ k.numbers row.patch_seq
      ∙ ground arith in
    (
      record db { patch_log = db.patch_log ++ row ∷ [] },
      rw free,
      (
        λ s. any_of-append _ db.patch_log row ∙ ground (arith, k.numbers s),
        max_seq-append b db.patch_log row ∙ ground (arith, k.last),
        refl,
      ),
      refl,
    )

-- what the end of a patch comes to
pub record Finished (host : BlockHost) (b n now : ℕ) (db : Db) : Type 0 where
  pub after : Db
  pub ends :
      finish host b (suc n) now db
      ≡ ok (
        record { patch_seq = suc n; snapshot_taken = suc n % auto_snapshot_interval == 0 },
        after,
      )
  pub numbered : IsNumbered b (suc n) after
  pub others : (c : ℕ) → (b == c) ≡ false → SameNumbers c db after
  pub rights : (a : String) (c : ℕ) → get_role c a after ≡ get_role c a db

pub finish-Finished :
    (host : BlockHost) (b n now : ℕ) (before db : Db)
    → IsNumbered b n before
    → IsLogged b n before db
    → Finished host b n now db
unfolding IsLogged finish write_snapshot get_role is_owner is_member
finish-Finished host b n now before db k (numbers, last, snaps) =
    elim (Bool-cases (suc n % auto_snapshot_interval == 0)) [
      | inr between ↦ record {
        after = db;
        ends = rw between;
        numbered = record {
          numbers = numbers;
          last = last;
          snaps = λ s. ap (has_snapshot b s) snaps ∙ k.snaps s ∙ ground arith;
        };
        others = λ c other. record { patches = λ s. refl; highest = refl; taken = λ s. refl };
        rights = λ a c. refl;
      }
      | inl due ↦
          let free : has_snapshot b (suc n) db.snapshots ≡ false =
            ap (has_snapshot b (suc n)) snaps ∙ k.snaps (suc n) ∙ ground arith in
          record {
            after = record db {
              snapshots =
                  db.snapshots
                  ++ record {
                    block_id = b;
                    snapshot_seq = suc n;
                    content_json = build_snapshot_json host b db;
                    created_at = now;
                  }
                    ∷ [];
            };
            ends = rw due (rw free);
            numbered = record {
              numbers = numbers;
              last = last;
              snaps = λ s.
                  any_of-append _ db.snapshots _
                  ∙ ap (λ x. has_snapshot b s x || (b == b && suc n == s)) snaps
                  ∙ ground (arith, k.snaps s);
            };
            others = λ c other. SameNumbers-snapshot c db _ other;
            rights = λ a c. refl;
          }
    ]
