-- ===== src/SharedBlocks/Applying.antt =====
-- What applying a patch comes to.
use Prim.Native.Nat.{◌%◌}
use maids_claw.Common.{
  ℕ, suc, ◌≡◌, refl, ap, ◌∙◌, true, false, List, String, ◌==◌, ok, throw, ◌⊎◌, inl, inr, Bool-cases,
  arith,
}
use maids_claw.SharedBlocks.{Db, PatchOp, PatchRow, BlockHost}
use maids_claw.SharedBlocks.Roles.{can_edit, get_role, is_owner, is_member}
use maids_claw.SharedBlocks.Patches.{
  PatchCall, PatchParams, PatchFault, apply_patch, cannot_edit, finish, get_next_patch_seq,
  patch_row, auto_snapshot_interval,
}
use maids_claw.SharedBlocks.Frame.{Framed, is_call_fault, apply_op-Outcome}
use maids_claw.SharedBlocks.Numbering.{
  IsNumbered, IsNumbered-same, SameNumbers, SameNumbers-frame, SameNumbers-trans, SameNumbers-row,
  insert_patch-IsLogged, finish-Finished, Finished,
}

get_role-frame :
    (db db' : Db) → Framed db db' → (c : ℕ) (a : String) → get_role c a db' ≡ get_role c a db
unfolding get_role is_member
get_role-frame db db' f c a = rw (f.owners c a, get_role) (rw f.grants (rw f.members))

get_role-log :
    (db : Db) (rows : List PatchRow) (c : ℕ) (a : String)
    → get_role c a (record db { patch_log = rows }) ≡ get_role c a db
unfolding get_role is_owner is_member
get_role-log db rows c a = refl

next_seq : (b n : ℕ) (db : Db) → IsNumbered b n db → get_next_patch_seq b db ≡ suc n
unfolding get_next_patch_seq
next_seq b n db k = omega (arith, k.last)

-- a patch that is applied
pub record IsApplied (host : BlockHost) (call : PatchCall) (b : ℕ) (op : PatchOp)
    (params : PatchParams) (n : ℕ) (db : Db) : Type 0 where
  pub after : Db
  pub returns :
      apply_patch host call b op params db
      ≡ ok (
        record { patch_seq = suc n; snapshot_taken = suc n % auto_snapshot_interval == 0 },
        after,
      )
  pub allowed : can_edit b call.applied_by_agent_id db ≡ true
  pub numbered : IsNumbered b (suc n) after
  pub others : (c : ℕ) → (b == c) ≡ false → SameNumbers c db after
  pub rights : (a : String) (c : ℕ) → get_role c a after ≡ get_role c a db

-- A patch of a block whose patches are numbered from 1 without a gap fails as the call asks for, never
-- because its number is taken, or it is applied: then its agent may edit the block, it has the next
-- number, a snapshot is taken at each multiple of 25 and at no other, the numbers and snapshots of the
-- other blocks stay, and no agent's role for any block changes.
pub apply_patch-IsApplied :
    (host : BlockHost) (call : PatchCall) (b : ℕ) (op : PatchOp) (params : PatchParams) (n : ℕ)
    (db : Db)
    → IsNumbered b n db
    → ((e : PatchFault) × (apply_patch host call b op params db ≡ throw e)
        × (is_call_fault e ≡ true))
      ⊎ IsApplied host call b op params n db
unfolding apply_patch patch_row
apply_patch-IsApplied host call b op params n db k =
    elim (Bool-cases (can_edit b call.applied_by_agent_id db)) [
      | inr refused ↦ inl (cannot_edit, rw refused, refl)
      | inl allowed ↦ elim (apply_op-Outcome call b op params db) [
        | inl (e, fails, fault) ↦ inl (e, rw allowed (rw fails), fault)
        | inr (db1, applied, framed) ↦
            let k1 : IsNumbered b n db1 =
              IsNumbered-same b n db db1 (SameNumbers-frame b db db1 framed) k in
            let row : PatchRow = patch_row call b op params db (get_next_patch_seq b db1) in
            let (db2, inserted, logged, made) =
              insert_patch-IsLogged b n db1 row refl (next_seq b n db1 k1) k1 in
            let f : Finished host b n call.now db2 =
              finish-Finished host b n call.now db1 db2 k1 logged in
            inr (record {
              after = f.after;
              returns = rw allowed (
                  rw applied (
                    rw inserted
                      (ap (λ seq. finish host b seq call.now db2) (next_seq b n db1 k1) ∙ f.ends)));
              allowed = allowed;
              numbered = f.numbered;
              others = λ c other.
                  SameNumbers-trans c db db1 f.after (SameNumbers-frame c db db1 framed) (
                    SameNumbers-trans c db1 db2 f.after (rw made (SameNumbers-row c db1 row other))
                      (f.others c other));
              rights = λ a c.
                  f.rights a c
                  ∙ ap (get_role c a) made
                  ∙ get_role-log db1 _ c a
                  ∙ get_role-frame db db1 framed c a;
            })
      ]
    ]
