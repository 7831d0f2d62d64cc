-- ===== src/Jobs/Lifecycle/Families/Freed.antt =====
-- The active jobs of a family after one of them has completed.
use maids_claw.Common.{
  ◌≡◌, refl, ap, ◌∙◌, ℕ, ◌≤◌, Bool, true, false, some, List, [], ◌∷◌, String, str_eq, eq_iff,
  find_first, any_of, count_of, arith, Bool-cases, inl, inr,
}
use maids_claw.Jobs.Rows.{
  PgJobStatus, in_active_family, update_where, is_active, is_running, is_text,
}
use maids_claw.Jobs.Rows.Updates.{Row}
use maids_claw.Jobs.Fence.{end_row}
use maids_claw.Jobs.Lifecycle.Families.{IsSingle}

none_active_after :
    (f : String) (p : Row → Bool) (now : ℕ) (rows : List Row)
    → any_of (in_active_family f) rows ≡ false
    → any_of (in_active_family f) (update_where p (end_row PgJobStatus.succeeded now) rows) ≡ false
unfolding in_active_family end_row
none_active_after f p now [] h = refl
none_active_after f p now (x ∷ xs) h = ground (arith, none_active_after f p now xs)

counted :
    (p q : Row → Bool) (rows : List Row) {r : Row}
    → find_first p rows ≡ some r
    → q r ≡ true
    → 1 ≤ count_of q rows
counted p q [] h e = cc
counted p q (x ∷ xs) {r} h e = ground (arith, counted p q xs {r = r})

none_of_count : (q : Row → Bool) (rows : List Row) → count_of q rows ≤ 0 → any_of q rows ≡ false
none_of_count q [] h = refl
none_of_count q (x ∷ xs) h = ground (arith, none_of_count q xs)

-- The completed job was the one active job of its family.
pub family_freed :
    (f : String) (p : Row → Bool) (now : ℕ) (rows : List Row) {r : Row}
    → IsSingle f rows
    → find_first p rows ≡ some r
    → in_active_family f r ≡ true
    → any_of (in_active_family f) (update_where p (end_row PgJobStatus.succeeded now) rows) ≡ false
unfolding in_active_family end_row
family_freed f p now [] one found mine = cc
family_freed f p now (x ∷ xs) {r} one found mine = elim (Bool-cases (p x)) [
  | inl hit ↦
      let same : x ≡ r = ground arith in
      let first : in_active_family f x ≡ true = ap (in_active_family f) same ∙ mine in
      let rest : any_of (in_active_family f) xs ≡ false =
        none_of_count (in_active_family f) xs (ground arith) in
      let ended = none_active_after f p now xs rest in rw hit (ground arith)
  | inr miss ↦
      let later : find_first p xs ≡ some r = rw miss at found in
      let there = counted p (in_active_family f) xs later mine in
      let other : in_active_family f x ≡ false = ground arith in
      rw miss (rw other (family_freed f p now xs (ground arith) later mine))
]

pub mine_of :
    (f : String) (r : Row)
    → r.job_family_key ≡ some f
    → is_running r.status ≡ true
    → in_active_family f r ≡ true
unfolding in_active_family is_active is_running is_text
mine_of f r family runs =
    let whole : str_eq f f ≡ true = (eq_iff f f).1 refl in rw family (ground arith)
