-- ===== src/Belief/Diagram.antt =====
-- The revision diagram, and that the checks of belief-revision.ts follow it.
use maids_claw.Common.{
  ◌≡◌, refl, true, Option, none, some, ok, inl, inr, ◌↔◌, arith, sym, ap, Bool-cases, ◌≢◌,
}
use maids_claw.Belief.{
  Stance, hypothetical, tentative, accepted, confirmed, contested, rejected, abandoned, Basis,
  ExistingAssertion, check_stance, follow_table, leave_contested, allowed_stance, same_stance,
  assert_legal_stance_transition,
}

-- The revision diagram, written independently of the table's code.
pub data Arrow : Stance → Stance → Type 0 where
  firm_up : Arrow hypothetical tentative
  assume : Arrow hypothetical accepted
  settle : Arrow tentative accepted
  confirm : Arrow accepted confirmed
  doubt : Arrow accepted tentative
  soften : Arrow confirmed accepted
  dispute_hypothetical : Arrow hypothetical contested
  dispute_tentative : Arrow tentative contested
  dispute_accepted : Arrow accepted contested
  dispute_confirmed : Arrow confirmed contested
  reject_hypothetical : Arrow hypothetical rejected
  reject_tentative : Arrow tentative rejected
  reject_accepted : Arrow accepted rejected
  reject_contested : Arrow contested rejected
  drop_hypothetical : Arrow hypothetical abandoned
  drop_tentative : Arrow tentative abandoned
  drop_accepted : Arrow accepted abandoned

ruleset arrows = (
  firm_up, assume, settle, confirm, doubt, soften, dispute_hypothetical, dispute_tentative,
  dispute_accepted, dispute_confirmed, reject_hypothetical, reject_tentative, reject_accepted,
  reject_contested, drop_hypothetical, drop_tentative, drop_accepted,
)

-- A contested assertion is rejected, goes back to what it was, or goes where that could have gone.
pub data Revises (before : Option Stance) : Stance → Stance → Type 0 where
  along : {s t : Stance} → s ≢ contested → Arrow s t → Revises before s t
  give_in : Revises before contested rejected
  restore : {t : Stance} → t ≢ rejected → before ≡ some t → Revises before contested t
  resume : {s t : Stance} → t ≢ rejected → before ≡ some s → Arrow s t → Revises before contested t

abbrev pub At : Stance → Option Stance → Option Basis → ExistingAssertion
At s before b = record { stance = some s; basis = b; pre_contested_stance = before }

Arrow-of_allowed : (s t : Stance) → allowed_stance s t ≡ true → Arrow s t
unfolding allowed_stance
Arrow-of_allowed hypothetical t h = grind (arith, arrows)
Arrow-of_allowed s t h = grind (arith, arrows)

allowed_of_Arrow : {s t : Stance} → Arrow s t → allowed_stance s t ≡ true
unfolding allowed_stance
allowed_of_Arrow firm_up = refl
allowed_of_Arrow _ = refl

same_stance_iff : (s t : Stance) → (same_stance s t ≡ true) ↔ (s ≡ t)
unfolding same_stance
same_stance_iff s t = ground arith

resumes :
    (before : Option Stance) (t : Stance)
    → t ≢ rejected
    → leave_contested before t ≡ ok tt
    → Revises before contested t
unfolding leave_contested
resumes none t n h = cc
resumes (some s) t n h = elim (Bool-cases (same_stance t s)) [
  | inl same ↦ restore n (ap some (sym ((same_stance_iff t s).0 same)))
  | inr other ↦ resume n refl (Arrow-of_allowed s t (ground arith))
]

follows : (s t : Stance) → follow_table s t ≡ ok tt → Arrow s t
unfolding follow_table
follows s t h = Arrow-of_allowed s t (ground arith)

sound :
    (s t : Stance) (before : Option Stance)
    → check_stance (some s) before t ≡ ok tt
    → Revises before s t
unfolding check_stance
sound contested rejected before h = give_in
sound contested hypothetical before h = resumes before hypothetical (λ e. cc) h
sound contested t before h = resumes before t (λ e. cc) h
sound hypothetical t before h = along (λ e. cc) (follows hypothetical t h)
sound s t before h = along (λ e. cc) (follows s t h)

follows_of_Arrow : {s t : Stance} → Arrow s t → follow_table s t ≡ ok tt
unfolding follow_table
follows_of_Arrow a = rw (allowed_of_Arrow a)

abbrev Leaves : Stance → Stance → Type 0
Leaves before t = leave_contested (some before) t ≡ ok tt

Leaves-of_same : (s t : Stance) → s ≡ t → Leaves s t
unfolding leave_contested
Leaves-of_same s t e = rw ((same_stance_iff t s).1 (sym e))

Leaves-of_Arrow : (s t : Stance) → Arrow s t → Leaves s t
unfolding leave_contested
Leaves-of_Arrow s t a = ground (arith, allowed_of_Arrow a)

check_contested :
    (before : Option Stance) (t : Stance)
    → t ≢ rejected
    → check_stance (some contested) before t ≡ leave_contested before t
unfolding check_stance
check_contested before rejected n = absurd (n refl)
check_contested before t n = refl

check_other :
    (s t : Stance) (before : Option Stance)
    → s ≢ contested
    → check_stance (some s) before t ≡ follow_table s t
unfolding check_stance
check_other contested t before n = absurd (n refl)
check_other s t before n = refl

complete :
    {s t : Stance} {before : Option Stance}
    → Revises before s t
    → check_stance (some s) before t ≡ ok tt
complete (along n a) = rw (check_other _ _ _ n) (follows_of_Arrow a)
complete give_in = unfold check_stance in follows_of_Arrow reject_contested
complete (restore n e) = rw (e, check_contested _ _ n) (Leaves-of_same _ _ refl)
complete (resume n e a) = rw (e, check_contested _ _ n) (Leaves-of_Arrow _ _ a)

-- A stance change passes the check exactly when it follows an arrow of the diagram, or it leaves
-- `contested` for `rejected`, for the stance that held before, or for where that one leads.
pub assert_legal_stance_transition_iff :
    (s t : Stance) (before : Option Stance) (b : Option Basis)
    → (assert_legal_stance_transition (At s before b) t ≡ ok tt) ↔ Revises before s t
unfolding assert_legal_stance_transition
assert_legal_stance_transition_iff s t before b = (sound s t before, λ r. complete r)
