-- ===== src/Belief.antt =====
-- src/memory/cognition/belief-revision.ts: the stances and bases of an assertion, and which changes
-- of them a revision may make. A thrown `MaidsClawError` is a value that holds its code.
pub mod Projection
pub mod Diagram
pub mod History
pub mod Contested
use maids_claw.Common.{◌≡◌, Bool, true, false, Option, none, some, Result, ok, throw, if◌then◌else◌}

pub data Stance : Type 0 where
  hypothetical tentative accepted confirmed contested rejected abandoned : Stance

pub data Basis : Type 0 where
  first_hand hearsay inference introspection belief : Basis

pub data Fault : Type 0 where
  missing_pre_contested_stance illegal_stance_transition illegal_basis_downgrade : Fault

pub Stance-discrete : Discrete Stance
Stance-discrete = hlevel

-- the state of an assertion, without the id, which no test reads
pub record ExistingAssertion : Type 0 where
  pub stance : Option Stance
  pub basis : Option Basis
  pub pre_contested_stance : Option Stance

-- `TERMINAL_STANCES`
unfoldable pub is_terminal_stance : Stance → Bool
is_terminal_stance rejected = true
is_terminal_stance abandoned = true
is_terminal_stance _ = false

-- `ALLOWED_STANCE_TRANSITIONS.get(from).has(to)`
unfoldable pub allowed_stance : Stance → Stance → Bool
allowed_stance hypothetical tentative = true
allowed_stance hypothetical accepted = true
allowed_stance hypothetical contested = true
allowed_stance hypothetical rejected = true
allowed_stance hypothetical abandoned = true
allowed_stance tentative accepted = true
allowed_stance tentative contested = true
allowed_stance tentative rejected = true
allowed_stance tentative abandoned = true
allowed_stance accepted confirmed = true
allowed_stance accepted contested = true
allowed_stance accepted rejected = true
allowed_stance accepted abandoned = true
allowed_stance accepted tentative = true
allowed_stance confirmed accepted = true
allowed_stance confirmed contested = true
allowed_stance contested rejected = true
allowed_stance _ _ = false

-- `===` on stances
unfoldable pub same_stance : Stance → Stance → Bool
same_stance hypothetical hypothetical = true
same_stance tentative tentative = true
same_stance accepted accepted = true
same_stance confirmed confirmed = true
same_stance contested contested = true
same_stance rejected rejected = true
same_stance abandoned abandoned = true
same_stance _ _ = false

-- the rule for leaving `contested` for anything but `rejected`
unfoldable pub leave_contested : Option Stance → Stance → Result Fault (Unit {0})
unfolding same_stance allowed_stance
leave_contested none next = throw missing_pre_contested_stance
leave_contested (some before) next =
    if same_stance next before
    then ok tt
    else if allowed_stance before next
    then ok tt
    else throw illegal_stance_transition

unfoldable pub follow_table : Stance → Stance → Result Fault (Unit {0})
unfolding allowed_stance
follow_table current next =
    if allowed_stance current next then ok tt else throw illegal_stance_transition

unfoldable pub check_stance : Option Stance → Option Stance → Stance → Result Fault (Unit {0})
unfolding leave_contested follow_table
check_stance none before next = ok tt
check_stance (some contested) before rejected = follow_table contested rejected
check_stance (some contested) before next = leave_contested before next
check_stance (some current) before next = follow_table current next

unfoldable pub assert_legal_stance_transition : ExistingAssertion → Stance → Result Fault (Unit {0})
unfolding check_stance
assert_legal_stance_transition existing next =
    check_stance existing.stance existing.pre_contested_stance next

-- `ALLOWED_BASIS_UPGRADES`, joined with the test that the two are equal
unfoldable pub allowed_basis : Basis → Basis → Bool
allowed_basis belief inference = true
allowed_basis belief first_hand = true
allowed_basis inference first_hand = true
allowed_basis hearsay first_hand = true
allowed_basis _ _ = false

unfoldable pub same_basis : Basis → Basis → Bool
same_basis first_hand first_hand = true
same_basis hearsay hearsay = true
same_basis inference inference = true
same_basis introspection introspection = true
same_basis belief belief = true
same_basis _ _ = false

unfoldable pub assert_basis_upgrade_only : Option Basis → Option Basis → Result Fault (Unit {0})
unfolding allowed_basis same_basis
assert_basis_upgrade_only none next = ok tt
assert_basis_upgrade_only (some current) none = ok tt
assert_basis_upgrade_only (some current) (some next) =
    if same_basis current next
    then ok tt
    else if allowed_basis current next
    then ok tt
    else throw illegal_basis_downgrade
