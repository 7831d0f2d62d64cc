-- ===== src/Tests/Beliefs.antt =====
-- Histories of one assertion.
use maids_claw.Common.{
  ◌≡◌, ◌≢◌, refl, ◌⊎◌, ◌↔◌, inl, Option, none, some, List, [], ◌∷◌, ok, throw, false,
}
use maids_claw.Belief.{
  Stance, tentative, accepted, contested, rejected, Basis, belief, inference,
  missing_pre_contested_stance, assert_legal_stance_transition,
}
use maids_claw.Belief.Diagram.{At, Revises, assert_legal_stance_transition_iff}
use maids_claw.Belief.Projection.{
  Current, Write, Op, upsert, retract, terminal_key_reuse, missing_pre_contested, revision,
  upsert_assertion, history,
}
use maids_claw.Belief.History.{BasisKept, basis_of, history-BasisKept, IsClosed, IsClosed-absorbs}
use maids_claw.Belief.Contested.{never_missing}

abbrev write : Stance → Option Basis → Option Stance → Write
write s b p = record { stance = s; basis = b; pre_contested_stance = p; now = 20 }

abbrev held : Current
held = record {
  stance = some tentative;
  basis = some belief;
  pre_contested_stance = none;
  retracted = false;
  updated_at = 10;
}

abbrev turns : List Op
turns =
    upsert (write accepted (some inference) none)
    ∷ upsert (write contested none (some accepted))
    ∷ retract 30
    ∷ []

history-BasisKept_example : BasisKept (basis_of (some held)) (basis_of (history (some held) turns))
history-BasisKept_example = history-BasisKept (some held) turns

abbrev closed : Current
closed = record held { stance = some rejected }

IsClosed-absorbs_example :
    IsClosed (history (some closed) turns)
    × ((upsert_assertion (history (some closed) turns) (write accepted none none)
          ≡ throw terminal_key_reuse)
        ⊎ (upsert_assertion (history (some closed) turns) (write accepted none none)
            ≡ throw missing_pre_contested))
IsClosed-absorbs_example =
    IsClosed-absorbs (some closed) turns (write accepted none none) (inl refl)

assert_legal_stance_transition_iff_example :
    (assert_legal_stance_transition (At contested (some tentative) none) accepted ≡ ok tt)
    ↔ Revises (some tentative) contested accepted
assert_legal_stance_transition_iff_example =
    assert_legal_stance_transition_iff contested accepted (some tentative) none

never_missing_example :
    upsert_assertion (history none turns) (write accepted none none)
    ≢ throw (revision missing_pre_contested_stance)
never_missing_example = never_missing turns (write accepted none none)
