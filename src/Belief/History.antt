-- ===== src/Belief/History.antt =====
-- What every history of upserts and retractions of one assertion key keeps.
use maids_claw.Common.{
  ◌≡◌, refl, Option, none, some, List, [], ◌∷◌, Result, ok, throw, ◌⊎◌, inl, inr, arith, ◌>>◌,
  Bool-cases, leb,
}
use maids_claw.Belief.{
  Stance, contested, rejected, abandoned, Fault, hypothetical, Basis, first_hand, hearsay,
  inference, belief, assert_basis_upgrade_only,
}
use maids_claw.Belief.Projection.{
  Current, Write, coalesce, RepoFault, lift_fault, kept, apply_retract, terminal_key_reuse,
  missing_pre_contested, upsert_assertion, Op, upsert, retract, apply_op, apply_upsert,
  guard_existing, guard_contested, history,
}

-- the evidence behind a basis: nothing replaces what was introspected or seen first hand
pub data NoWeaker : Basis → Basis → Type 0 where
  same : {b : Basis} → NoWeaker b b
  belief_inference : NoWeaker belief inference
  belief_first_hand : NoWeaker belief first_hand
  inference_first_hand : NoWeaker inference first_hand
  hearsay_first_hand : NoWeaker hearsay first_hand

NoWeaker-trans : {a b c : Basis} → NoWeaker a b → NoWeaker b c → NoWeaker a c
NoWeaker-trans same q = q
NoWeaker-trans belief_inference same = belief_inference
NoWeaker-trans belief_inference inference_first_hand = belief_first_hand
NoWeaker-trans belief_first_hand same = belief_first_hand
NoWeaker-trans inference_first_hand same = inference_first_hand
NoWeaker-trans hearsay_first_hand same = hearsay_first_hand

abbrev pub BasisKept : Option Basis → Option Basis → Type 0
BasisKept none b = Unit
BasisKept (some a) none = ⊥
BasisKept (some a) (some b) = NoWeaker a b

abbrev pub basis_of : Option Current → Option Basis
basis_of none = none
basis_of (some c) = c.basis

upgrade_NoWeaker :
    (a b : Basis) → assert_basis_upgrade_only (some a) (some b) ≡ ok tt → NoWeaker a b
unfolding assert_basis_upgrade_only
upgrade_NoWeaker belief b h = grind (arith, same, belief_inference, belief_first_hand)
upgrade_NoWeaker a b h = grind (arith, same, inference_first_hand, hearsay_first_hand)

merge_kept :
    (a b : Option Basis) → assert_basis_upgrade_only a b ≡ ok tt → BasisKept a (coalesce b a)
merge_kept none b h = tt
merge_kept (some a) none h = same
merge_kept (some a) (some b) h = upgrade_NoWeaker a b h

lift_fault_ok : (r : Result Fault (Unit {0})) → lift_fault r ≡ ok tt → r ≡ ok tt
unfolding lift_fault
lift_fault_ok (ok tt) h = refl
lift_fault_ok (throw e) h = cc

then_ok :
    {E : Type 0} {B : Type 0} (m : Result E (Unit {0})) (k : Result E B) {b : B}
    → (m >> k) ≡ ok b
    → (m ≡ ok tt) × (k ≡ ok b)
then_ok (ok tt) k h = (refl, h)
then_ok (throw e) k h = cc

-- the checks that a successful upsert has passed, and the row that it leaves
pub upsert_passed :
    (c : Option Current) (w : Write) {c' : Current}
    → upsert_assertion c w ≡ ok c'
    → (guard_contested w.stance w.pre_contested_stance ≡ ok tt)
      × (guard_existing c w ≡ ok tt)
      × (c' ≡ apply_upsert c w)
unfolding upsert_assertion
upsert_passed c w h =
    let (first, rest) = then_ok _ _ h in
    let (second, last) = then_ok _ _ rest in (first, second, cc)

kept_refl : (b : Option Basis) → BasisKept b b
kept_refl none = tt
kept_refl (some b) = same

kept_trans : (a b c : Option Basis) → BasisKept a b → BasisKept b c → BasisKept a c
kept_trans none b c p q = tt
kept_trans (some a) (some b) (some c) p q = NoWeaker-trans p q
kept_trans (some a) (some b) none p q = elim q [ ]
kept_trans (some a) none c p q = elim p [ ]

apply_upsert_kept :
    (c : Option Current) (w : Write)
    → guard_existing c w ≡ ok tt
    → BasisKept (basis_of c) (apply_upsert c w).basis
unfolding apply_upsert guard_existing
apply_upsert_kept none w h = tt
apply_upsert_kept (some c) w h =
    let merged = merge_kept c.basis w.basis (lift_fault_ok _ (then_ok _ _ h).1) in
    elim (Bool-cases (leb c.updated_at w.now)) [
      | inl newer ↦ rw newer merged
      | inr older ↦ rw older (kept_refl c.basis)
    ]

apply_op_kept : (c : Option Current) (o : Op) → BasisKept (basis_of c) (basis_of (apply_op c o))
unfolding apply_op apply_retract
apply_op_kept c (upsert w) = go (upsert_assertion c w) refl
  where
    go :
        (r : Result RepoFault Current)
        → upsert_assertion c w ≡ r
        → BasisKept (basis_of c) (basis_of (kept c r))
    go (ok c') e =
        let (_, passed, now) = upsert_passed c w e in rw now (apply_upsert_kept c w passed)
    go (throw f) e = kept_refl (basis_of c)
apply_op_kept none (retract now) = tt
apply_op_kept (some c) (retract now) = kept_refl c.basis

-- Whatever is written or retracted, in any order, the basis of an assertion is never lost and never
-- replaced by one that the revision rules do not rank above it.
pub history-BasisKept :
    (c : Option Current) (os : List Op) → BasisKept (basis_of c) (basis_of (history c os))
unfolding history
history-BasisKept c [] = kept_refl (basis_of c)
history-BasisKept c (o ∷ os) =
    kept_trans _ _ _ (apply_op_kept c o) (history-BasisKept (apply_op c o) os)

-- rejected or abandoned
abbrev pub IsClosed : Option Current → Type 0
IsClosed none = ⊥
IsClosed (some c) = (c.stance ≡ some rejected) ⊎ (c.stance ≡ some abandoned)

closed_guard :
    (c : Current) (w : Write)
    → IsClosed (some c)
    → guard_existing (some c) w ≡ throw terminal_key_reuse
unfolding guard_existing
closed_guard c w (inl e) = rw e
closed_guard c w (inr e) = rw e

guard_contested_cases :
    (s : Stance) (p : Option Stance)
    → (guard_contested s p ≡ ok tt) ⊎ (guard_contested s p ≡ throw missing_pre_contested)
unfolding guard_contested
guard_contested_cases contested none = inr refl
guard_contested_cases hypothetical p = inl refl
guard_contested_cases s p = inl refl

-- An upsert of a rejected or abandoned key never succeeds.
closed_upsert :
    (c : Option Current) (w : Write)
    → IsClosed c
    → (upsert_assertion c w ≡ throw terminal_key_reuse)
      ⊎ (upsert_assertion c w ≡ throw missing_pre_contested)
unfolding upsert_assertion
closed_upsert none w h = elim h [ ]
closed_upsert (some c) w h = elim (guard_contested_cases w.stance w.pre_contested_stance) [
  | inl fine ↦ inl (rw (fine, closed_guard c w h))
  | inr bad ↦ inr (rw bad)
]

apply_op-IsClosed : (c : Option Current) (o : Op) → IsClosed c → IsClosed (apply_op c o)
unfolding apply_op apply_retract
apply_op-IsClosed none o h = elim h [ ]
apply_op-IsClosed (some c) (upsert w) h = elim (closed_upsert (some c) w h) [
  | inl e ↦ rw e h
  | inr e ↦ rw e h
]
apply_op-IsClosed (some c) (retract now) h = inl refl

history-IsClosed : (c : Option Current) (os : List Op) → IsClosed c → IsClosed (history c os)
unfolding history
history-IsClosed c [] h = h
history-IsClosed c (o ∷ os) h = history-IsClosed (apply_op c o) os (apply_op-IsClosed c o h)

-- Once an assertion is rejected or abandoned it stays so under every history, and each later upsert
-- of its key is refused, for the key's reuse or for a contested write with no earlier stance.
pub IsClosed-absorbs :
    (c : Option Current) (os : List Op) (w : Write)
    → IsClosed c
    → IsClosed (history c os)
      × ((upsert_assertion (history c os) w ≡ throw terminal_key_reuse)
          ⊎ (upsert_assertion (history c os) w ≡ throw missing_pre_contested))
IsClosed-absorbs c os w h =
    let still = history-IsClosed c os h in (still, closed_upsert (history c os) w still)
