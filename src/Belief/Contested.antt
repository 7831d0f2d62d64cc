-- ===== src/Belief/Contested.antt =====
-- A contested row always remembers the stance that held before.
use maids_claw.Common.{
  ◌≡◌, refl, Option, none, some, List, [], ◌∷◌, Result, ok, throw, inl, inr, arith, ◌≢◌, leb,
  Bool-cases,
}
use maids_claw.Belief.{Stance, contested, missing_pre_contested_stance, check_stance}
use maids_claw.Belief.Projection.{
  Current, Write, coalesce, RepoFault, revision, kept, apply_retract, upsert_assertion, Op, upsert,
  retract, apply_op, apply_upsert, guard_existing, guard_contested, history,
}
use maids_claw.Belief.History.{upsert_passed}

abbrev pub IsDocumented : Option Current → Type 0
IsDocumented none = Unit
IsDocumented (some c) = c.stance ≡ some contested → c.pre_contested_stance ≢ none

guard_documents :
    (s : Stance) (p : Option Stance) → guard_contested s p ≡ ok tt → s ≡ contested → p ≢ none
unfolding guard_contested
guard_documents s p h e = ground arith

coalesce-ne-none : (a b : Option Stance) → a ≢ none → coalesce a b ≢ none
coalesce-ne-none none b h = absurd (h refl)
coalesce-ne-none (some a) b h = λ e. cc

apply_upsert-IsDocumented :
    (c : Option Current) (w : Write)
    → guard_contested w.stance w.pre_contested_stance ≡ ok tt
    → IsDocumented c
    → IsDocumented (some (apply_upsert c w))
unfolding apply_upsert
apply_upsert-IsDocumented none w g h = λ e. guard_documents _ _ g (cc)
apply_upsert-IsDocumented (some c) w g h = elim (Bool-cases (leb c.updated_at w.now)) [
  | inl newer ↦ rw newer (λ e. coalesce-ne-none _ _ (guard_documents _ _ g (cc)))
  | inr older ↦ rw older h
]

apply_op-IsDocumented : (c : Option Current) (o : Op) → IsDocumented c → IsDocumented (apply_op c o)
unfolding apply_op apply_retract
apply_op-IsDocumented c (upsert w) h = go (upsert_assertion c w) refl
  where
    go : (r : Result RepoFault Current) → upsert_assertion c w ≡ r → IsDocumented (kept c r)
    go (ok c') e =
        let (guarded, _, now) = upsert_passed c w e in
        rw now (apply_upsert-IsDocumented c w guarded h)
    go (throw f) e = h
apply_op-IsDocumented none (retract now) h = tt
apply_op-IsDocumented (some c) (retract now) h = λ e. cc

history-IsDocumented :
    (c : Option Current) (os : List Op) → IsDocumented c → IsDocumented (history c os)
unfolding history
history-IsDocumented c [] h = h
history-IsDocumented c (o ∷ os) h =
    history-IsDocumented (apply_op c o) os (apply_op-IsDocumented c o h)

no_missing_check :
    (s : Option Stance) (p : Option Stance) (t : Stance)
    → (s ≡ some contested → p ≢ none)
    → check_stance s p t ≢ throw missing_pre_contested_stance
unfolding check_stance
no_missing_check s p t h = ground arith

no_missing_guard :
    (c : Option Current) (w : Write)
    → IsDocumented c
    → guard_existing c w ≢ throw (revision missing_pre_contested_stance)
unfolding guard_existing
no_missing_guard none w h = λ e. cc
no_missing_guard (some c) w h =
    ground (arith, no_missing_check c.stance c.pre_contested_stance w.stance h)

-- For a key that was first written through the repository, an upsert is never refused because a
-- contested row lacks the stance that held before it was contested.
pub never_missing :
    (os : List Op) (w : Write)
    → upsert_assertion (history none os) w ≢ throw (revision missing_pre_contested_stance)
unfolding upsert_assertion guard_contested
never_missing os w =
    ground (arith, no_missing_guard (history none os) w (history-IsDocumented none os tt))
