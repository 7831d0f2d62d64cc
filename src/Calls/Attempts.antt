-- ===== src/Calls/Attempts.antt =====
-- How often a call is made, what comes of it, and how long the waits between are.
use native.Mathlib.Nat.{add-zero}
use maids_claw.Common.{
  ℕ, zero, suc, ◌+◌, ◌≤◌, ◌<◌, ◌≡◌, refl, ap, true, false, [], ◌∷◌, Option, none, some, leb, length,
  arith, ◌⊎◌, inl, inr, Result, ok, throw, Result-cases, Bool-cases, All,
}
use maids_claw.Calls.{
  Thrown, MaidsClawError, RetryPolicy, Retry, Retried, wrap_error, wants_retry, delay_ms,
  retry_loop, with_retry,
}

module _ {S A : Type 0} (fn : S → Result Thrown A × S) where
  -- the world after `n` calls
  abbrev pub after : ℕ → S → S
  after zero s = s
  after (suc n) s = after n (fn s).1

  -- the call made from this world throws an error that asks for another attempt
  abbrev pub IsRetried : RetryPolicy → ℕ → S → Type 0
  IsRetried policy attempt s =
      (thrown : Thrown) × ((fn s).0 ≡ throw thrown)
      × (wants_retry policy (wrap_error thrown) attempt ≡ true)

  -- the call made from this world ends the attempts, with this outcome
  abbrev pub IsLast : RetryPolicy → ℕ → S → Result (Option MaidsClawError) A → Type 0
  IsLast policy attempt s outcome =
      ((a : A) × ((fn s).0 ≡ ok a) × (outcome ≡ ok a))
      ⊎ ((thrown : Thrown) × ((fn s).0 ≡ throw thrown)
          × (outcome ≡ throw (some (wrap_error thrown)))
          × ((wants_retry policy (wrap_error thrown) attempt ≡ false)
              ⊎ (attempt ≡ policy.max_attempts)))

  -- the run from this attempt on: so many calls are retried, and one more is the last
  pub record Ends (policy : RetryPolicy) (attempt : ℕ) (s : S) (run : Retried S A) : Type 0 where
    pub retried : ℕ
    pub within : attempt + retried ≤ policy.max_attempts
    pub calls : run.world ≡ after (suc retried) s
    pub reported : length run.retries ≡ retried
    pub failed : (j : ℕ) → j < retried → IsRetried policy (attempt + j) (after j s)
    pub last : IsLast policy (attempt + retried) (after retried s) run.outcome
    pub waits : All (λ (r : Retry). r.waits_ms ≤ policy.max_backoff_ms) run.retries

  stops :
      (policy : RetryPolicy) (attempt : ℕ) (s : S) (outcome : Result (Option MaidsClawError) A)
      → attempt ≤ policy.max_attempts
      → IsLast policy attempt s outcome
      → Ends policy attempt s (record { outcome = outcome; world = (fn s).1; retries = [] })
  stops policy attempt s outcome within last = record {
    retried = 0;
    within = omega arith;
    calls = refl;
    reported = refl;
    failed = λ j less. absurd (omega arith);
    last = rw add-zero last;
    waits = tt;
  }

  -- one retried call more comes first
  retries_once :
      (policy : RetryPolicy) (attempt : ℕ) (s : S) (thrown : Thrown) (rest : Retried S A)
      → (fn s).0 ≡ throw thrown
      → wants_retry policy (wrap_error thrown) attempt ≡ true
      → Ends policy (attempt + 1) (fn s).1 rest
      → Ends policy attempt s (record rest {
        retries =
            record {
              error = wrap_error thrown;
              attempt = attempt;
              waits_ms = delay_ms policy attempt;
            }
            ∷ rest.retries;
      })
  unfolding delay_ms
  retries_once policy attempt s thrown rest threw again e =
      let next : (j : ℕ) → (attempt + 1) + j ≡ attempt + suc j = λ j. omega arith in
      record {
        retried = suc e.retried;
        within = omega (arith, e.within);
        calls = e.calls;
        reported = ap suc e.reported;
        failed = failed next;
        last = rw (← next e.retried) e.last;
        waits = (omega arith, e.waits);
      }
    where
      failed :
          ((j : ℕ) → (attempt + 1) + j ≡ attempt + suc j)
          → (j : ℕ) → j < suc e.retried
          → IsRetried policy (attempt + j) (after j s)
      failed next zero less = rw add-zero (thrown, threw, again)
      failed next (suc j) less = rw (← next j) (e.failed j (omega arith))

  retry_loop-Ends :
      (policy : RetryPolicy) (rounds attempt : ℕ) (last_error : Option MaidsClawError) (s : S)
      → attempt + rounds ≡ suc policy.max_attempts
      → 0 < rounds
      → Ends policy attempt s (retry_loop fn policy rounds attempt last_error s)
  unfolding retry_loop
  retry_loop-Ends policy zero attempt last_error s sum some_left = absurd (omega arith)
  retry_loop-Ends policy (suc rounds) attempt last_error s sum some_left =
      elim (Result-cases (fn s).0) [
        | inl (a, returned) ↦
            rw (returned, retry_loop)
              (stops policy attempt s (ok a) (omega arith) (inl (a, returned, refl)))
        | inr (thrown, threw) ↦ elim (Bool-cases (wants_retry policy (wrap_error thrown) attempt)) [
          | inr enough ↦
              rw (threw, retry_loop)
                (rw enough (
                  stops policy attempt s (throw (some (wrap_error thrown))) (omega arith)
                    (inr (thrown, threw, refl, inl enough))))
          | inl again ↦ elim (Bool-cases (leb policy.max_attempts attempt)) [
            | inl over ↦
                let at_end : attempt ≡ policy.max_attempts = ground arith in
                rw (threw, retry_loop)
                  (rw again (
                    rw over (
                      stops policy attempt s (throw (some (wrap_error thrown))) (omega arith)
                        (inr (thrown, threw, refl, inr at_end)))))
            | inr left ↦
                let before : attempt < policy.max_attempts = ground arith in
                let e : Ends policy (attempt + 1) (fn s).1 (
                    retry_loop fn policy rounds (attempt + 1) (some (wrap_error thrown)) (fn s).1) =
                  retry_loop-Ends policy rounds (attempt + 1) (some (wrap_error thrown)) (fn s).1
                    (omega arith) (omega arith) in
                rw (threw, retry_loop)
                  (rw again (rw left (retries_once policy attempt s thrown _ threw again e)))
          ]
        ]
      ]

-- A call that is retried ends, for a policy of one attempt at least: all its calls but the last threw
-- an error that asks for another attempt, the last returned, or threw an error that does not, or was
-- the last that the policy allows, and what it returned or threw is the outcome; the waits between
-- the calls are within the policy's longest.
pub with_retry-Ends :
    {S A : Type 0} (fn : S → Result Thrown A × S) (policy : RetryPolicy) (s : S)
    → 0 < policy.max_attempts
    → Ends fn policy 1 s (with_retry fn policy s)
unfolding with_retry
with_retry-Ends fn policy s allowed =
    retry_loop-Ends fn policy policy.max_attempts 1 none s (omega arith) allowed
