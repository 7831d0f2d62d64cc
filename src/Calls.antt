-- ===== src/Calls.antt =====
-- Calls that may fail, run again: `withRetry` of src/core/retry.ts, with `wrapError` and
-- `RETRIABLE_CODES` of src/core/errors.ts.
use Prim.Native.Nat.{◌^◌}
use maids_claw.Common.{
  ℕ, zero, suc, ◌+◌, ◌-◌, ◌*◌, Bool, true, false, ◌&&◌, List, [], ◌∷◌, Option, none, some, String,
  min, leb, any_of, str_eq, Result, ok, throw,
}
pub mod Attempts

pub record MaidsClawError : Type 0 where
  pub code : String
  pub retriable : Bool

-- what a function throws: an error of this program, another `Error`, or any other value
pub data Thrown : Type 0 where
  maids_claw_error : MaidsClawError → Thrown
  plain_error : Thrown
  other_value : Thrown

-- `backoffMultiplier` is a whole number in every policy of the code
pub record RetryPolicy : Type 0 where
  pub max_attempts : ℕ
  pub backoff_ms : ℕ
  pub backoff_multiplier : ℕ
  pub max_backoff_ms : ℕ
  pub should_retry : Option (MaidsClawError → ℕ → Bool)

abbrev pub retriable_codes : List String
retriable_codes =
    "MODEL_TIMEOUT" ∷ "MODEL_RATE_LIMIT" ∷ "MODEL_API_ERROR" ∷ "MCP_DISCONNECTED" ∷ "STORAGE_ERROR"
    ∷ "JOB_TIMEOUT" ∷ []

abbrev pub is_retriable_code : MaidsClawError → Bool
is_retriable_code e = any_of (λ c. str_eq c e.code) retriable_codes

abbrev pub model_retry_policy : RetryPolicy
model_retry_policy = record {
  max_attempts = 2;
  backoff_ms = 1000;
  backoff_multiplier = 2;
  max_backoff_ms = 5000;
  should_retry = some (λ e attempt. e.retriable && is_retriable_code e);
}

abbrev pub mcp_retry_policy : RetryPolicy
mcp_retry_policy = record {
  max_attempts = 2;
  backoff_ms = 500;
  backoff_multiplier = 2;
  max_backoff_ms = 3000;
  should_retry = some (λ e attempt. e.retriable && str_eq e.code "MCP_DISCONNECTED");
}

abbrev pub memory_organize_retry_policy : RetryPolicy
memory_organize_retry_policy = record {
  max_attempts = 4;
  backoff_ms = 2000;
  backoff_multiplier = 2;
  max_backoff_ms = 30000;
  should_retry = none;
}

abbrev pub no_retry_policy : RetryPolicy
no_retry_policy = record {
  max_attempts = 1;
  backoff_ms = 0;
  backoff_multiplier = 1;
  max_backoff_ms = 0;
  should_retry = none;
}

abbrev pub wrap_error : Thrown → MaidsClawError
wrap_error (maids_claw_error e) = e
wrap_error plain_error = record { code = "INTERNAL_ERROR"; retriable = false }
wrap_error other_value = record { code = "UNKNOWN_ERROR"; retriable = false }

abbrev pub asks_retry : Option (MaidsClawError → ℕ → Bool) → MaidsClawError → ℕ → Bool
asks_retry none e attempt = e.retriable && is_retriable_code e
asks_retry (some f) e attempt = f e attempt

unfoldable pub wants_retry : RetryPolicy → MaidsClawError → ℕ → Bool
wants_retry policy e attempt = asks_retry policy.should_retry e attempt

unfoldable pub delay_ms : RetryPolicy → ℕ → ℕ
delay_ms policy attempt =
    min (policy.backoff_ms * policy.backoff_multiplier ^ (attempt - 1)) policy.max_backoff_ms

-- a call of `onRetry`, and the wait that follows it
pub record Retry : Type 0 where
  pub error : MaidsClawError
  pub attempt : ℕ
  pub waits_ms : ℕ

-- what `withRetry` returns or throws, `none` where it throws `undefined`; the world after its
-- calls; and its waits
pub record Retried (S A : Type 0) : Type 0 where
  pub outcome : Result (Option MaidsClawError) A
  pub world : S
  pub retries : List Retry

module _ {S A : Type 0} (fn : S → Result Thrown A × S) where
  -- the `for` loop, with the rounds that are left of `maxAttempts`
  unfoldable pub retry_loop : RetryPolicy → ℕ → ℕ → Option MaidsClawError → S → Retried S A
  unfolding wants_retry delay_ms
  retry_loop policy zero attempt last_error s = record {
    outcome = throw last_error;
    world = s;
    retries = [];
  }
  retry_loop policy (suc rounds) attempt last_error s = elim ((fn s).0) [
    | ok a ↦ record { outcome = ok a; world = (fn s).1; retries = [] }
    | throw thrown ↦ elim (wants_retry policy (wrap_error thrown) attempt) [
      | false ↦ record {
        outcome = throw (some (wrap_error thrown));
        world = (fn s).1;
        retries = [];
      }
      | true ↦ elim (leb policy.max_attempts attempt) [
        | true ↦ record {
          outcome = throw (some (wrap_error thrown));
          world = (fn s).1;
          retries = [];
        }
        | false ↦
            let rest = retry_loop policy rounds (attempt + 1) (some (wrap_error thrown)) (fn s).1 in
            record rest {
              retries =
                  record {
                    error = wrap_error thrown;
                    attempt = attempt;
                    waits_ms = delay_ms policy attempt;
                  }
                  ∷ rest.retries;
            }
      ]
    ]
  ]

  unfoldable pub with_retry : RetryPolicy → S → Retried S A
  unfolding retry_loop
  with_retry policy s = retry_loop policy policy.max_attempts 1 none s
