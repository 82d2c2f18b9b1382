-- ===== src/Retry.antt =====
-- packages/rpc/src/retry-policy.ts, packages/rpc/src/retry.ts, and the classification of errors of
-- packages/errors/src/index.ts. The clock, the random number and the operation that is retried are
-- arguments. A wait is whole milliseconds; the random part of a jittered delay is given rounded.
mod Breaker
mod Deadline
mod Tests
use automated_cross_contract.Prelude.{
  ℕ, zero, suc, ◌+◌, ◌-◌, ◌*◌, ◌^◌, Bool, true, false, not, ◌&&◌, ◌||◌, Option, none, some, List,
  [], ◌∷◌, if◌then◌else◌, ltb, leb, or_else,
}

pub data SorobanResurrectErrorCode : Type 0 where
  network_error simulation_failed restore_failed invalid_xdr no_account : SorobanResurrectErrorCode
  archive_detection_failed rpc_method_unavailable network_mismatch unknown :
      SorobanResurrectErrorCode

abbrev pub is_retryable : SorobanResurrectErrorCode → Bool
is_retryable network_error = true
is_retryable simulation_failed = true
is_retryable restore_failed = true
is_retryable _ = false

-- the policies without a state: the delay grows, is constant, or doubles with a random part
pub data Backoff : Type 0 where
  exponential_backoff fixed_delay jitter_backoff : ℕ → ℕ → Backoff

abbrev pub max_retries : Backoff → ℕ
max_retries (exponential_backoff max delay_ms) = max
max_retries (fixed_delay max delay_ms) = max
max_retries (jitter_backoff max delay_ms) = max

abbrev pub backoff_should_retry : Backoff → SorobanResurrectErrorCode → ℕ → Bool
backoff_should_retry policy code attempt = leb attempt (max_retries policy) && is_retryable code

abbrev pub get_delay : Backoff → ℕ → ℕ → ℕ
get_delay (exponential_backoff max delay_ms) jitter attempt = delay_ms * attempt
get_delay (fixed_delay max delay_ms) jitter attempt = delay_ms
get_delay (jitter_backoff max delay_ms) jitter attempt = delay_ms * 2 ^ (attempt - 1) + jitter

pub record CircuitBreaker : Type 0 where
  pub max_retries : ℕ
  pub failure_threshold : ℕ
  pub open_circuit_timeout_ms : ℕ
  pub delay_ms : ℕ
  pub consecutive_failures : ℕ
  pub circuit_open_at : Option ℕ
  pub half_open_probe_in_flight : Bool

abbrev pub new_circuit_breaker : ℕ → ℕ → ℕ → ℕ → CircuitBreaker
new_circuit_breaker retries threshold timeout delay = record {
  max_retries = retries;
  failure_threshold = threshold;
  open_circuit_timeout_ms = timeout;
  delay_ms = delay;
  consecutive_failures = 0;
  circuit_open_at = none;
  half_open_probe_in_flight = false;
}

-- the part of `shouldRetry` behind the look at the circuit
unfoldable pub count_failure :
    ℕ → SorobanResurrectErrorCode → ℕ → CircuitBreaker → Bool × CircuitBreaker
count_failure now code attempt b =
    if leb b.failure_threshold (b.consecutive_failures + 1)
    then (
      false,
      record b {
        consecutive_failures = b.consecutive_failures + 1;
        circuit_open_at = some now;
        half_open_probe_in_flight = false;
      },
    )
    else (
      leb attempt b.max_retries && is_retryable code,
      record b { consecutive_failures = b.consecutive_failures + 1 },
    )

unfoldable pub should_retry :
    ℕ → SorobanResurrectErrorCode → ℕ → CircuitBreaker → Bool × CircuitBreaker
unfolding count_failure
should_retry now code attempt b = elim b.circuit_open_at [
  | none ↦ count_failure now code attempt b
  | some since ↦
      if ltb b.open_circuit_timeout_ms (now - since)
      then if b.half_open_probe_in_flight
        then (false, b)
        else count_failure now code attempt
            (record b { half_open_probe_in_flight = true; consecutive_failures = 0 })
      else (false, b)
]

abbrev pub breaker_delay : CircuitBreaker → ℕ → ℕ
breaker_delay b attempt = b.delay_ms

abbrev pub reset : CircuitBreaker → CircuitBreaker
reset b = record b {
  consecutive_failures = 0;
  circuit_open_at = none;
  half_open_probe_in_flight = false;
}

-- How an attempt goes: it resolves, fails with a `JsonRpcTransportError` (retryable or not, perhaps with a
-- `Retry-After`), or fails with another error.
pub data Attempt {ℓ} (A : Type ℓ) : Type ℓ where
  resolved : A → Attempt A
  transport_error : Bool → Option ℕ → Attempt A
  other_error : Attempt A

pub record RetryOptions : Type 0 where
  pub max_retries : ℕ
  pub get_delay : ℕ → ℕ
  pub deadline_ms : Option ℕ

abbrev pub past_deadline : RetryOptions → ℕ → Bool
past_deadline o time = elim o.deadline_ms [ none ↦ false | some limit ↦ ltb limit time ]

-- How `withRetry` ends: with a value, with the error of the attempt thrown again, or the model's fuel is
-- used up.
pub data Ending {ℓ} (A : Type ℓ) : Type ℓ where
  returned : A → Ending A
  threw : Attempt A → Ending A
  out_of_fuel : Ending A

module _ {ℓ} {A : Type ℓ} (o : RetryOptions) where
  -- the wait before the next attempt, or `none` where the error is thrown again; `elapsed` is the time
  -- since the start
  pub next_wait : ℕ → ℕ → Attempt A → Option ℕ
  next_wait elapsed attempt (transport_error retryable retry_after) =
      let delay_ms = or_else retry_after (o.get_delay attempt) in
      if not retryable || ltb o.max_retries attempt
      then none
      else if past_deadline o (elapsed + delay_ms)
      then none
      else some delay_ms
  next_wait elapsed attempt _ = none

  -- The loop from an attempt on, with the waits made. `operation n` and `elapsed n` are the outcome of the
  -- attempt `n` and the time behind it.
  pub attempt_from : (ℕ → Attempt A) → (ℕ → ℕ) → ℕ → ℕ → Ending A × List ℕ
  unfolding next_wait
  attempt_from operation elapsed zero attempt = (out_of_fuel, [])
  attempt_from operation elapsed (suc fuel) attempt =
      let rest = attempt_from operation elapsed fuel (attempt + 1) in
      elim (operation attempt) [
        | resolved a ↦ (returned a, [])
        | transport_error retryable retry_after ↦
            elim (next_wait (elapsed attempt) attempt (transport_error retryable retry_after)) [
              | none ↦ (threw (transport_error retryable retry_after), [])
              | some delay_ms ↦ (rest.0, delay_ms ∷ rest.1)
            ]
        | other_error ↦ (threw other_error, [])
      ]

  unfoldable pub with_retry : (ℕ → Attempt A) → (ℕ → ℕ) → Ending A × List ℕ
  unfolding attempt_from
  with_retry operation elapsed = attempt_from operation elapsed (o.max_retries + 1) 1
