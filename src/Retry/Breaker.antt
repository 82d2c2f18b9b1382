-- ===== src/Retry/Breaker.antt =====
-- Sequences of calls at the `CircuitBreaker` of packages/rpc/src/retry-policy.ts.
use automated_cross_contract.Prelude.{
  ℕ, ◌+◌, ◌≤◌, ◌<◌, ◌≡◌, refl, Bool, true, false, ◌&&◌, none, some, List, [], ◌∷◌, leb, length, All,
  arith, map, subst, sym, ◌∙◌,
}
use automated_cross_contract.Retry.{
  SorobanResurrectErrorCode, is_retryable, CircuitBreaker, should_retry,
}

-- a failed call: the time, the error's code and the number of the attempt
abbrev pub Call : Type 0
Call = ℕ × SorobanResurrectErrorCode × ℕ

-- the breaker behind some calls
abbrev pub after_calls : List Call → CircuitBreaker → CircuitBreaker
after_calls [] b = b
after_calls ((now, code, attempt) ∷ calls) b = after_calls calls (should_retry now code attempt b).1

-- the answers to some calls
abbrev pub answers : List Call → CircuitBreaker → List Bool
answers [] b = []
answers ((now, code, attempt) ∷ calls) b =
    (should_retry now code attempt b).0 ∷ answers calls (should_retry now code attempt b).1

-- what a breaker answers that only counts attempts
abbrev pub allowed : CircuitBreaker → List Call → List Bool
allowed b = map (λ c. leb c.2 b.max_retries && is_retryable c.1)

-- A probe is in flight only while the circuit is open, and a closed circuit has not reached the threshold.
pub record IsConsistent (b : CircuitBreaker) : Type 0 where
  pub probes_open : b.circuit_open_at ≡ none → b.half_open_probe_in_flight ≡ false
  pub below : b.circuit_open_at ≡ none → b.consecutive_failures < b.failure_threshold

should_retry-IsConsistent :
    (now : ℕ) (code : SorobanResurrectErrorCode) (attempt : ℕ) (b : CircuitBreaker)
    → IsConsistent b
    → IsConsistent (should_retry now code attempt b).1
unfolding should_retry
should_retry-IsConsistent now code attempt b v = record {
  probes_open = ground (arith, v.probes_open);
  below = ground (arith, v.below);
}

-- The breaker stays consistent through any calls.
pub after_calls-IsConsistent :
    (calls : List Call) (b : CircuitBreaker) → IsConsistent b → IsConsistent (after_calls calls b)
after_calls-IsConsistent [] b v = v
after_calls-IsConsistent ((now, code, attempt) ∷ calls) b v =
    after_calls-IsConsistent calls (should_retry now code attempt b).1
      (should_retry-IsConsistent now code attempt b v)

-- the call is within the time-out of a circuit opened at `since`
abbrev Within : CircuitBreaker → ℕ → Call → Type 0
Within b since c = c.0 ≤ since + b.open_circuit_timeout_ms

open_rejects :
    (since : ℕ) (calls : List Call) (b : CircuitBreaker)
    → b.circuit_open_at ≡ some since
    → All (Within b since) calls
    → All (λ a. a ≡ false) (answers calls b)
unfolding should_retry
open_rejects since [] b opened h = tt
open_rejects since ((now, code, attempt) ∷ calls) b opened (early, h) =
    let same : should_retry now code attempt b ≡ (false, b) = ground arith in
    rw (same, should_retry) (refl, open_rejects since calls b opened h)

probe_rejects :
    (since : ℕ) (calls : List Call) (b : CircuitBreaker)
    → b.circuit_open_at ≡ some since
    → b.half_open_probe_in_flight ≡ true
    → All (λ a. a ≡ false) (answers calls b)
unfolding should_retry
probe_rejects since [] b opened probing = tt
probe_rejects since ((now, code, attempt) ∷ calls) b opened probing =
    let same : should_retry now code attempt b ≡ (false, b) = ground arith in
    rw (same, should_retry) (refl, probe_rejects since calls b opened probing)

-- A circuit that calls have not opened yet: what stays, and what is counted.
record Counting (before after : CircuitBreaker) (n : ℕ) : Type 0 where
  closed : after.circuit_open_at ≡ none
  counted : after.consecutive_failures ≡ before.consecutive_failures + n
  threshold : after.failure_threshold ≡ before.failure_threshold
  timeout : after.open_circuit_timeout_ms ≡ before.open_circuit_timeout_ms
  retries : after.max_retries ≡ before.max_retries

counts_one :
    (now : ℕ) (code : SorobanResurrectErrorCode) (attempt : ℕ) (b : CircuitBreaker)
    → b.circuit_open_at ≡ none
    → b.consecutive_failures + 1 < b.failure_threshold
    → should_retry now code attempt b ≡ (
      leb attempt b.max_retries && is_retryable code,
      record b { consecutive_failures = b.consecutive_failures + 1 },
    )
unfolding should_retry
counts_one now code attempt b closed small = ground arith

counts_all :
    (calls : List Call) (b : CircuitBreaker)
    → b.circuit_open_at ≡ none
    → b.consecutive_failures + length calls < b.failure_threshold
    → (answers calls b ≡ allowed b calls) × Counting b (after_calls calls b) (length calls)
counts_all [] b closed small = (
  refl,
  record {
    closed = closed;
    counted = omega arith;
    threshold = refl;
    timeout = refl;
    retries = refl;
  },
)
counts_all ((now, code, attempt) ∷ calls) b closed small =
    let next : CircuitBreaker = record b { consecutive_failures = b.consecutive_failures + 1 } in
    let (same, c) = counts_all calls next closed (omega arith) in
    rw (counts_one now code attempt b closed (omega arith)) (
      rw same refl,
      record {
        closed = c.closed;
        counted = omega (arith, c.counted);
        threshold = c.threshold;
        timeout = c.timeout;
        retries = c.retries;
      },
    )

opens_at :
    (now : ℕ) (code : SorobanResurrectErrorCode) (attempt : ℕ) (b : CircuitBreaker)
    → b.circuit_open_at ≡ none
    → b.consecutive_failures + 1 ≡ b.failure_threshold
    → ((should_retry now code attempt b).0 ≡ false)
      × ((should_retry now code attempt b).1.circuit_open_at ≡ some now)
      × ((should_retry now code attempt b).1.open_circuit_timeout_ms ≡ b.open_circuit_timeout_ms)
unfolding should_retry
opens_at now code attempt b closed reached = ground arith

-- With a closed circuit, the failures before the threshold are answered by the number of the attempt and
-- the error's code alone. The failure that reaches the threshold opens the circuit and is refused, and
-- then every call is refused until the time-out is over.
pub should_retry_opens :
    (calls later : List Call) (now : ℕ) (code : SorobanResurrectErrorCode) (attempt : ℕ)
    (b : CircuitBreaker)
    → b.circuit_open_at ≡ none
    → b.consecutive_failures + length calls + 1 ≡ b.failure_threshold
    → All (λ c. c.0 ≤ now + b.open_circuit_timeout_ms) later
    → (answers calls b ≡ allowed b calls)
      × ((should_retry now code attempt (after_calls calls b)).0 ≡ false)
      × All (λ a. a ≡ false) (answers later (should_retry now code attempt (after_calls calls b)).1)
should_retry_opens calls later now code attempt b closed reached early =
    let (same, c) = counts_all calls b closed (omega arith) in
    let (refused, opened, timeout) =
      opens_at now code attempt (after_calls calls b) c.closed
        (omega (arith, c.counted, c.threshold)) in
    (
      same,
      refused,
      open_rejects now later (should_retry now code attempt (after_calls calls b)).1 opened
          (subst (λ t. All (λ c. c.0 ≤ now + t) later) (sym (timeout ∙ c.timeout)) early),
    )

probe_starts :
    (since now : ℕ) (code : SorobanResurrectErrorCode) (attempt : ℕ) (b : CircuitBreaker)
    → b.circuit_open_at ≡ some since
    → b.half_open_probe_in_flight ≡ false
    → since + b.open_circuit_timeout_ms < now
    → 1 < b.failure_threshold
    → should_retry now code attempt b ≡ (
      leb attempt b.max_retries && is_retryable code,
      record b { half_open_probe_in_flight = true; consecutive_failures = 1 },
    )
unfolding should_retry
probe_starts since now code attempt b opened idle late many = ground arith

-- Once the time-out of an open circuit is over and the threshold is above 1, one call is let through as
-- the probe; every call after it, at any time, is refused for as long as `reset` is not called.
pub should_retry_probes_once :
    (since now : ℕ) (code : SorobanResurrectErrorCode) (attempt : ℕ) (later : List Call)
    (b : CircuitBreaker)
    → b.circuit_open_at ≡ some since
    → b.half_open_probe_in_flight ≡ false
    → since + b.open_circuit_timeout_ms < now
    → 1 < b.failure_threshold
    → ((should_retry now code attempt b).0 ≡ (leb attempt b.max_retries && is_retryable code))
      × All (λ a. a ≡ false) (answers later (should_retry now code attempt b).1)
should_retry_probes_once since now code attempt later b opened idle late many =
    rw (probe_starts since now code attempt b opened idle late many) (
      refl,
      probe_rejects since later
          (record b { half_open_probe_in_flight = true; consecutive_failures = 1 }) opened refl,
    )
