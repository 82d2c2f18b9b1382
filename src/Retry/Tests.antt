-- ===== src/Retry/Tests.antt =====
-- Runs of the retry policies, and the theorems at concrete calls.
use automated_cross_contract.Prelude.{
  ℕ, ◌+◌, ◌≡◌, refl, true, false, none, some, List, [], ◌∷◌, length, All, arith, String,
  if◌then◌else◌, nat_eq,
}
use automated_cross_contract.Retry.{
  network_error, invalid_xdr, exponential_backoff, jitter_backoff, get_delay, backoff_should_retry,
  CircuitBreaker, new_circuit_breaker, should_retry, Attempt, resolved, transport_error,
  RetryOptions, returned, threw, with_retry,
}
use automated_cross_contract.Retry.Breaker.{Call, answers, IsConsistent, should_retry_probes_once}
use automated_cross_contract.Retry.Deadline.{AllRetried, Ended, with_retry-Ended}

program : Unit {0}
unfolding should_retry with_retry
program = tt

doubles : get_delay (jitter_backoff 3 100) 7 3 ≡ 407
doubles = refl

no_retry : backoff_should_retry (exponential_backoff 3 500) invalid_xdr 1 ≡ false
no_retry = refl

-- three failures open the circuit
abbrev breaker : CircuitBreaker
breaker = new_circuit_breaker 3 3 100 1000

abbrev calls : List Call
calls = (10, network_error, 1) ∷ (20, network_error, 2) ∷ []

abbrev soon : List Call
soon = (40, network_error, 1) ∷ (130, network_error, 1) ∷ []

abbrev opened : CircuitBreaker
opened = record breaker { consecutive_failures = 3; circuit_open_at = some 30 }

run :
    answers
      ((10, network_error, 1)
        ∷ (20, network_error, 2)
        ∷ (30, network_error, 3)
        ∷ (140, network_error, 1)
        ∷ (500, network_error, 1)
        ∷ [])
      breaker
    ≡ true ∷ true ∷ false ∷ true ∷ false ∷ []
unfolding program
run = refl

breaker-IsConsistent : IsConsistent breaker
breaker-IsConsistent = record { probes_open = λ h. refl; below = λ h. omega arith }

should_retry_probes_once_example :
    ((should_retry 140 network_error 1 opened).0 ≡ true)
    × All (λ a. a ≡ false) (answers calls (should_retry 140 network_error 1 opened).1)
should_retry_probes_once_example =
    should_retry_probes_once 30 140 network_error 1 calls opened refl refl (omega arith)
      (omega arith)

-- the first attempt is told to wait 50 ms, the second one waits by the policy, the third one succeeds
abbrev operation : ℕ → Attempt String
operation n =
    if nat_eq n 1
    then transport_error true (some 50)
    else if nat_eq n 2
    then transport_error true none
    else resolved "ok"

abbrev options : RetryOptions
options = record { max_retries = 3; get_delay = λ n. 10; deadline_ms = some 200 }

abbrev elapsed : ℕ → ℕ
elapsed n = 60

waits : with_retry options operation elapsed ≡ (returned "ok", 50 ∷ 10 ∷ [])
unfolding program
waits = refl

out_of_time :
    with_retry (record options { deadline_ms = some 100 }) operation elapsed
    ≡ (threw (transport_error true (some 50)), [])
unfolding program
out_of_time = refl

with_retry-Ended_example :
    (let (ending, waited) = with_retry options operation elapsed in
      AllRetried options operation elapsed 1 waited
      × Ended options operation elapsed (1 + length waited) ending)
with_retry-Ended_example = with_retry-Ended options operation elapsed
