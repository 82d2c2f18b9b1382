-- ===== src/Polling.antt =====
-- packages/utils/src/polling.ts: `pollWithRetry`. What the condition gives at each attempt, what the signal says
-- before and after it, and the random part of a delay are arguments; attempts are counted from 1. The delays
-- asked of `delay` are kept in a list.
mod Ends
mod Tests
use automated_cross_contract.Prelude.{
  ℕ, zero, suc, ◌+◌, Bool, true, false, Option, none, some, List, [], ◌∷◌, ◌++◌, String,
  if◌then◌else◌, nat_eq, ltb,
}

-- a value, null or undefined, or an error
pub data Outcome {ℓ} (A : Type ℓ) : Type ℓ where
  value : A → Outcome A
  missing : Outcome A
  threw : String → Outcome A

pub record PollingOptions : Type 0 where
  pub interval_ms : Option ℕ
  pub max_attempts : Option ℕ
  pub jitter_ms : Option ℕ

pub record Surroundings {ℓ} (A : Type ℓ) : Type ℓ where
  pub condition : ℕ → Outcome A
  pub aborted_before : ℕ → Bool
  pub aborted_after : ℕ → Bool
  pub draw : ℕ → ℕ → ℕ  -- `Math.floor(Math.random() * jitterMs)` at an attempt

-- `last_error` is that of `PollingExhaustedError`; its `lastResult` is always null
pub data Polled {ℓ} (A : Type ℓ) : Type ℓ where
  found : A → Polled A
  aborted : Polled A
  exhausted : ℕ → Option String → Polled A

pub record Poll {ℓ} (A : Type ℓ) : Type ℓ where
  pub result : Polled A
  pub delays : List ℕ

-- `x || d`
abbrev pub or_default : Option ℕ → ℕ → ℕ
or_default none d = d
or_default (some n) d = if nat_eq n 0 then d else n

abbrev pub max_attempts_of : PollingOptions → ℕ
max_attempts_of options = or_default options.max_attempts 30

abbrev pub interval_of : PollingOptions → ℕ
interval_of options = or_default options.interval_ms 1000

module _ {ℓ} {A : Type ℓ} (s : Surroundings A) (options : PollingOptions) where
  unfoldable pub next_delay : ℕ → ℕ
  next_delay attempt = elim options.jitter_ms [
    | none ↦ interval_of options
    | some jitter ↦
        if nat_eq jitter 0 then interval_of options else interval_of options + s.draw attempt jitter
  ]

  abbrev pub error_of : Outcome A → Option String → Option String
  error_of (value a) last = last
  error_of missing last = last
  error_of (threw e) last = some e

  abbrev pub delayed : ℕ → Poll A → Poll A
  delayed ms p = record p { delays = ms ∷ p.delays }

  abbrev pub ended : Polled A → Poll A
  ended r = record { result = r; delays = [] }

  -- the loop at `attempt`, with `left` attempts to go
  pub poll_from : ℕ → ℕ → Option String → Poll A
  unfolding next_delay
  poll_from zero attempt last = ended (exhausted (max_attempts_of options) last)
  poll_from (suc left) attempt last =
      let next = poll_from left (attempt + 1) (error_of (s.condition attempt) last) in
      let missed =
        if ltb attempt (max_attempts_of options) then delayed (next_delay attempt) next else next in
      let answered : Poll A = elim (s.condition attempt) [
        | value a ↦ ended (found a)
        | missing ↦ missed
        | threw e ↦ missed
      ] in
      if s.aborted_before attempt
      then ended aborted
      else if s.aborted_after attempt
      then ended aborted
      else answered

  unfoldable pub poll_with_retry : Poll A
  unfolding poll_from
  poll_with_retry = poll_from (max_attempts_of options) 1 none
