-- ===== src/Retry/Deadline.antt =====
-- The attempts and waits of `withRetry`, packages/rpc/src/retry.ts.
use automated_cross_contract.Prelude.{
  ℕ, zero, suc, ◌+◌, ◌≤◌, ◌<◌, ◌≡◌, refl, Bool, true, false, not, ◌||◌, Option, none, some, List,
  [], ◌∷◌, ltb, length, arith, or_else, Option-cases, inl, inr, ◌⊎◌, Bool-cases, subst, ap, sym,
  ◌∙◌,
}
use automated_cross_contract.Retry.{
  Attempt, resolved, transport_error, other_error, RetryOptions, past_deadline, Ending, returned,
  threw, out_of_fuel, next_wait, attempt_from, with_retry,
}

-- the time lies within the deadline, if there is one
abbrev pub WithinDeadline : RetryOptions → ℕ → Type 0
WithinDeadline o time = (limit : ℕ) → o.deadline_ms ≡ some limit → time ≤ limit

data Shape {A : Type 0} (a : Attempt A) : Type 0 where
  succeeds : (v : A) → a ≡ resolved v → Shape a
  fails :
      (retryable : Bool) (retry_after : Option ℕ)
      → a ≡ transport_error retryable retry_after
      → Shape a
  breaks : a ≡ other_error → Shape a

Attempt-cases : {A : Type 0} (a : Attempt A) → Shape a
Attempt-cases (resolved v) = succeeds v refl
Attempt-cases (transport_error r ra) = fails r ra refl
Attempt-cases other_error = breaks refl

module _ {A : Type 0} (o : RetryOptions) (operation : ℕ → Attempt A) (elapsed : ℕ → ℕ) where
  -- The attempt failed with a retryable error while retries were left, and its wait is the one asked for by
  -- the server, or else by the policy, and ends within the deadline.
  pub record Retried (attempt delay_ms : ℕ) : Type 0 where
    pub retry_after : Option ℕ
    pub failure : operation attempt ≡ transport_error true retry_after
    pub left : attempt ≤ o.max_retries
    pub delay : delay_ms ≡ or_else retry_after (o.get_delay attempt)
    pub in_time : WithinDeadline o (elapsed attempt + delay_ms)

  -- the attempts from a number on, one for each wait
  abbrev pub AllRetried : ℕ → List ℕ → Type 0
  AllRetried attempt [] = Unit
  AllRetried attempt (d ∷ ds) = Retried attempt d × AllRetried (attempt + 1) ds

  -- why an attempt's error is thrown again
  abbrev pub GivenUp : ℕ → Attempt A → Type 0
  GivenUp attempt (resolved a) = ⊥
  GivenUp attempt other_error = Unit
  GivenUp attempt (transport_error retryable retry_after) =
      (retryable ≡ false)
      ⊎ (o.max_retries < attempt)
      ⊎ (past_deadline o (elapsed attempt + or_else retry_after (o.get_delay attempt)) ≡ true)

  -- how the attempt behind all the waits ended the run
  abbrev pub Ended : ℕ → Ending A → Type 0
  Ended attempt (returned a) = operation attempt ≡ resolved a
  Ended attempt (threw e) = (operation attempt ≡ e) × GivenUp attempt e
  Ended attempt out_of_fuel = ⊥

  waits_in_time : (time d : ℕ) → past_deadline o (time + d) ≡ false → WithinDeadline o (time + d)
  waits_in_time time d h limit set = ground (arith, h)

  next_wait-some :
      (attempt d : ℕ) (retryable : Bool) (retry_after : Option ℕ)
      → next_wait {A = A} o (elapsed attempt) attempt (transport_error retryable retry_after)
        ≡ some d
      → operation attempt ≡ transport_error retryable retry_after
      → Retried attempt d
  unfolding next_wait
  next_wait-some attempt d retryable retry_after h failed =
      let wait = or_else retry_after (o.get_delay attempt) in
      elim (Bool-cases (not retryable || ltb o.max_retries attempt)) [
        | inl stop ↦ absurd (cc (rw (stop, next_wait) at h))
        | inr go ↦ elim (Bool-cases (past_deadline o (elapsed attempt + wait))) [
          | inl late ↦ absurd (cc (rw (go, late, next_wait) at h))
          | inr early ↦
              let is_wait : wait ≡ d = cc (rw (go, early, next_wait) at h) in
              record {
                retry_after = retry_after;
                failure = failed ∙ ap (λ r. transport_error r retry_after) (ground arith);
                left = ground arith;
                delay = sym is_wait;
                in_time =
                    subst (λ w. WithinDeadline o (elapsed attempt + w)) is_wait
                      (waits_in_time (elapsed attempt) wait early);
              }
        ]
      ]

  next_wait-none :
      (attempt : ℕ) (retryable : Bool) (retry_after : Option ℕ)
      → next_wait {A = A} o (elapsed attempt) attempt (transport_error retryable retry_after) ≡ none
      → GivenUp attempt (transport_error retryable retry_after)
  unfolding next_wait
  next_wait-none attempt retryable retry_after h = ground arith

  -- The loop with enough fuel ends properly, and gives an account of every attempt.
  attempt_from-Ended :
      (fuel attempt : ℕ)
      → attempt + fuel ≡ o.max_retries + 2
      → 0 < fuel
      → (let (ending, waits) = attempt_from o operation elapsed fuel attempt in
          AllRetried attempt waits × Ended (attempt + length waits) ending)
  unfolding attempt_from
  attempt_from-Ended zero attempt enough some_left = absurd (omega (arith, some_left))
  attempt_from-Ended (suc fuel) attempt enough some_left =
      elim (Attempt-cases (operation attempt)) [
        | succeeds a q ↦
            rw (q, attempt_from) (tt, subst (λ n. operation n ≡ resolved a) (omega arith) q)
        | breaks q ↦
            rw (q, attempt_from) (tt, (subst (λ n. operation n ≡ other_error) (omega arith) q, tt))
        | fails retryable retry_after q ↦
            let wait =
              next_wait {A = A} o (elapsed attempt) attempt
                (transport_error retryable retry_after) in
            elim (Option-cases wait) [
              | inl nothing ↦
                  rw (q, nothing, attempt_from)
                    (
                      tt,
                      subst (λ n. Ended n (threw (transport_error retryable retry_after)))
                          (omega arith) (q, next_wait-none attempt retryable retry_after nothing),
                    )
              | inr (d, found) ↦
                  let step = next_wait-some attempt d retryable retry_after found q in
                  let (waited, ended) =
                    attempt_from-Ended fuel (attempt + 1) (omega arith)
                      (omega (arith, step.left)) in
                  rw (q, found, attempt_from)
                    (
                      (step, waited),
                      subst (λ n. Ended n (attempt_from o operation elapsed fuel (attempt + 1)).0)
                          (omega arith) ended,
                    )
            ]
      ]

  -- `withRetry` always ends. Before its last attempt each failed with a retryable error while retries were
  -- left, and was followed by a wait of the length asked for by the server, or else by the policy, that
  -- ends within the deadline. The value returned is that of the last attempt; an error thrown is its error,
  -- which is another error, not retryable, beyond the retries, or whose wait would end past the deadline.
  pub with_retry-Ended :
      (let (ending, waits) = with_retry o operation elapsed in
        AllRetried 1 waits × Ended (1 + length waits) ending)
  unfolding with_retry
  with_retry-Ended = attempt_from-Ended (o.max_retries + 1) 1 (omega arith) (omega arith)
