-- ===== src/Limiter/Fairness.antt =====
-- Sequences of submissions and ends at the limiter of packages/rpc/src/concurrency.ts.
use automated_cross_contract.Prelude.{
  ℕ, zero, suc, ◌+◌, ◌≤◌, ◌<◌, ◌≡◌, refl, sym, ◌∙◌, ap, none, some, List, [], ◌∷◌, ◌++◌,
  append_assoc, append-nil, ltb, length, length-append, arith, Bool-cases, List-cases, inl, inr,
  ◌⊎◌,
}
use automated_cross_contract.Limiter.{
  ConcurrencyLimiter, create_concurrency_limiter, acquire, release, Event, submit, end_of, without,
  step, steps, submitted,
}

-- The started tasks and the queue are the submitted tasks, in order; the running tasks are counted, at most
-- as many as the limit; and a task waits only while the limit is used up.
pub record IsFair (l : ConcurrencyLimiter) (order : List ℕ) : Type 0 where
  pub in_order : l.started ++ l.queue ≡ order
  pub counted : l.active ≡ length l.running
  pub bounded : l.active ≤ l.max_concurrent
  pub busy : 0 < length l.queue → l.active ≡ l.max_concurrent

acquire-IsFair :
    (task : ℕ) (l : ConcurrencyLimiter) (order : List ℕ)
    → IsFair l order
    → IsFair (acquire task l) (order ++ task ∷ [])
unfolding acquire
acquire-IsFair task l order v = elim (Bool-cases (ltb l.active l.max_concurrent)) [
  | inl free ↦ elim (List-cases l.queue) [
    | inl empty ↦
        rw (free, acquire)
          (record {
            in_order =
                ap (λ q. (l.started ++ task ∷ []) ++ q) empty
                ∙ append-nil _
                ∙ ap (λ s. s ++ task ∷ []) (sym (append-nil _) ∙ (rw empty at v.in_order));
            counted = omega (arith, v.counted, length-append l.running (task ∷ []));
            bounded = ground arith;
            busy = λ h. absurd (omega (arith, h, ap length empty));
          })
    | inr (next, rest, waiting) ↦ absurd (ground (arith, v.busy, ap length waiting))
  ]
  | inr full ↦
      rw (full, acquire)
        (record {
          in_order =
              sym (append_assoc l.started l.queue (task ∷ []))
              ∙ ap (λ o. o ++ task ∷ []) v.in_order;
          counted = v.counted;
          bounded = v.bounded;
          busy = λ h. ground (arith, v.bounded);
        })
]

length-without : (i : ℕ) (xs : List ℕ) → i < length xs → length (without i xs) + 1 ≡ length xs
length-without i [] h = absurd (omega (arith, h))
length-without zero (x ∷ xs) h = omega arith
length-without (suc i) (x ∷ xs) h = omega (arith, length-without i xs (omega (arith, h)))

end-IsFair :
    (i : ℕ) (l : ConcurrencyLimiter) (order : List ℕ)
    → i < length l.running
    → IsFair l order
    → IsFair (release (record l { running = without i l.running })) order
unfolding release
end-IsFair i l order runs v =
    let fewer = length-without i l.running runs in
    elim (List-cases l.queue) [
      | inl empty ↦
          rw (empty, release)
            (record {
              in_order = v.in_order;
              counted = omega (arith, v.counted, fewer);
              bounded = omega (arith, v.bounded);
              busy = λ h. absurd (omega (arith, h, ap length empty));
            })
      | inr (next, rest, waiting) ↦
          rw (waiting, release)
            (record {
              in_order = append_assoc l.started (next ∷ []) rest ∙ (rw waiting at v.in_order);
              counted =
                  omega (arith, v.counted, fewer, length-append (without i l.running) (next ∷ []));
              bounded = v.bounded;
              busy = λ h. v.busy (rw waiting (omega arith));
            })
    ]

step-IsFair :
    (e : Event) (l : ConcurrencyLimiter) (order : List ℕ)
    → IsFair l order
    → IsFair (step e l) (order ++ submitted (e ∷ []))
unfolding step
step-IsFair (submit task) l order v = acquire-IsFair task l order v
step-IsFair (end_of i) l order v = elim (Bool-cases (ltb i (length l.running))) [
  | inl runs ↦ rw (runs, step, append-nil) (end-IsFair i l order (ground arith) v)
  | inr none_there ↦ rw (none_there, step, append-nil) v
]

steps_from :
    (es : List Event) (l : ConcurrencyLimiter) (order : List ℕ)
    → IsFair l order
    → IsFair (steps es l) (order ++ submitted es)
unfolding steps
steps_from [] l order v = rw append-nil v
steps_from (submit task ∷ es) l order v = rw (sym (append_assoc order (task ∷ []) (submitted es))) (
    steps_from es (step (submit task) l) (order ++ task ∷ []) (step-IsFair (submit task) l order v))
steps_from (end_of i ∷ es) l order v =
    steps_from es (step (end_of i) l) order (rw append-nil at (step-IsFair (end_of i) l order v))

-- A limit of 0 is refused. With any other limit, after any submissions and ends, the tasks started and
-- those queued are the submitted ones in their order, so none overtakes another; the running tasks are
-- counted and at most the limit; and a task waits only while the limit is used up.
pub steps-IsFair :
    (max : ℕ) (es : List Event)
    → ((max ≡ 0) × (create_concurrency_limiter max ≡ none))
      ⊎ ((l : ConcurrencyLimiter) × (create_concurrency_limiter max ≡ some l)
          × (l.max_concurrent ≡ max)
          × IsFair (steps es l) (submitted es))
unfolding create_concurrency_limiter
steps-IsFair max es = elim (Bool-cases (ltb max 1)) [
  | inl zero_limit ↦ inl (ground arith, rw (zero_limit, create_concurrency_limiter) refl)
  | inr positive ↦
      let l : ConcurrencyLimiter = record {
        max_concurrent = max;
        active = 0;
        queue = [];
        running = [];
        started = [];
      } in
      inr (
        l,
        rw (positive, create_concurrency_limiter) refl,
        refl,
        steps_from es l [] (record {
          in_order = refl;
          counted = refl;
          bounded = omega arith;
          busy = λ h. absurd (omega (arith, h));
        }),
      )
]
