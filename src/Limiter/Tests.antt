-- ===== src/Limiter/Tests.antt =====
-- A run of three tasks over two slots, and the theorem at it.
use automated_cross_contract.Prelude.{ℕ, ◌≡◌, refl, none, some, List, [], ◌∷◌, ◌⊎◌}
use automated_cross_contract.Limiter.{
  ConcurrencyLimiter, create_concurrency_limiter, Event, submit, end_of, step, steps, submitted,
  pending,
}
use automated_cross_contract.Limiter.Fairness.{IsFair, steps-IsFair}

program : Unit {0}
unfolding create_concurrency_limiter step steps
program = tt

abbrev limit : ℕ
limit = 2

abbrev two : ConcurrencyLimiter
two = record { max_concurrent = 2; active = 0; queue = []; running = []; started = [] }

abbrev events : List Event
events = submit 7 ∷ submit 8 ∷ submit 9 ∷ end_of 1 ∷ submit 6 ∷ []

runs : ((steps events two).running ≡ 7 ∷ 9 ∷ []) × (pending (steps events two) ≡ 1)
unfolding program
runs = (refl, refl)

steps-IsFair_example :
    ((limit ≡ 0) × (create_concurrency_limiter limit ≡ none))
    ⊎ ((l : ConcurrencyLimiter) × (create_concurrency_limiter limit ≡ some l)
        × (l.max_concurrent ≡ limit)
        × IsFair (steps events l) (submitted events))
steps-IsFair_example = steps-IsFair limit events
