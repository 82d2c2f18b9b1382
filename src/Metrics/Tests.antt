-- ===== src/Metrics/Tests.antt =====
-- Observations of a histogram.
use automated_cross_contract.Prelude.{ℕ, ◌≡◌, refl, Option, none, some, List, [], ◌∷◌, String}
use automated_cross_contract.Metrics.{
  Labels, MetricsRegistry, observe, after_observations, counts_at, add_counter, observe_histogram,
}
use automated_cross_contract.Metrics.Counted.{values_of, IsCount, after_observations-IsCount}

program : Unit {0}
unfolding observe after_observations add_counter observe_histogram
program = tt

abbrev observations : List (String × Labels × ℕ)
observations = ("a", [], 70) ∷ ("b", [], 10) ∷ ("a", [], 40) ∷ []

cumulative : counts_at "a" (after_observations "" (50 ∷ 100 ∷ []) observations) ≡ 1 ∷ 2 ∷ []
unfolding program
cumulative = refl

abbrev registry : MetricsRegistry
registry = record { metrics = []; prefix = "soroban"; default_labels = [] }

after_counter : Option MetricsRegistry
unfolding program
after_counter = elim (add_counter (λ l. l) "x" 2 [] "" registry) [
  | none ↦ none
  | some r ↦ observe_histogram (λ l. l) "x" 3 [] "" [] r
]

clash : after_counter ≡ none
unfolding program after_counter
clash = refl

after_observations-IsCount_example :
    IsCount
      (50 ∷ 100 ∷ [])
      "a"
      (values_of "a" observations)
      (after_observations "" (50 ∷ 100 ∷ []) observations)
after_observations-IsCount_example = after_observations-IsCount "" (50 ∷ 100 ∷ []) "a" observations
