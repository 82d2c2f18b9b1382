-- ===== src/Polling/Tests.antt =====
-- Polls.
use automated_cross_contract.Prelude.{
  ℕ, ◌-◌, ◌≡◌, ◌≤◌, refl, false, none, some, [], ◌∷◌, nat_eq, ltb, if◌then◌else◌,
}
use automated_cross_contract.Polling.{
  threw, value, PollingOptions, Surroundings, found, poll_with_retry,
}
use automated_cross_contract.Polling.Ends.{StopsAt, pauses, poll_with_retry-Ends}

abbrev options : PollingOptions
options = record { interval_ms = some 0; max_attempts = some 3; jitter_ms = none }

-- the third attempt succeeds
abbrev third : Surroundings ℕ
third = record {
  condition = λ n. if nat_eq n 3 then value 7 else threw "not yet";
  aborted_before = λ n. false;
  aborted_after = λ n. ltb 3 n;
  draw = λ n m. 0;
}

finds : (poll_with_retry third options).result ≡ found 7
unfolding poll_with_retry
finds = refl

pauses_twice : (poll_with_retry third options).delays ≡ 1000 ∷ 1000 ∷ []
unfolding poll_with_retry
pauses_twice = refl

poll_with_retry-Ends_example :
    (k : ℕ) × (1 ≤ k)
    × (k ≤ 3)
    × StopsAt third options (poll_with_retry third options).result k
    × ((poll_with_retry third options).delays ≡ pauses third options 1 (k - 1))
poll_with_retry-Ends_example = poll_with_retry-Ends third options
