-- ===== src/Failover/Health.antt =====
-- Sequences of `recordSuccess` and `recordFailure` on one endpoint, packages/rpc/src/rpc-failover.ts.
use automated_cross_contract.Prelude.{ℕ, ◌+◌, ◌<◌, ◌≡◌, true, false, List, [], ◌∷◌, length, arith}
use automated_cross_contract.Failover.{RpcEndpointHealth, RpcFailoverConfig, on_success, on_failure}

-- The endpoint after successes, or failures, at the given times.
abbrev pub after_successes : RpcFailoverConfig → List ℕ → RpcEndpointHealth → RpcEndpointHealth
after_successes config [] ep = ep
after_successes config (now ∷ times) ep = after_successes config times (on_success config now ep)

abbrev pub after_failures : RpcFailoverConfig → List ℕ → RpcEndpointHealth → RpcEndpointHealth
after_failures config [] ep = ep
after_failures config (now ∷ times) ep = after_failures config times (on_failure config now ep)

module _ (config : RpcFailoverConfig) where
  counts_success :
      (now : ℕ) (ep : RpcEndpointHealth)
      → ep.is_healthy ≡ false
      → ep.consecutive_successes + 1 < config.success_threshold_to_restore
      → ((on_success config now ep).is_healthy ≡ false)
        × ((on_success config now ep).consecutive_successes ≡ ep.consecutive_successes + 1)
  unfolding on_success
  counts_success now ep down h = ground arith

  counts_failure :
      (now : ℕ) (ep : RpcEndpointHealth)
      → ep.is_healthy ≡ true
      → ep.consecutive_failures + 1 < config.max_failures_before_fallback
      → ((on_failure config now ep).is_healthy ≡ true)
        × ((on_failure config now ep).consecutive_failures ≡ ep.consecutive_failures + 1)
  unfolding on_failure
  counts_failure now ep up h = ground arith

  still_down :
      (times : List ℕ) (ep : RpcEndpointHealth)
      → ep.is_healthy ≡ false
      → ep.consecutive_successes + length times < config.success_threshold_to_restore
      → ((after_successes config times ep).is_healthy ≡ false)
        × ((after_successes config times ep).consecutive_successes
            ≡ ep.consecutive_successes + length times)
  still_down [] ep down h = (down, omega arith)
  still_down (now ∷ times) ep down h =
      let (down', count) = counts_success now ep down (omega arith) in
      let (result, counted) = still_down times (on_success config now ep) down' (omega arith) in
      (result, omega arith)

  still_up :
      (times : List ℕ) (ep : RpcEndpointHealth)
      → ep.is_healthy ≡ true
      → ep.consecutive_failures + length times < config.max_failures_before_fallback
      → ((after_failures config times ep).is_healthy ≡ true)
        × ((after_failures config times ep).consecutive_failures
            ≡ ep.consecutive_failures + length times)
  still_up [] ep up h = (up, omega arith)
  still_up (now ∷ times) ep up h =
      let (up', count) = counts_failure now ep up (omega arith) in
      let (result, counted) = still_up times (on_failure config now ep) up' (omega arith) in
      (result, omega arith)

  restores :
      (now : ℕ) (ep : RpcEndpointHealth)
      → ep.is_healthy ≡ false
      → ep.consecutive_successes + 1 ≡ config.success_threshold_to_restore
      → (on_success config now ep).is_healthy ≡ true
  unfolding on_success
  restores now ep down h = ground arith

  takes_out :
      (now : ℕ) (ep : RpcEndpointHealth)
      → ep.is_healthy ≡ true
      → ep.consecutive_failures + 1 ≡ config.max_failures_before_fallback
      → (on_failure config now ep).is_healthy ≡ false
  unfolding on_failure
  takes_out now ep up h = ground arith

  -- An unhealthy endpoint stays out of service while its successes are fewer than the threshold,
  -- and the success that reaches the threshold restores it.
  pub after_successes_threshold :
      (times : List ℕ) (now : ℕ) (ep : RpcEndpointHealth)
      → ep.is_healthy ≡ false
      → ep.consecutive_successes + length times + 1 ≡ config.success_threshold_to_restore
      → ((after_successes config times ep).is_healthy ≡ false)
        × ((on_success config now (after_successes config times ep)).is_healthy ≡ true)
  after_successes_threshold times now ep down h =
      let (stays, count) = still_down times ep down (omega arith) in
      (stays, restores now (after_successes config times ep) stays (omega arith))

  -- A healthy endpoint stays in service while its consecutive failures are fewer than the maximum,
  -- and the failure that reaches the maximum takes it out.
  pub after_failures_threshold :
      (times : List ℕ) (now : ℕ) (ep : RpcEndpointHealth)
      → ep.is_healthy ≡ true
      → ep.consecutive_failures + length times + 1 ≡ config.max_failures_before_fallback
      → ((after_failures config times ep).is_healthy ≡ true)
        × ((on_failure config now (after_failures config times ep)).is_healthy ≡ false)
  after_failures_threshold times now ep up h =
      let (stays, count) = still_up times ep up (omega arith) in
      (stays, takes_out now (after_failures config times ep) stays (omega arith))
