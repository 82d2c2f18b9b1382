-- ===== src/Failover/Tests.antt =====
-- Runs of the failover manager, and the theorems at concrete managers.
use automated_cross_contract.Prelude.{
  ℕ, zero, suc, ◌≡◌, refl, Bool, true, false, none, some, List, [], ◌∷◌, String, arith,
}
use automated_cross_contract.Failover.{
  RpcEndpointHealth, default_failover_config, RpcFailoverManager, fresh_endpoint, init, healthy_at,
  next_healthy, fallback, least_failed, pick_next_healthy, update_endpoint, on_success,
  record_success, on_failure, record_failure, sticky_url, clears_sticky, move_on, select_url,
  get_current_url, run_health_checks,
}
use automated_cross_contract.Failover.Invariant.{IsValid, Selects, get_current_url-Selects}

program : Unit {0}
unfolding init next_healthy fallback least_failed pick_next_healthy update_endpoint on_success
    record_success on_failure record_failure sticky_url clears_sticky move_on select_url
    get_current_url run_health_checks
program = tt

abbrev urls : List String
urls = "https://a" ∷ "https://b" ∷ []

abbrev down : String → ℕ → RpcEndpointHealth
down url n = record (fresh_endpoint url) { is_healthy = false; consecutive_failures = n }

abbrev manager : List RpcEndpointHealth → RpcFailoverManager
manager eps = record {
  endpoints = eps;
  config = default_failover_config;
  current_index = 0;
  health_check_timer = false;
  sticky_endpoint_url = none;
  sticky_endpoint_since = none;
}

abbrev first_down : RpcFailoverManager
first_down = manager (down "https://a" 1 ∷ fresh_endpoint "https://b" ∷ [])

abbrev both_down : RpcFailoverManager
both_down = manager (down "https://a" 4 ∷ down "https://b" 2 ∷ [])

abbrev probes : List (String × ℕ × Bool)
probes =
    ("https://a", 10, false)
    ∷ ("https://b", 11, true)
    ∷ ("https://a", 20, false)
    ∷ ("https://a", 30, false)
    ∷ []

-- the third failure in a row takes the endpoint out, and the manager moves on
fails_over :
    (run_health_checks probes
      (manager (fresh_endpoint "https://a" ∷ fresh_endpoint "https://b" ∷ []))).current_index
    ≡ 1
unfolding program
fails_over = refl

next_is_served : (get_current_url 50 first_down).0 ≡ some "https://b"
unfolding program
next_is_served = refl

least_failed_is_served : (get_current_url 50 both_down).0 ≡ some "https://b"
unfolding program
least_failed_is_served = refl

first_down-IsValid : IsValid first_down
first_down-IsValid = record { nonempty = omega arith; in_range = omega arith }

both_down-IsValid : IsValid both_down
both_down-IsValid = record { nonempty = omega arith; in_range = omega arith }

none_up : (i : ℕ) → healthy_at both_down.endpoints i ≡ false
none_up zero = refl
none_up (suc zero) = refl
none_up (suc (suc i)) = refl

get_current_url-Selects_example : Selects both_down (get_current_url 50 both_down)
get_current_url-Selects_example = get_current_url-Selects 50 both_down both_down-IsValid
