-- ===== src/Failover.antt =====
-- packages/rpc/src/rpc-failover.ts: `RpcFailoverManager`. The clock is an argument. The `setInterval`
-- handle is only whether it is set; a health check is the list of the answers of the probes.
mod Pick
mod Invariant
mod Health
mod Tests
use automated_cross_contract.Prelude.{
  ℕ, zero, suc, ◌+◌, ◌-◌, ◌%◌, Bool, true, false, not, ◌&&◌, Option, none, some, List, [], ◌∷◌, map,
  String, if◌then◌else◌, ltb, leb, nat_eq, ◌==◌, string_Eq, length, get_elem?, find_b,
}

pub record RpcEndpointHealth : Type 0 where
  pub url : String
  pub is_healthy : Bool
  pub consecutive_failures : ℕ
  pub consecutive_successes : ℕ
  pub last_checked : Option ℕ

pub record RpcFailoverConfig : Type 0 where
  pub health_check_interval_ms : ℕ
  pub max_failures_before_fallback : ℕ
  pub success_threshold_to_restore : ℕ
  pub sticky_duration_ms : ℕ

abbrev pub default_failover_config : RpcFailoverConfig
default_failover_config = record {
  health_check_interval_ms = 30_000;
  max_failures_before_fallback = 3;
  success_threshold_to_restore = 2;
  sticky_duration_ms = 0;
}

pub record RpcFailoverManager : Type 0 where
  pub endpoints : List RpcEndpointHealth
  pub config : RpcFailoverConfig
  pub current_index : ℕ
  pub health_check_timer : Bool
  pub sticky_endpoint_url : Option String
  pub sticky_endpoint_since : Option ℕ

abbrev pub fresh_endpoint : String → RpcEndpointHealth
fresh_endpoint url = record {
  url = url;
  is_healthy = true;
  consecutive_failures = 0;
  consecutive_successes = 0;
  last_checked = none;
}

-- the constructor; `none` is the error for an empty list of URLs
unfoldable pub init : List String → RpcFailoverConfig → Option RpcFailoverManager
init [] config = none
init (url ∷ urls) config = some (record {
  endpoints = map fresh_endpoint (url ∷ urls);
  config = config;
  current_index = 0;
  health_check_timer = false;
  sticky_endpoint_url = none;
  sticky_endpoint_since = none;
})

abbrev pub healthy_at : List RpcEndpointHealth → ℕ → Bool
healthy_at eps i = elim (get_elem? eps i) [ none ↦ false | some ep ↦ ep.is_healthy ]

-- the round-robin loop: `left` rounds from `offset` on
pub next_healthy : List RpcEndpointHealth → ℕ → ℕ → ℕ → Option ℕ
next_healthy eps current zero offset = none
next_healthy eps current (suc left) offset =
    let candidate = (current + offset) % length eps in
    let rest = next_healthy eps current left (offset + 1) in
    if healthy_at eps candidate then some candidate else rest

-- the loop over the endpoints from index `i` on, `best` with `failures` being the least so far
pub least_failed : ℕ → ℕ → ℕ → List RpcEndpointHealth → ℕ
least_failed best failures i [] = best
least_failed best failures i (ep ∷ eps) =
    let better = ltb ep.consecutive_failures failures in
    least_failed (if better then i else best) (if better then ep.consecutive_failures else failures)
      (i + 1) eps

pub fallback : List RpcEndpointHealth → ℕ
fallback [] = 0
fallback (ep ∷ eps) = least_failed 0 ep.consecutive_failures 1 eps

unfoldable pub pick_next_healthy : RpcFailoverManager → RpcFailoverManager
pick_next_healthy m = elim (next_healthy m.endpoints m.current_index (length m.endpoints) 1) [
  | some candidate ↦ record m { current_index = candidate }
  | none ↦ record m { current_index = fallback m.endpoints }
]

-- `findEndpoint`
abbrev pub find_endpoint : String → List RpcEndpointHealth → Option RpcEndpointHealth
find_endpoint url = find_b (λ ep. ep.url == url)

-- `findEndpoint`, and the assignments to what it found
pub update_endpoint :
    String
    → (RpcEndpointHealth → RpcEndpointHealth)
    → List RpcEndpointHealth
    → List RpcEndpointHealth
update_endpoint url f [] = []
update_endpoint url f (ep ∷ eps) =
    if ep.url == url then f ep ∷ eps else ep ∷ update_endpoint url f eps

-- the assignments of `recordSuccess`
unfoldable pub on_success : RpcFailoverConfig → ℕ → RpcEndpointHealth → RpcEndpointHealth
on_success config now ep =
    if not ep.is_healthy && leb config.success_threshold_to_restore (ep.consecutive_successes + 1)
    then record ep {
      is_healthy = true;
      consecutive_failures = 0;
      consecutive_successes = 0;
      last_checked = some now;
    }
    else record ep {
      consecutive_failures = 0;
      consecutive_successes = ep.consecutive_successes + 1;
      last_checked = some now;
    }

unfoldable pub record_success : ℕ → String → RpcFailoverManager → RpcFailoverManager
record_success now url m = record m {
  endpoints = update_endpoint url (on_success m.config now) m.endpoints;
}

-- the test of `recordFailure` for the fallback
abbrev pub trips : RpcFailoverConfig → RpcEndpointHealth → Bool
trips config ep =
    ep.is_healthy && leb config.max_failures_before_fallback (ep.consecutive_failures + 1)

-- the assignments of `recordFailure`
unfoldable pub on_failure : RpcFailoverConfig → ℕ → RpcEndpointHealth → RpcEndpointHealth
on_failure config now ep =
    if trips config ep
    then record ep {
      is_healthy = false;
      consecutive_failures = 0;
      consecutive_successes = 0;
      last_checked = some now;
    }
    else record ep {
      consecutive_failures = ep.consecutive_failures + 1;
      consecutive_successes = 0;
      last_checked = some now;
    }

unfoldable pub record_failure : ℕ → String → RpcFailoverManager → RpcFailoverManager
record_failure now url m =
    let updated = record m {
      endpoints = update_endpoint url (on_failure m.config now) m.endpoints;
    } in
    elim (find_endpoint url m.endpoints) [
      | none ↦ m
      | some ep ↦ if trips m.config ep then pick_next_healthy updated else updated
    ]

-- the sticky endpoint's URL, if stickiness is on and both fields are truthy and the window is open
unfoldable pub sticky_url : ℕ → RpcFailoverManager → Option String
sticky_url now m = elim m.sticky_endpoint_url [
  | none ↦ none
  | some url ↦ elim m.sticky_endpoint_since [
    | none ↦ none
    | some since ↦
        if ltb 0 m.config.sticky_duration_ms
          && not (url == "")
          && not (nat_eq since 0)
          && ltb (now - since) m.config.sticky_duration_ms
        then some url
        else none
  ]
]

-- the sticky fields are cleared where the block of the sticky endpoint is entered and does not return
unfoldable pub clears_sticky : RpcFailoverManager → Bool
clears_sticky m = elim m.sticky_endpoint_url [
  | none ↦ false
  | some url ↦ elim m.sticky_endpoint_since [
    | none ↦ false
    | some since ↦ ltb 0 m.config.sticky_duration_ms && not (url == "") && not (nat_eq since 0)
  ]
]

abbrev pub clear_sticky : RpcFailoverManager → RpcFailoverManager
clear_sticky m =
    if clears_sticky m
    then record m { sticky_endpoint_url = none; sticky_endpoint_since = none }
    else m

-- the endpoint becomes the sticky one, if stickiness is on
abbrev pub stick : ℕ → String → RpcFailoverManager → RpcFailoverManager
stick now url m =
    if ltb 0 m.config.sticky_duration_ms
    then record m { sticky_endpoint_url = some url; sticky_endpoint_since = some now }
    else m

abbrev pub is_healthy_url : String → RpcFailoverManager → Bool
is_healthy_url url m = elim (find_endpoint url m.endpoints) [
  | none ↦ false
  | some ep ↦ ep.is_healthy
]

-- The end of `getCurrentUrl`, behind the call of `pickNextHealthy`. `none` for the URL is the
-- `TypeError` of a missing endpoint.
unfoldable pub move_on : ℕ → RpcFailoverManager → Option String × RpcFailoverManager
move_on now m =
    let next = pick_next_healthy m in
    elim (get_elem? next.endpoints next.current_index) [
      | none ↦ (none, next)
      | some ep ↦ (some ep.url, stick now ep.url next)
    ]

-- the part behind the sticky block
unfoldable pub select_url : ℕ → RpcFailoverManager → Option String × RpcFailoverManager
select_url now m = elim (get_elem? m.endpoints m.current_index) [
  | none ↦ move_on now m
  | some ep ↦ if ep.is_healthy then (some ep.url, stick now ep.url m) else move_on now m
]

unfoldable pub get_current_url : ℕ → RpcFailoverManager → Option String × RpcFailoverManager
get_current_url now m =
    let rest = select_url now (clear_sticky m) in
    elim (sticky_url now m) [
      | none ↦ rest
      | some url ↦ if is_healthy_url url m then (some url, m) else rest
    ]

abbrev pub get_health_status : RpcFailoverManager → List RpcEndpointHealth
get_health_status m = m.endpoints

abbrev pub start_health_checks : RpcFailoverManager → RpcFailoverManager
start_health_checks m = record m { health_check_timer = true }

abbrev pub stop_health_checks : RpcFailoverManager → RpcFailoverManager
stop_health_checks m = record m { health_check_timer = false }

-- `runHealthChecks`: for each endpoint the time and whether the probe resolved
unfoldable pub run_health_checks :
    List (String × ℕ × Bool) → RpcFailoverManager → RpcFailoverManager
run_health_checks [] m = m
run_health_checks ((url, now, reachable) ∷ probes) m =
    run_health_checks probes
      (if reachable then record_success now url m else record_failure now url m)
