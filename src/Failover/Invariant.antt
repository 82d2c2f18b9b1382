-- ===== src/Failover/Invariant.antt =====
-- The current index and the URL handed out by `RpcFailoverManager`, packages/rpc/src/rpc-failover.ts.
use mathlib.Core.Bool.{false≢true}
use automated_cross_contract.Prelude.{
  ℕ, zero, suc, ◌<◌, ◌≡◌, refl, sym, ap, Bool, true, false, Option, none, some, List, [], ◌∷◌,
  length, get_elem?, arith, Bool-cases, Option-cases, inl, inr, ◌⊎◌, String, string_Eq, map, ◌==◌,
  ◌∙◌,
}
use automated_cross_contract.Failover.{
  RpcEndpointHealth, RpcFailoverConfig, RpcFailoverManager, init, fresh_endpoint, healthy_at,
  next_healthy, fallback, pick_next_healthy, update_endpoint, find_endpoint, on_success, on_failure,
  record_success, record_failure, trips, run_health_checks, sticky_url, clear_sticky, select_url,
  get_current_url, is_healthy_url, stick, move_on,
}
use automated_cross_contract.Failover.Pick.{
  next_healthy_sound, none_healthy, NoneBelow, fallback_lem, healthy_in_range, get_elem?-lt,
}

-- there is an endpoint, and the current index names one
pub record IsValid (m : RpcFailoverManager) : Type 0 where
  pub nonempty : 0 < length m.endpoints
  pub in_range : m.current_index < length m.endpoints

length-map_fresh : (urls : List String) → length (map fresh_endpoint urls) ≡ length urls
length-map_fresh [] = refl
length-map_fresh (u ∷ urls) = ap suc (length-map_fresh urls)

-- The constructor fails exactly on an empty list of URLs, and else gives a valid manager.
pub init-IsValid :
    (urls : List String) (config : RpcFailoverConfig)
    → ((urls ≡ []) × (init urls config ≡ none))
      ⊎ ((m : RpcFailoverManager) × (init urls config ≡ some m) × IsValid m)
unfolding init
init-IsValid [] config = inl (refl, refl)
init-IsValid (u ∷ urls) config =
    inr (_, refl, record { nonempty = omega arith; in_range = omega arith })

length-update :
    (url : String) (f : RpcEndpointHealth → RpcEndpointHealth) (eps : List RpcEndpointHealth)
    → length (update_endpoint url f eps) ≡ length eps
unfolding update_endpoint
length-update url f [] = refl
length-update url f (ep ∷ eps) = ground (arith, length-update url f eps)

fallback-lt : (eps : List RpcEndpointHealth) → 0 < length eps → fallback eps < length eps
fallback-lt eps h =
    let (ep, found, _) = fallback_lem eps h in get_elem?-lt eps (fallback eps) ep found

pick-IsValid : (m : RpcFailoverManager) → 0 < length m.endpoints → IsValid (pick_next_healthy m)
unfolding pick_next_healthy
pick-IsValid m h =
    elim (Option-cases (next_healthy m.endpoints m.current_index (length m.endpoints) 1)) [
      | inl nothing ↦
          rw (nothing, pick_next_healthy)
            (record { nonempty = h; in_range = fallback-lt m.endpoints h })
      | inr (i, found) ↦
          rw (found, pick_next_healthy)
            (record {
              nonempty = h;
              in_range =
                  healthy_in_range m.endpoints i
                    (next_healthy_sound m.endpoints m.current_index (length m.endpoints) 1 i found);
            })
    ]

-- If any endpoint is healthy, the one picked is healthy.
pub healthy_at-pick_next_healthy :
    (m : RpcFailoverManager) (j : ℕ)
    → IsValid m
    → healthy_at m.endpoints j ≡ true
    → healthy_at m.endpoints (pick_next_healthy m).current_index ≡ true
unfolding pick_next_healthy
healthy_at-pick_next_healthy m j v h =
    elim (Option-cases (next_healthy m.endpoints m.current_index (length m.endpoints) 1)) [
      | inl nothing ↦
          let l = healthy_in_range m.endpoints j h in
          let f = none_healthy m.endpoints m.current_index j v.in_range nothing l in
          absurd (false≢true (sym f ∙ h))
      | inr (i, found) ↦
          rw (found, pick_next_healthy)
            (next_healthy_sound m.endpoints m.current_index (length m.endpoints) 1 i found)
    ]

-- If no endpoint is healthy, the one picked has the fewest consecutive failures.
pub pick_next_healthy-NoneBelow :
    (m : RpcFailoverManager)
    → IsValid m
    → ((i : ℕ) → healthy_at m.endpoints i ≡ false)
    → (ep : RpcEndpointHealth) × (get_elem? m.endpoints (pick_next_healthy m).current_index
        ≡ some ep)
      × NoneBelow ep.consecutive_failures m.endpoints
unfolding pick_next_healthy
pick_next_healthy-NoneBelow m v h =
    elim (Option-cases (next_healthy m.endpoints m.current_index (length m.endpoints) 1)) [
      | inl nothing ↦ rw (nothing, pick_next_healthy) (fallback_lem m.endpoints v.nonempty)
      | inr (i, found) ↦ absurd (
          false≢true (
            sym (h i)
            ∙ next_healthy_sound m.endpoints m.current_index (length m.endpoints) 1 i found))
    ]

record_success-IsValid :
    (now : ℕ) (url : String) (m : RpcFailoverManager)
    → IsValid m
    → IsValid (record_success now url m)
unfolding record_success
record_success-IsValid now url m v =
    let same = length-update url (on_success m.config now) m.endpoints in
    record { nonempty = rw same v.nonempty; in_range = rw same v.in_range }

record_failure-IsValid :
    (now : ℕ) (url : String) (m : RpcFailoverManager)
    → IsValid m
    → IsValid (record_failure now url m)
unfolding record_failure
record_failure-IsValid now url m v =
    let updated : RpcFailoverManager = record m {
      endpoints = update_endpoint url (on_failure m.config now) m.endpoints;
    } in
    let same = length-update url (on_failure m.config now) m.endpoints in
    let nonempty : 0 < length updated.endpoints = rw same v.nonempty in
    elim (Option-cases (find_endpoint url m.endpoints)) [
      | inl unknown ↦ rw (unknown, record_failure) v
      | inr (ep, found) ↦ elim (Bool-cases (trips m.config ep)) [
        | inl trip ↦ rw (found, trip, record_failure) (pick-IsValid updated nonempty)
        | inr ok ↦
            rw (found, ok, record_failure)
              (record { nonempty = nonempty; in_range = rw same v.in_range })
      ]
    ]

-- However the probes of a health check come out, the current index still names an endpoint.
pub run_health_checks-IsValid :
    (probes : List (String × ℕ × Bool)) (m : RpcFailoverManager)
    → IsValid m
    → IsValid (run_health_checks probes m)
unfolding run_health_checks
run_health_checks-IsValid [] m v = v
run_health_checks-IsValid ((url, now, true) ∷ probes) m v =
    run_health_checks-IsValid probes (record_success now url m) (record_success-IsValid now url m v)
run_health_checks-IsValid ((url, now, false) ∷ probes) m v =
    run_health_checks-IsValid probes (record_failure now url m) (record_failure-IsValid now url m v)

-- an endpoint with this URL, healthy
abbrev pub ServedBy : List RpcEndpointHealth → String → Type 0
ServedBy eps url =
    (i : ℕ) × (ep : RpcEndpointHealth) × (get_elem? eps i ≡ some ep)
    × (ep.url ≡ url)
    × (ep.is_healthy ≡ true)

find_endpoint-ServedBy :
    (url : String) (eps : List RpcEndpointHealth) (ep : RpcEndpointHealth)
    → find_endpoint url eps ≡ some ep
    → ep.is_healthy ≡ true
    → ServedBy eps url
find_endpoint-ServedBy url [] ep h ok = cc
find_endpoint-ServedBy url (e ∷ eps) ep h ok = elim (Bool-cases (e.url == url)) [
  | inl here ↦
      let same : e ≡ ep = ground arith in
      (0, e, refl, (string_Eq.beq_iff e.url url).0 here, rw same ok)
  | inr further ↦
      let (i, found, at, named, good) = find_endpoint-ServedBy url eps ep (ground arith) ok in
      (suc i, found, at, named, good)
]

healthy_url-ServedBy :
    (url : String) (m : RpcFailoverManager) → is_healthy_url url m ≡ true → ServedBy m.endpoints url
healthy_url-ServedBy url m h = elim (Option-cases (find_endpoint url m.endpoints)) [
  | inl unknown ↦ absurd (ground arith)
  | inr (ep, found) ↦ find_endpoint-ServedBy url m.endpoints ep found (ground arith)
]

healthy_at-found :
    (eps : List RpcEndpointHealth) (i : ℕ) (ep : RpcEndpointHealth)
    → get_elem? eps i ≡ some ep
    → healthy_at eps i ≡ true
    → ep.is_healthy ≡ true
healthy_at-found eps i ep found h = ground arith

get_elem?_total {ℓ} :
    {A : Type ℓ} (xs : List A) (i : ℕ) → i < length xs → (a : A) × (get_elem? xs i ≡ some a)
get_elem?_total [] i h = absurd (omega arith)
get_elem?_total (x ∷ xs) zero h = (x, refl)
get_elem?_total (x ∷ xs) (suc i) h = get_elem?_total xs i (omega arith)

stick-IsValid :
    (now : ℕ) (url : String) (m : RpcFailoverManager) → IsValid m → IsValid (stick now url m)
stick-IsValid now url m v = ground arith

endpoints-pick : (m : RpcFailoverManager) → (pick_next_healthy m).endpoints ≡ m.endpoints
unfolding pick_next_healthy
endpoints-pick m = ground arith

-- what the selection of a URL gives
abbrev pub Selects : RpcFailoverManager → Option String × RpcFailoverManager → Type 0
Selects m r =
    (url : String) × (r.0 ≡ some url)
    × IsValid r.1
    × ((j : ℕ) → healthy_at m.endpoints j ≡ true → ServedBy m.endpoints url)

move_on-Selects : (now : ℕ) (m : RpcFailoverManager) → IsValid m → Selects m (move_on now m)
unfolding move_on
move_on-Selects now m v =
    let next = pick_next_healthy m in
    let valid = pick-IsValid m v.nonempty in
    let (ep, found) = get_elem?_total next.endpoints next.current_index valid.in_range in
    let here : get_elem? m.endpoints next.current_index ≡ some ep = rw endpoints-pick at found in
    rw (found, move_on)
      (
        ep.url,
        refl,
        stick-IsValid now ep.url next valid,
        λ j h. (
          next.current_index,
          ep,
          here,
          refl,
          healthy_at-found m.endpoints next.current_index ep here
              (healthy_at-pick_next_healthy m j v h),
        ),
      )

select_url-Selects : (now : ℕ) (m : RpcFailoverManager) → IsValid m → Selects m (select_url now m)
unfolding select_url
select_url-Selects now m v =
    let (ep, found) = get_elem?_total m.endpoints m.current_index v.in_range in
    elim (Bool-cases ep.is_healthy) [
      | inl healthy ↦
          rw (found, healthy, select_url)
            (
              ep.url,
              refl,
              stick-IsValid now ep.url m v,
              λ j h. (m.current_index, ep, found, refl, healthy),
            )
      | inr down ↦ rw (found, down, select_url) (move_on-Selects now m v)
    ]

clear_sticky-IsValid : (m : RpcFailoverManager) → IsValid m → IsValid (clear_sticky m)
clear_sticky-IsValid m v = ground arith

endpoints-clear_sticky : (m : RpcFailoverManager) → (clear_sticky m).endpoints ≡ m.endpoints
endpoints-clear_sticky m = ground arith

-- On a valid manager `getCurrentUrl` always gives a URL, sticky or not, and leaves a valid manager;
-- the URL is that of a healthy endpoint whenever any endpoint is healthy.
pub get_current_url-Selects :
    (now : ℕ) (m : RpcFailoverManager) → IsValid m → Selects m (get_current_url now m)
unfolding get_current_url
get_current_url-Selects now m v =
    let rest : Selects m (select_url now (clear_sticky m)) =
      rw endpoints-clear_sticky at
        (select_url-Selects now (clear_sticky m) (clear_sticky-IsValid m v)) in
    elim (Option-cases (sticky_url now m)) [
      | inl unset ↦ rw (unset, get_current_url) rest
      | inr (url, set) ↦ elim (Bool-cases (is_healthy_url url m)) [
        | inl healthy ↦
            rw (set, healthy, get_current_url)
              (url, refl, v, λ j h. healthy_url-ServedBy url m healthy)
        | inr down ↦ rw (set, down, get_current_url) rest
      ]
    ]
