-- ===== src/Failover/Pick.antt =====
-- The search of `pickNextHealthy`, packages/rpc/src/rpc-failover.ts.
use automated_cross_contract.Prelude.{
  ℕ, zero, suc, ◌+◌, ◌-◌, ◌%◌, ◌≤◌, ◌<◌, ◌≡◌, refl, true, false, none, some, List, [], ◌∷◌, length,
  get_elem?, arith, Bool-cases, ltb, inl, inr, ◌⊎◌, subst, All, ◌∙◌,
}
use native.Mathlib.Decide.{dec_lt}
use native.Mathlib.Nat.{mod-eq_of_lt, mod-eq-sub-mod}
use automated_cross_contract.Failover.{
  RpcEndpointHealth, healthy_at, next_healthy, least_failed, fallback,
}

-- What the round-robin loop finds is healthy.
pub next_healthy_sound :
    (eps : List RpcEndpointHealth) (current left offset i : ℕ)
    → next_healthy eps current left offset ≡ some i
    → healthy_at eps i ≡ true
unfolding next_healthy
next_healthy_sound eps current zero offset i h = cc
next_healthy_sound eps current (suc left) offset i h =
    elim (Bool-cases (healthy_at eps ((current + offset) % length eps))) [
      | inl here ↦
          let e : (current + offset) % length eps ≡ i = ground arith in
          subst (λ j. healthy_at eps j ≡ true) e here
      | inr no_luck ↦ next_healthy_sound eps current left (offset + 1) i (rw no_luck at h)
    ]

-- If it finds nothing, every round met an unhealthy endpoint.
next_healthy-none :
    (eps : List RpcEndpointHealth) (current left offset d : ℕ)
    → next_healthy eps current left offset ≡ none
    → d < left
    → healthy_at eps ((current + (offset + d)) % length eps) ≡ false
unfolding next_healthy
next_healthy-none eps current zero offset d h l = absurd (omega arith)
next_healthy-none eps current (suc left) offset zero h l =
    elim (Bool-cases (healthy_at eps ((current + offset) % length eps))) [
      | inl here ↦ absurd (ground arith)
      | inr no_luck ↦ ground arith
    ]
next_healthy-none eps current (suc left) offset (suc d) h l =
    let e : offset + suc d ≡ offset + 1 + d = omega arith in
    rw e (next_healthy-none eps current left (offset + 1) d (ground arith) (omega arith))

wrap : (n a : ℕ) → n ≤ a → a < n + n → a % n ≡ a - n
wrap n a h k = grind (arith, mod-eq-sub-mod, mod-eq_of_lt)

-- `n` rounds from the one after `current` on meet every index.
reaches :
    (n current j : ℕ) → current < n → j < n → (d : ℕ) × (d < n) × ((current + (1 + d)) % n ≡ j)
reaches n current j h k = elim (dec_lt current j) [
  | yes ahead ↦ (
    j - current - 1,
    omega arith,
    let e : current + (1 + (j - current - 1)) ≡ j = omega arith in rw e (mod-eq_of_lt k),
  )
  | no behind ↦ (
    j + n - current - 1,
    omega arith,
    wrap n (current + (1 + (j + n - current - 1))) (omega arith) (omega arith) ∙ omega arith,
  )
]

pub none_healthy :
    (eps : List RpcEndpointHealth) (current j : ℕ)
    → current < length eps
    → next_healthy eps current (length eps) 1 ≡ none
    → j < length eps
    → healthy_at eps j ≡ false
none_healthy eps current j c h l =
    let (d, small, hit) = reaches (length eps) current j c l in
    subst (λ i. healthy_at eps i ≡ false) hit
      (next_healthy-none eps current (length eps) 1 d h small)

-- no endpoint has fewer consecutive failures than `n`
abbrev pub NoneBelow : ℕ → List RpcEndpointHealth → Type 0
NoneBelow n = All (λ ep. n ≤ ep.consecutive_failures)

least_failed_lem :
    (best failures i : ℕ) (eps : List RpcEndpointHealth)
    → ((least_failed best failures i eps ≡ best) × NoneBelow failures eps)
      ⊎ ((k : ℕ) × (ep : RpcEndpointHealth) × (least_failed best failures i eps ≡ i + k)
          × (get_elem? eps k ≡ some ep)
          × (ep.consecutive_failures ≤ failures)
          × NoneBelow ep.consecutive_failures eps)
unfolding least_failed
least_failed_lem best failures i [] = inl (refl, tt)
least_failed_lem best failures i (ep ∷ eps) =
    elim (Bool-cases (ltb ep.consecutive_failures failures)) [
      | inl better ↦ rw better (elim (least_failed_lem i ep.consecutive_failures (i + 1) eps) [
        | inl (same, low) ↦ inr (0, ep, omega (arith, same), refl, ground arith, (omega arith, low))
        | inr (k, best_ep, at, found, le, low) ↦
            inr (suc k, best_ep, omega (arith, at), found, ground arith, (ground arith, low))
      ])
      | inr worse ↦ rw worse (elim (least_failed_lem best failures (i + 1) eps) [
        | inl (same, low) ↦ inl (same, (ground arith, low))
        | inr (k, best_ep, at, found, le, low) ↦
            inr (suc k, best_ep, omega (arith, at), found, le, (ground arith, low))
      ])
    ]

-- The fallback is an endpoint with the fewest consecutive failures.
pub fallback_lem :
    (eps : List RpcEndpointHealth)
    → 0 < length eps
    → (ep : RpcEndpointHealth) × (get_elem? eps (fallback eps) ≡ some ep)
      × NoneBelow ep.consecutive_failures eps
unfolding fallback
fallback_lem [] h = absurd (omega arith)
fallback_lem (ep ∷ eps) h = elim (least_failed_lem 0 ep.consecutive_failures 1 eps) [
  | inl (same, low) ↦ (ep, rw same refl, (omega arith, low))
  | inr (k, best, at, found, le, low) ↦
      let e : 1 + k ≡ suc k = omega arith in (best, rw (at, e) found, (le, low))
]

pub get_elem?-lt {ℓ} :
    {A : Type ℓ} (xs : List A) (i : ℕ) (a : A) → get_elem? xs i ≡ some a → i < length xs
get_elem?-lt [] i a h = cc
get_elem?-lt (x ∷ xs) zero a h = omega arith
get_elem?-lt (x ∷ xs) (suc i) a h = omega (arith, get_elem?-lt xs i a h)

pub healthy_in_range :
    (eps : List RpcEndpointHealth) (i : ℕ) → healthy_at eps i ≡ true → i < length eps
healthy_in_range [] i h = cc
healthy_in_range (ep ∷ eps) zero h = omega arith
healthy_in_range (ep ∷ eps) (suc i) h = omega (arith, healthy_in_range eps i h)
