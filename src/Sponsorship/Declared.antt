-- ===== src/Sponsorship/Declared.antt =====
-- The metadata that `validateFeeSponsorship`, packages/core/src/fee-sponsorship.ts, accepts, described field by
-- field.
use automated_cross_contract.Prelude.{
  ℕ, ◌≤◌, ◌<◌, ◌≡◌, refl, sym, ◌∙◌, ap, subst, ◌⊎◌, Bool, true, false, ◌&&◌, Option, none, some,
  List, [], ◌∷◌, ◌++◌, String, leb, leb→le, string_Eq, or_else, ◌↔◌, inl, inr, Bool-cases, arith,
}
use automated_cross_contract.Prelude.Strings.{Bigint, nonneg, below_minus_one}
use automated_cross_contract.Submission.{resolved}
use automated_cross_contract.Sponsorship.{
  Amount, Seconds, infinite, finite, FeeSponsorshipMetadata, FeeSponsorshipContext,
  FeeSponsorshipValidationError, matches_sponsor_pattern, normalize, to_big_int, sponsor_errors,
  network_errors, asset_errors, ceiling_errors, fee_errors, expiry_errors, is_empty,
  validate_fee_sponsorship, assert_valid_fee_sponsorship,
}

abbrev pub IsUnder : Option Amount → ℕ → Type 0
IsUnder none fee = Unit
IsUnder (some a) fee = (c : ℕ) × (to_big_int (some a) ≡ some (nonneg c)) × (fee ≤ c)

abbrev pub IsAlive : ℕ → Option Seconds → Type 0
IsAlive now none = Unit
IsAlive now (some infinite) = ⊥
IsAlive now (some (finite s)) = now < s

-- The sponsor is an account identifier, network and asset are those of the wallet, the fee is a positive
-- integer under the ceiling, if there is one, and the time of expiry, if there is one, lies ahead.
pub record IsDeclared (clock : ℕ) (m : FeeSponsorshipMetadata) (context : FeeSponsorshipContext)
    : Type 0 where
  pub sponsor : (s : String) × (normalize m.sponsor ≡ some s) × (matches_sponsor_pattern s ≡ true)
  pub network : normalize m.network ≡ some context.network
  pub asset : normalize m.asset ≡ some context.asset
  pub fee : (n : ℕ) × (to_big_int m.max_fee ≡ some (nonneg n)) × (0 < n) × IsUnder context.max_fee n
  pub alive : IsAlive (or_else context.now clock) m.expires_at

is_empty-append :
    (xs ys : List FeeSponsorshipValidationError)
    → is_empty (xs ++ ys) ≡ (is_empty xs && is_empty ys)
is_empty-append [] ys = refl
is_empty-append (x ∷ xs) ys = refl

abbrev is_matching : Option String → Bool
is_matching none = false
is_matching (some s) = matches_sponsor_pattern s

sponsor_iff :
    (o : Option String)
    → (is_empty (sponsor_errors o) ≡ true)
      ↔ ((s : String) × (o ≡ some s) × (matches_sponsor_pattern s ≡ true))
unfolding sponsor_errors
sponsor_iff none = (λ h. absurd cc, λ (s, e, h). absurd cc)
sponsor_iff (some s) = elim (Bool-cases (matches_sponsor_pattern s)) [
  | inl good ↦ (λ h. (s, refl, good), λ h. rw (good, sponsor_errors) refl)
  | inr bad ↦ (
    λ h. absurd (cc (rw (bad, sponsor_errors) at h)),
    λ (s', e, h). absurd (cc (ap (λ o. is_matching o) e, bad, h)),
  )
]

network_iff :
    (wanted : String) (o : Option String)
    → (is_empty (network_errors wanted o) ≡ true) ↔ (o ≡ some wanted)
unfolding network_errors
network_iff wanted none = (λ h. absurd cc, λ h. absurd cc)
network_iff wanted (some s) = ground (arith, string_Eq.beq_iff s wanted)

asset_iff :
    (wanted : String) (o : Option String)
    → (is_empty (asset_errors wanted o) ≡ true) ↔ (o ≡ some wanted)
unfolding asset_errors
asset_iff wanted none = (λ h. absurd cc, λ h. absurd cc)
asset_iff wanted (some s) = ground (arith, string_Eq.beq_iff s wanted)

expiry_iff :
    (now : ℕ) (o : Option Seconds) → (is_empty (expiry_errors now o) ≡ true) ↔ IsAlive now o
unfolding expiry_errors
expiry_iff now none = (λ h. tt, λ h. refl)
expiry_iff now (some infinite) = (λ h. absurd cc, λ h. elim h [ ])
expiry_iff now (some (finite s)) = ground arith

nonneg_inj : (m n : ℕ) → some (nonneg m) ≡ some (nonneg n) → m ≡ n
nonneg_inj m n h = cc

Bigint-cases :
    (o : Option Bigint)
    → (o ≡ none) ⊎ ((n : ℕ) × (o ≡ some (nonneg n))) ⊎ ((n : ℕ) × (o ≡ some (below_minus_one n)))
Bigint-cases none = inl refl
Bigint-cases (some (nonneg n)) = inr (inl (n, refl))
Bigint-cases (some (below_minus_one n)) = inr (inr (n, refl))

ceiling_iff :
    (o : Option Amount) (n : ℕ) → (is_empty (ceiling_errors o (nonneg n)) ≡ true) ↔ IsUnder o n
unfolding ceiling_errors
ceiling_iff none n = (λ h. tt, λ h. refl)
ceiling_iff (some a) n = elim (Bigint-cases (to_big_int (some a))) [
  | inl unread ↦ (
    λ h. absurd (cc (rw (unread, ceiling_errors) at h)),
    λ (c, read, le). absurd (cc (unread, read)),
  )
  | inr (inr (m, read)) ↦ (
    λ h. absurd (cc (rw (read, ceiling_errors) at h)),
    λ (c, read', le). absurd (cc (read, read')),
  )
  | inr (inl (m, read)) ↦ (
    λ h. elim (Bool-cases (leb n m)) [
      | inl le ↦ (m, read, leb→le n m le)
      | inr gt ↦ absurd (cc (rw (read, gt, ceiling_errors) at h))
    ],
    λ (c, read', le).
        let same : m ≡ c = nonneg_inj m c (sym read ∙ read') in
        rw (read, ceiling_errors) (ground (arith, same, le)),
  )
]

fee_iff :
    (ceiling amount : Option Amount)
    → (is_empty (fee_errors ceiling amount) ≡ true)
      ↔ ((n : ℕ) × (to_big_int amount ≡ some (nonneg n)) × (0 < n) × IsUnder ceiling n)
unfolding fee_errors
fee_iff ceiling amount = elim (Bigint-cases (to_big_int amount)) [
  | inl unread ↦ (
    λ h. absurd (cc (rw (unread, fee_errors) at h)),
    λ (c, read, le, u). absurd (cc (unread, read)),
  )
  | inr (inr (m, read)) ↦ (
    λ h. absurd (cc (rw (read, fee_errors) at h)),
    λ (c, read', le, u). absurd (cc (read, read')),
  )
  | inr (inl (m, read)) ↦ elim (Bool-cases (leb m 0)) [
    | inl zero_fee ↦ (
      λ h. absurd (cc (rw (read, zero_fee, fee_errors) at h)),
      λ (c, read', le, u).
          let same : m ≡ c = nonneg_inj m c (sym read ∙ read') in
          absurd (ground (arith, zero_fee, same, le)),
    )
    | inr positive ↦ (
      λ h. (
        m,
        read,
        ground (arith, positive),
        (ceiling_iff ceiling m).0 (rw (read, positive, fee_errors) at h),
      ),
      λ (c, read', le, u).
          let same : m ≡ c = nonneg_inj m c (sym read ∙ read') in
          rw (read, positive, fee_errors)
            ((ceiling_iff ceiling m).1 (subst (IsUnder ceiling) (sym same) u)),
    )
  ]
]

all_empty :
    (a b c d e : List FeeSponsorshipValidationError)
    → (is_empty (a ++ (b ++ (c ++ (d ++ e)))) ≡ true) ↔ (
        (is_empty a ≡ true)
        × (is_empty b ≡ true)
        × (is_empty c ≡ true)
        × (is_empty d ≡ true)
        × (is_empty e ≡ true))
all_empty [] [] [] [] e = (λ h. (refl, refl, refl, refl, h), λ (p, q, r, s, h). h)
all_empty [] [] [] (x ∷ d) e = (λ h. absurd cc, λ (p, q, r, s, h). absurd cc)
all_empty [] [] (x ∷ c) d e = (λ h. absurd cc, λ (p, q, r, s, h). absurd cc)
all_empty [] (x ∷ b) c d e = (λ h. absurd cc, λ (p, q, r, s, h). absurd cc)
all_empty (x ∷ a) b c d e = (λ h. absurd cc, λ (p, q, r, s, h). absurd cc)

-- The validation accepts metadata exactly if they are as declared: a well-formed sponsor, the network and the
-- asset of the wallet, a positive integer fee under the ceiling, and no expiry behind the clock.
pub validate_fee_sponsorship_iff :
    (clock : ℕ) (m : FeeSponsorshipMetadata) (context : FeeSponsorshipContext)
    → ((validate_fee_sponsorship clock (some m) context).valid ≡ true) ↔ IsDeclared clock m context
unfolding validate_fee_sponsorship
validate_fee_sponsorship_iff clock m context = (
  λ h.
      let (sponsor, network, asset, fee, alive) = (all_empty _ _ _ _ _).0 h in
      record {
        sponsor = (sponsor_iff (normalize m.sponsor)).0 sponsor;
        network = (network_iff context.network (normalize m.network)).0 network;
        asset = (asset_iff context.asset (normalize m.asset)).0 asset;
        fee = (fee_iff context.max_fee m.max_fee).0 fee;
        alive = (expiry_iff (or_else context.now clock) m.expires_at).0 alive;
      },
  λ d. (all_empty _ _ _ _ _).1 (
    (sponsor_iff (normalize m.sponsor)).1 d.sponsor,
    (network_iff context.network (normalize m.network)).1 d.network,
    (asset_iff context.asset (normalize m.asset)).1 d.asset,
    (fee_iff context.max_fee m.max_fee).1 d.fee,
    (expiry_iff (or_else context.now clock) m.expires_at).1 d.alive,
  ),
)

-- The guard lets a call pass exactly if there are metadata and they are as declared; in every other case it
-- throws.
pub assert_valid_fee_sponsorship_iff :
    (clock : ℕ) (metadata : Option FeeSponsorshipMetadata) (context : FeeSponsorshipContext)
    → (assert_valid_fee_sponsorship clock metadata context ≡ resolved tt)
      ↔ ((m : FeeSponsorshipMetadata) × (metadata ≡ some m) × IsDeclared clock m context)
unfolding assert_valid_fee_sponsorship validate_fee_sponsorship
assert_valid_fee_sponsorship_iff clock none context = (λ h. absurd cc, λ (m, given, d). absurd cc)
assert_valid_fee_sponsorship_iff clock (some m) context =
    let accepted = validate_fee_sponsorship_iff clock m context in
    elim (Bool-cases (validate_fee_sponsorship clock (some m) context).valid) [
      | inl good ↦
          (λ h. (m, refl, accepted.0 good), λ d. rw (good, assert_valid_fee_sponsorship) refl)
      | inr bad ↦ (
        λ h. absurd (cc (rw (bad, assert_valid_fee_sponsorship) at h)),
        λ (m', given, d).
            let same : m' ≡ m = cc in
            absurd (cc (bad, accepted.1 (subst (λ k. IsDeclared clock k context) same d))),
      )
    ]
