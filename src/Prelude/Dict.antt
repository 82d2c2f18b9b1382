-- ===== src/Prelude/Dict.antt =====
-- A JavaScript `Map` as the list of its entries in insertion order: `put` on a present key keeps
-- the entry's place, on a new key it appends; `remove` deletes the key.
use Prim.Native.Nat.{◌+◌, ◌≤◌, ◌<◌}
use mathlib.Core.Path.{◌≡◌, refl, sym, subst, ap}
use mathlib.Core.Logic.{◌≢◌, inl, inr}
use mathlib.Core.Bool.{Bool, true, false}
use mathlib.Core.Option.{Option, none, some}
use mathlib.Core.List.{List, [], ◌∷◌, ◌++◌, map}
use native.Mathlib.Omega.{arith}
use automated_cross_contract.Prelude.Tests.{if◌then◌else◌, Bool-cases}
use automated_cross_contract.Prelude.Lists.{length, All, filter_b}
use automated_cross_contract.Prelude.Equality.{Eq, ◌==◌}

module _ {ℓ κ} {K : Type ℓ} {V : Type κ} where
  abbrev pub keys : List (K × V) → List K
  keys = map (λ e. e.0)

module _ {ℓ} {K : Type ℓ} where
  abbrev pub Distinct : List K → Type ℓ
  Distinct [] = Unit
  Distinct (k ∷ ks) = All (λ j. k ≢ j) ks × Distinct ks

module _ {ℓ κ} {K : Type ℓ} {V : Type κ} ⦃e : Eq K⦄ where
  abbrev pub get : K → List (K × V) → Option V
  get k [] = none
  get k ((j, v) ∷ m) = if k == j then some v else get k m

  abbrev pub has : K → List (K × V) → Bool
  has k [] = false
  has k ((j, v) ∷ m) = if k == j then true else has k m

  abbrev pub put : K → V → List (K × V) → List (K × V)
  put k v [] = (k, v) ∷ []
  put k v ((j, w) ∷ m) = if k == j then (j, v) ∷ m else (j, w) ∷ put k v m

  abbrev pub remove : K → List (K × V) → List (K × V)
  remove k [] = []
  remove k ((j, w) ∷ m) = let rest = remove k m in if k == j then rest else (j, w) ∷ rest

  pub get-put :
      (k j : K) (v : V) (m : List (K × V))
      → get j (put k v m) ≡ (if j == k then some v else get j m)
  get-put k j v [] = refl
  get-put k j v ((i, w) ∷ m) =
      ground (arith, e.beq_iff k j, e.beq_iff j k, e.beq_iff k i, e.beq_iff j i, get-put k j v m)

  pub get-put_self : (k : K) (v : V) (m : List (K × V)) → get k (put k v m) ≡ some v
  get-put_self k v m = ground (arith, get-put k k v m, e.beq_iff k k)

  pub get-remove :
      (k j : K) (m : List (K × V)) → get j (remove k m) ≡ (if j == k then none else get j m)
  get-remove k j [] = ground arith
  get-remove k j ((i, w) ∷ m) =
      ground (arith, e.beq_iff k j, e.beq_iff j k, e.beq_iff k i, e.beq_iff j i, get-remove k j m)

  pub length-remove-le : (k : K) (m : List (K × V)) → length (remove k m) ≤ length m
  length-remove-le k [] = omega arith
  length-remove-le k ((j, w) ∷ m) = ground (arith, length-remove-le k m)

  pub length-put :
      (k : K) (v : V) (m : List (K × V))
      → length (put k v m) ≡ (if has k m then length m else length m + 1)
  length-put k v [] = omega arith
  length-put k v ((j, w) ∷ m) = ground (arith, length-put k v m)

  pub has-get : (k : K) (m : List (K × V)) → get k m ≡ none → has k m ≡ false
  has-get k [] h = refl
  has-get k ((j, w) ∷ m) h = ground (arith, has-get k m)

  pub All-keys-remove {μ} :
      (P : K → Type μ) (k : K) (m : List (K × V)) → All P (keys m) → All P (keys (remove k m))
  All-keys-remove P k [] h = tt
  All-keys-remove P k ((j, w) ∷ m) (p, h) = ground (arith, All-keys-remove P k m h)

  pub ne-remove : (k : K) (m : List (K × V)) → All (λ j. k ≢ j) (keys (remove k m))
  ne-remove k [] = tt
  ne-remove k ((j, w) ∷ m) = ground (arith, e.beq_iff k j, ne-remove k m)

  pub Distinct-remove :
      (k : K) (m : List (K × V)) → Distinct (keys m) → Distinct (keys (remove k m))
  Distinct-remove k [] h = tt
  Distinct-remove k ((j, w) ∷ m) (p, h) =
      ground (arith, Distinct-remove k m h, All-keys-remove (λ i. j ≢ i) k m p)

  All-keys-put {μ} :
      (P : K → Type μ) (k : K) (v : V) (m : List (K × V))
      → P k
      → All P (keys m)
      → All P (keys (put k v m))
  All-keys-put P k v [] q h = (q, tt)
  All-keys-put P k v ((j, w) ∷ m) q (p, h) = ground (arith, All-keys-put P k v m q h)

  pub Distinct-put :
      (k : K) (v : V) (m : List (K × V)) → Distinct (keys m) → Distinct (keys (put k v m))
  Distinct-put k v [] h = (tt, tt)
  Distinct-put k v ((j, w) ∷ m) (p, h) = ground (
    arith,
    e.beq_iff k j,
    λ (q : j ≢ k). All-keys-put (λ i. j ≢ i) k v m q p,
    Distinct-put k v m h,
  )

  All-keys-filter {μ} :
      (P : K → Type μ) (p : K × V → Bool) (m : List (K × V))
      → All P (keys m)
      → All P (keys (filter_b p m))
  All-keys-filter P p [] h = tt
  All-keys-filter P p (x ∷ m) (q, h) = ground (arith, All-keys-filter P p m h)

  pub Distinct-filter :
      (p : K × V → Bool) (m : List (K × V)) → Distinct (keys m) → Distinct (keys (filter_b p m))
  Distinct-filter p [] h = tt
  Distinct-filter p ((j, w) ∷ m) (q, h) =
      ground (arith, Distinct-filter p m h, All-keys-filter (λ i. j ≢ i) p m q)

  put_new :
      (k : K) (v : V) (m : List (K × V)) → All (λ j. k ≢ j) (keys m) → put k v m ≡ m ++ (k, v) ∷ []
  put_new k v [] h = refl
  put_new k v ((j, w) ∷ m) (p, h) = ground (arith, e.beq_iff k j, put_new k v m h)

  pub put-remove :
      (k : K) (v : V) (m : List (K × V)) → put k v (remove k m) ≡ remove k m ++ (k, v) ∷ []
  put-remove k v m = put_new k v (remove k m) (ne-remove k m)

  pub length-remove-lt :
      (k : K) (m : List (K × V)) → has k m ≡ true → length (remove k m) < length m
  length-remove-lt k [] h = cc
  length-remove-lt k ((j, w) ∷ m) h = ground (arith, length-remove-lt k m, length-remove-le k m)

  pub get-has : (k : K) (v : V) (m : List (K × V)) → get k m ≡ some v → has k m ≡ true
  get-has k v [] h = cc
  get-has k v ((j, w) ∷ m) h = ground (arith, get-has k v m)

  module _ {μ} (P : K × V → Type μ) (k : K) where
    pub All-put : (v : V) (m : List (K × V)) → P (k, v) → All P m → All P (put k v m)
    All-put v [] q h = (q, tt)
    All-put v ((j, w) ∷ m) q (p, h) = elim (Bool-cases (k == j)) [
      | inl same ↦ rw same (subst (λ i. P (i, v)) ((e.beq_iff k j).0 same) q, h)
      | inr other ↦ rw other (p, All-put v m q h)
    ]

    pub All-get : (m : List (K × V)) (v : V) → All P m → get k m ≡ some v → P (k, v)
    All-get [] v h found = cc
    All-get ((j, w) ∷ m) v (p, h) found = elim (Bool-cases (k == j)) [
      | inl same ↦
          let w_is : w ≡ v = ground arith in
          subst (λ x. P (k, x)) w_is (subst (λ i. P (i, w)) (sym ((e.beq_iff k j).0 same)) p)
      | inr other ↦ All-get m v h (ground arith)
    ]

    pub All-remove : (m : List (K × V)) → All P m → All P (remove k m)
    All-remove [] h = tt
    All-remove ((j, w) ∷ m) (p, h) = ground (arith, All-remove m h)

  get-absent : (k : K) (m : List (K × V)) → All (λ j. k ≢ j) (keys m) → get k m ≡ none
  get-absent k [] h = refl
  get-absent k ((j, w) ∷ m) (p, h) = ground (arith, e.beq_iff k j, get-absent k m h)

-- a value that passes a test, if there is one
abbrev pub passing {ℓ} : {V : Type ℓ} → (V → Bool) → Option V → Option V
passing p none = none
passing p (some v) = if p v then some v else none

module _ {ℓ κ} {K : Type ℓ} {V : Type κ} ⦃e : Eq K⦄ where
  pub get-filter :
      (p : K × V → Bool) (k : K) (m : List (K × V))
      → Distinct (keys m)
      → get k (filter_b p m) ≡ passing (λ v. p (k, v)) (get k m)
  get-filter p k [] h = refl
  get-filter p k ((j, w) ∷ m) (absent, h) = elim (Bool-cases (k == j)) [
    | inl same ↦
        let k_is : k ≡ j = (e.beq_iff k j).0 same in
        let none_left : get k (filter_b p m) ≡ none = get-absent k (filter_b p m) (
          subst (λ i. All (λ j'. i ≢ j') (keys (filter_b p m))) (sym k_is)
            (All-keys-filter (λ i. j ≢ i) p m absent)) in
        let here : p (k, w) ≡ p (j, w) = ap (λ i. p (i, w)) k_is in
        rw (same, here)
          (elim (Bool-cases (p (j, w))) [
            | inl good ↦ rw (good, same) refl
            | inr bad ↦ rw bad none_left
          ])
    | inr other ↦ elim (Bool-cases (p (j, w))) [
      | inl good ↦ rw (other, good, other) (get-filter p k m h)
      | inr bad ↦ rw (other, bad) (get-filter p k m h)
    ]
  ]
