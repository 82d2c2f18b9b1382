-- ===== src/Metrics/Counted.antt =====
-- What the histograms of packages/sdk/src/metrics.ts count.
use automated_cross_contract.Prelude.{
  ℕ, ◌+◌, ◌≡◌, refl, ◌∙◌, ap, ap₂, subst, false, List, [], ◌∷◌, map, String, if◌then◌else◌, leb,
  or_else, string_Eq, ◌==◌, Bool-cases, inl, inr, arith, length,
}
use automated_cross_contract.Prelude.Dict
use automated_cross_contract.Metrics.{
  Labels, HistogramEntry, count_value, counts_at, observe, after_observations,
}

-- the values observed under a key
abbrev pub values_of : String → List (String × Labels × ℕ) → List ℕ
values_of key [] = []
values_of key ((other, labels, value) ∷ earlier) =
    let rest = values_of key earlier in if key == other then value ∷ rest else rest

abbrev pub sum_of : List ℕ → ℕ
sum_of [] = 0
sum_of (v ∷ vs) = sum_of vs + v

-- how many values are at most `bound`
abbrev pub at_most : ℕ → List ℕ → ℕ
at_most bound [] = 0
at_most bound (v ∷ vs) = if leb v bound then at_most bound vs + 1 else at_most bound vs

count_value-map :
    (value : ℕ) (vs buckets : List ℕ)
    → count_value value buckets (map (λ b. at_most b vs) buckets)
      ≡ map (λ b. at_most b (value ∷ vs)) buckets
unfolding count_value
count_value-map value vs [] = refl
count_value-map value vs (b ∷ buckets) =
    ap (◌∷◌ (if leb value b then at_most b vs + 1 else at_most b vs))
      (count_value-map value vs buckets)

-- A histogram counts for each key what was observed under it.
pub record IsCount (buckets : List ℕ) (key : String) (vs : List ℕ) (e : HistogramEntry)
    : Type 0 where
  pub same_buckets : e.buckets ≡ buckets
  pub counts : counts_at key e ≡ map (λ b. at_most b vs) buckets
  pub sum : or_else (Dict.get key e.sums) 0 ≡ sum_of vs
  pub total : or_else (Dict.get key e.totals) 0 ≡ length vs

observe_own :
    (buckets : List ℕ) (key : String) (labels : Labels) (value : ℕ) (vs : List ℕ)
    (e : HistogramEntry)
    → IsCount buckets key vs e
    → IsCount buckets key (value ∷ vs) (observe key labels value e)
unfolding observe
observe_own buckets key labels value vs e h = record {
  same_buckets = h.same_buckets;
  counts =
      rw (Dict.get-put_self key (count_value value e.buckets (counts_at key e)) e.counts)
        (ap₂ (count_value value) h.same_buckets h.counts ∙ count_value-map value vs buckets);
  sum =
      rw (Dict.get-put_self key (or_else (Dict.get key e.sums) 0 + value) e.sums)
        (omega (arith, h.sum));
  total =
      rw (Dict.get-put_self key (or_else (Dict.get key e.totals) 0 + 1) e.totals)
        (omega (arith, h.total));
}

observe_other :
    (buckets : List ℕ) (key other : String) (labels : Labels) (value : ℕ) (vs : List ℕ)
    (e : HistogramEntry)
    → (key == other) ≡ false
    → IsCount buckets key vs e
    → IsCount buckets key vs (observe other labels value e)
unfolding observe
observe_other buckets key other labels value vs e foreign h = record {
  same_buckets = h.same_buckets;
  counts =
      rw
        (Dict.get-put other key (count_value value e.buckets (counts_at other e)) e.counts, foreign)
        h.counts;
  sum =
      rw (Dict.get-put other key (or_else (Dict.get other e.sums) 0 + value) e.sums, foreign) h.sum;
  total =
      rw (Dict.get-put other key (or_else (Dict.get other e.totals) 0 + 1) e.totals, foreign)
        h.total;
}

pub after_observations-IsCount :
    (help : String) (buckets : List ℕ) (key : String) (observations : List (String × Labels × ℕ))
    → IsCount buckets key
        (values_of key observations)
        (after_observations help buckets observations)
unfolding after_observations
after_observations-IsCount help buckets key [] = record {
  same_buckets = refl;
  counts = refl;
  sum = refl;
  total = refl;
}
after_observations-IsCount help buckets key ((other, labels, value) ∷ earlier) =
    let e = after_observations help buckets earlier in
    let ih = after_observations-IsCount help buckets key earlier in
    elim (Bool-cases (key == other)) [
      | inl own ↦
          let same : key ≡ other = (string_Eq.beq_iff key other).0 own in
          rw own (
            subst
              (λ k. IsCount buckets key (value ∷ values_of key earlier) (observe k labels value e))
              same (observe_own buckets key labels value (values_of key earlier) e ih))
      | inr foreign ↦
          rw foreign
            (observe_other buckets key other labels value (values_of key earlier) e foreign ih)
    ]
