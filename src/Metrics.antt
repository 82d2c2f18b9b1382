-- ===== src/Metrics.antt =====
-- packages/sdk/src/metrics.ts: the counters and histograms of `MetricsRegistry`. The order of `localeCompare`, by which
-- labels are sorted, is a parameter; values are natural numbers. A counter that is used as a histogram, or the other
-- way round, throws (`none`).
mod Counted
mod Tests
use automated_cross_contract.Prelude.{
  ℕ, ◌+◌, Bool, true, false, Option, none, some, List, [], ◌∷◌, map, String, if◌then◌else◌, leb,
  or_else, string_Eq, ◌+s◌,
}
use automated_cross_contract.Prelude.Dict

abbrev pub Labels : Type 0
Labels = List (String × String)

pub record CounterEntry : Type 0 where
  pub help : String
  pub values : List (String × ℕ)
  pub label_map : List (String × Labels)

pub record HistogramEntry : Type 0 where
  pub help : String
  pub buckets : List ℕ
  pub counts : List (String × List ℕ)
  pub sums : List (String × ℕ)
  pub totals : List (String × ℕ)
  pub label_map : List (String × Labels)

pub data MetricEntry : Type 0 where
  counter : CounterEntry → MetricEntry
  histogram : HistogramEntry → MetricEntry

pub record MetricsRegistry : Type 0 where
  pub metrics : List (String × MetricEntry)
  pub prefix : String
  pub default_labels : Labels

abbrev pub full_name : String → MetricsRegistry → String
full_name base r = r.prefix +s "_" +s base

-- `{ ...a, ...b }`
abbrev pub spread : Labels → Labels → Labels
spread a [] = a
spread a ((name, value) ∷ b) = spread (Dict.put name value a) b

abbrev pub joined : Labels → String
joined [] = ""
joined ((name, value) ∷ []) = name +s "=\"" +s value +s "\""
joined ((name, value) ∷ l ∷ labels) = name +s "=\"" +s value +s "\"," +s joined (l ∷ labels)

abbrev pub new_counter : String → CounterEntry
new_counter help = record { help = help; values = []; label_map = [] }

abbrev pub new_histogram : String → List ℕ → HistogramEntry
new_histogram help buckets = record {
  help = help;
  buckets = buckets;
  counts = [];
  sums = [];
  totals = [];
  label_map = [];
}

unfoldable pub add_to_counter : String → Labels → ℕ → CounterEntry → CounterEntry
add_to_counter key labels amount e = record e {
  values = Dict.put key (or_else (Dict.get key e.values) 0 + amount) e.values;
  label_map = Dict.put key labels e.label_map;
}

-- the loop over the buckets
pub count_value : ℕ → List ℕ → List ℕ → List ℕ
count_value value [] counts = counts
count_value value (b ∷ buckets) [] = []
count_value value (b ∷ buckets) (n ∷ counts) =
    (if leb value b then n + 1 else n) ∷ count_value value buckets counts

abbrev pub counts_at : String → HistogramEntry → List ℕ
counts_at key e = or_else (Dict.get key e.counts) (map (λ b. 0) e.buckets)

unfoldable pub observe : String → Labels → ℕ → HistogramEntry → HistogramEntry
unfolding count_value
observe key labels value e = record e {
  counts = Dict.put key (count_value value e.buckets (counts_at key e)) e.counts;
  sums = Dict.put key (or_else (Dict.get key e.sums) 0 + value) e.sums;
  totals = Dict.put key (or_else (Dict.get key e.totals) 0 + 1) e.totals;
  label_map = Dict.put key labels e.label_map;
}

abbrev pub default_buckets : List ℕ
default_buckets = 50 ∷ 100 ∷ 250 ∷ 500 ∷ 1000 ∷ 2500 ∷ 5000 ∷ []

module _ (sort : Labels → Labels) where
  abbrev pub labels_to_key : Labels → String
  labels_to_key labels = joined (sort labels)

  abbrev pub merged : Labels → MetricsRegistry → Labels
  merged labels r = spread r.default_labels labels

  abbrev pub put_metric : String → MetricEntry → MetricsRegistry → MetricsRegistry
  put_metric name e r = record r { metrics = Dict.put name e r.metrics }

  -- `addCounter`; `incrementCounter` is this with 1
  unfoldable pub add_counter :
      String → ℕ → Labels → String → MetricsRegistry → Option MetricsRegistry
  unfolding add_to_counter
  add_counter name amount labels help r =
      let all = merged labels r in
      elim (or_else (Dict.get (full_name name r) r.metrics) (counter (new_counter help))) [
        | counter e ↦ some (
            put_metric (full_name name r)
              (counter (add_to_counter (labels_to_key all) all amount e)) r)
        | histogram e ↦ none
      ]

  unfoldable pub observe_histogram :
      String → ℕ → Labels → String → List ℕ → MetricsRegistry → Option MetricsRegistry
  unfolding observe
  observe_histogram name value labels help buckets r =
      let all = merged labels r in
      elim (or_else (Dict.get (full_name name r) r.metrics)
        (histogram (new_histogram help buckets))) [
          | histogram e ↦ some (
              put_metric (full_name name r) (histogram (observe (labels_to_key all) all value e)) r)
          | counter e ↦ none
        ]

abbrev pub reset_metrics : MetricsRegistry → MetricsRegistry
reset_metrics r = record r { metrics = [] }

-- the observations of a histogram, each with its key and labels, the latest one first
pub after_observations : String → List ℕ → List (String × Labels × ℕ) → HistogramEntry
unfolding observe
after_observations help buckets [] = new_histogram help buckets
after_observations help buckets ((key, labels, value) ∷ earlier) =
    observe key labels value (after_observations help buckets earlier)
