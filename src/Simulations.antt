-- ===== src/Simulations.antt =====
-- packages/rpc/src/simulation-cache.ts: `SimulationCache`, over any type of results. The clock is an
-- argument. The `Map` of entries is a list in insertion order, the oldest first.
mod Recency
mod Lookup
mod Tests
use automated_cross_contract.Prelude.{
  ℕ, zero, suc, ◌+◌, Bool, true, false, not, ◌&&◌, Option, none, some, List, [], ◌∷◌, String,
  if◌then◌else◌, ltb, leb, length, filter_b, string_Eq,
}
use automated_cross_contract.Prelude.Dict

pub record CacheEntry {ℓ} (A : Type ℓ) : Type ℓ where
  pub result : A
  pub expires_at : ℕ
  pub access_count : ℕ
  pub last_accessed_at : ℕ

pub record SimulationCache {ℓ} (A : Type ℓ) : Type ℓ where
  pub cache : List (String × CacheEntry A)
  pub max_size : ℕ
  pub ttl_ms : ℕ
  pub hits : ℕ
  pub misses : ℕ
  pub evictions : ℕ

pub record CacheStatistics : Type 0 where
  pub hits : ℕ
  pub misses : ℕ
  pub evictions : ℕ
  pub size : ℕ

module _ {ℓ} {A : Type ℓ} where
  abbrev pub new_cache : ℕ → ℕ → SimulationCache A
  new_cache size ttl = record {
    cache = [];
    max_size = if ltb size 1 then 1 else size;
    ttl_ms = ttl;
    hits = 0;
    misses = 0;
    evictions = 0;
  }

  abbrev pub is_expired : ℕ → CacheEntry A → Bool
  is_expired now entry = ltb entry.expires_at now

  abbrev pub touched : ℕ → CacheEntry A → CacheEntry A
  touched now entry = record entry { access_count = entry.access_count + 1; last_accessed_at = now }

  unfoldable pub get : ℕ → String → SimulationCache A → Option A × SimulationCache A
  get now key c = elim (Dict.get key c.cache) [
    | none ↦ (none, record c { misses = c.misses + 1 })
    | some entry ↦
        if is_expired now entry
        then (none, record c { cache = Dict.remove key c.cache; misses = c.misses + 1 })
        else (
          some entry.result,
          record c {
            cache = Dict.put key (touched now entry) (Dict.remove key c.cache);
            hits = c.hits + 1;
          },
        )
  ]

  unfoldable pub evict_lru : SimulationCache A → SimulationCache A
  evict_lru c = elim c.cache [
    | [] ↦ c
    | (lru_key, entry) ∷ rest ↦ record c {
      cache = Dict.remove lru_key c.cache;
      evictions = c.evictions + 1;
    }
  ]

  abbrev pub make_room : String → SimulationCache A → SimulationCache A
  make_room key c =
      if leb c.max_size (length c.cache) && not (Dict.has key c.cache) then evict_lru c else c

  abbrev pub fresh_entry : ℕ → A → ℕ → CacheEntry A
  fresh_entry now result ttl = record {
    result = result;
    expires_at = now + ttl;
    access_count = 0;
    last_accessed_at = now;
  }

  unfoldable pub set : ℕ → String → A → SimulationCache A → SimulationCache A
  set now key result c =
      let room = make_room key c in
      record room {
        cache = Dict.put key (fresh_entry now result c.ttl_ms) (Dict.remove key room.cache);
      }

  abbrev pub clear_expired : ℕ → SimulationCache A → SimulationCache A
  clear_expired now c = record c { cache = filter_b (λ e. not (is_expired now e.1)) c.cache }

  abbrev pub reset_statistics : SimulationCache A → SimulationCache A
  reset_statistics c = record c { hits = 0; misses = 0; evictions = 0 }

  abbrev pub invalidate_all : SimulationCache A → SimulationCache A
  invalidate_all c = record c { cache = [] }

  abbrev pub clear : SimulationCache A → SimulationCache A
  clear c = reset_statistics (invalidate_all c)

  abbrev pub invalidate : String → SimulationCache A → SimulationCache A
  invalidate key c = record c { cache = Dict.remove key c.cache }

  abbrev pub get_size : SimulationCache A → ℕ
  get_size c = length c.cache

  -- the counts; the hit rate is a quotient of them
  unfoldable pub get_statistics : ℕ → SimulationCache A → CacheStatistics × SimulationCache A
  get_statistics now c =
      let cleaned = clear_expired now c in
      (
        record {
          hits = c.hits;
          misses = c.misses;
          evictions = c.evictions;
          size = length cleaned.cache;
        },
        cleaned,
      )

  unfoldable pub has : ℕ → String → SimulationCache A → Bool × SimulationCache A
  has now key c = elim (Dict.get key c.cache) [
    | none ↦ (false, c)
    | some entry ↦
        if is_expired now entry
        then (false, record c { cache = Dict.remove key c.cache })
        else (true, c)
  ]
