-- ===== src/Simulations/Recency.antt =====
-- `SimulationCache` of packages/rpc/src/simulation-cache.ts through sequences of its operations: the size
-- and the order of the entries.
use automated_cross_contract.Prelude.{
  ℕ, ◌+◌, ◌≤◌, ◌<◌, ◌≡◌, refl, sym, Bool, true, not, ◌&&◌, List, [], ◌∷◌, ◌++◌, String, leb, length,
  length-append, filter_b, length-filter-le, ap, string_Eq, All, All-snoc, All-filter, arith,
  Bool-cases, Option-cases, List-cases, inl, inr,
}
use automated_cross_contract.Prelude.Dict
use automated_cross_contract.Prelude.Dict.{Distinct}
use automated_cross_contract.Simulations.{
  CacheEntry, SimulationCache, is_expired, touched, get, evict_lru, make_room, fresh_entry, set,
  clear_expired, reset_statistics, invalidate_all, clear, invalidate, get_statistics, has,
}

-- The operations that change the cache.
pub data Operation {ℓ} (A : Type ℓ) : Type ℓ where
  get_op has_op invalidate_op : String → Operation A
  set_op : String → A → Operation A
  statistics_op clear_expired_op clear_op invalidate_all_op reset_statistics_op : Operation A

module _ {ℓ} {A : Type ℓ} where
  abbrev pub step : ℕ → Operation A → SimulationCache A → SimulationCache A
  step now (get_op key) c = (get now key c).1
  step now (has_op key) c = (has now key c).1
  step now (invalidate_op key) c = invalidate key c
  step now (set_op key result) c = set now key result c
  step now statistics_op c = (get_statistics now c).1
  step now clear_expired_op c = clear_expired now c
  step now clear_op c = clear c
  step now invalidate_all_op c = invalidate_all c
  step now reset_statistics_op c = reset_statistics c

  -- operations at times
  abbrev pub run : List (ℕ × Operation A) → SimulationCache A → SimulationCache A
  run [] c = c
  run ((now, op) ∷ ops) c = run ops (step now op c)

  -- the clock does not go back
  abbrev pub IsChronological : ℕ → List (ℕ × Operation A) → Type 0
  IsChronological now [] = Unit
  IsChronological now ((t, op) ∷ ops) = (now ≤ t) × IsChronological t ops

  abbrev pub last_used : String × CacheEntry A → ℕ
  last_used e = e.1.last_accessed_at

  -- the entries stand in the order of their last use
  abbrev pub ByRecency : List (String × CacheEntry A) → Type 0
  ByRecency [] = Unit
  ByRecency (e ∷ es) = All (λ f. last_used e ≤ last_used f) es × ByRecency es

  -- At the time `now`: at most the size, one entry for each key, in the order of their last use.
  pub record IsValid (now : ℕ) (c : SimulationCache A) : Type 0 where
    pub positive : 0 < c.max_size
    pub bounded : length c.cache ≤ c.max_size
    pub distinct : Distinct (Dict.keys c.cache)
    pub ordered : ByRecency c.cache
    pub past : All (λ e. last_used e ≤ now) c.cache

  ByRecency-remove :
      (k : String) (m : List (String × CacheEntry A)) → ByRecency m → ByRecency (Dict.remove k m)
  ByRecency-remove k [] h = tt
  ByRecency-remove k (f ∷ m) (p, h) =
      ground (arith, ByRecency-remove k m h, Dict.All-remove (λ g. last_used f ≤ last_used g) k m p)

  ByRecency-snoc :
      (m : List (String × CacheEntry A)) (f : String × CacheEntry A)
      → ByRecency m
      → All (λ g. last_used g ≤ last_used f) m
      → ByRecency (m ++ f ∷ [])
  ByRecency-snoc [] f h k = (tt, tt)
  ByRecency-snoc (g ∷ m) f (p, h) (q, k) =
      (All-snoc (λ i. last_used g ≤ last_used i) m f p q, ByRecency-snoc m f h k)

  ByRecency-filter :
      (keep : String × CacheEntry A → Bool) (m : List (String × CacheEntry A))
      → ByRecency m
      → ByRecency (filter_b keep m)
  ByRecency-filter keep [] h = tt
  ByRecency-filter keep (f ∷ m) (p, h) =
      ground
        (arith, ByRecency-filter keep m h, All-filter (λ g. last_used f ≤ last_used g) keep m p)

  -- a cache whose entries are replaced by fewer ones
  shrunk :
      (now : ℕ) (c : SimulationCache A) (m : List (String × CacheEntry A))
      (hits misses evictions : ℕ)
      → IsValid now c
      → length m ≤ length c.cache
      → Distinct (Dict.keys m)
      → ByRecency m
      → All (λ e. last_used e ≤ now) m
      → IsValid now (record c { cache = m; hits = hits; misses = misses; evictions = evictions })
  shrunk now c m hits misses evictions v small distinct ordered past = record {
    positive = v.positive;
    bounded = omega (arith, v.bounded);
    distinct = distinct;
    ordered = ordered;
    past = past;
  }

  -- a key is removed
  removed :
      (now : ℕ) (c : SimulationCache A) (k : String) (hits misses evictions : ℕ)
      → IsValid now c
      → IsValid now (record c {
        cache = Dict.remove k c.cache;
        hits = hits;
        misses = misses;
        evictions = evictions;
      })
  removed now c k hits misses evictions v =
      shrunk now c (Dict.remove k c.cache) hits misses evictions v (Dict.length-remove-le k c.cache)
        (Dict.Distinct-remove k c.cache v.distinct) (ByRecency-remove k c.cache v.ordered)
        (Dict.All-remove (λ e. last_used e ≤ now) k c.cache v.past)

  -- an entry used now is put at the end
  renewed :
      (now : ℕ) (c : SimulationCache A) (k : String) (entry : CacheEntry A) (hits : ℕ)
      → IsValid now c
      → entry.last_accessed_at ≡ now
      → length (Dict.remove k c.cache) < c.max_size
      → IsValid now (record c { cache = Dict.put k entry (Dict.remove k c.cache); hits = hits })
  renewed now c k entry hits v used_now room =
      let m = Dict.remove k c.cache in
      let r = removed now c k c.hits c.misses c.evictions v in
      rw (Dict.put-remove k entry c.cache) (record {
        positive = v.positive;
        bounded = omega (arith, length-append m ((k, entry) ∷ []));
        distinct =
            rw (sym (Dict.put-remove k entry c.cache)) (Dict.Distinct-put k entry m r.distinct);
        ordered = ByRecency-snoc m (k, entry) r.ordered (rw used_now r.past);
        past = All-snoc (λ e. last_used e ≤ now) m (k, entry) r.past (omega (arith, used_now));
      })

  later : (now t : ℕ) (c : SimulationCache A) → now ≤ t → IsValid now c → IsValid t c
  later now t c le v = record {
    positive = v.positive;
    bounded = v.bounded;
    distinct = v.distinct;
    ordered = v.ordered;
    past = All-le c.cache v.past;
  }
    where
      All-le :
          (m : List (String × CacheEntry A))
          → All (λ e. last_used e ≤ now) m
          → All (λ e. last_used e ≤ t) m
      All-le [] h = tt
      All-le (e ∷ m) (p, h) = (omega (arith, p, le), All-le m h)

  get-IsValid :
      (now : ℕ) (key : String) (c : SimulationCache A)
      → IsValid now c
      → IsValid now (get now key c).1
  unfolding get
  get-IsValid now key c v = elim (Option-cases (Dict.get key c.cache)) [
    | inl missing ↦
        rw (missing, get)
          (shrunk now c c.cache c.hits (c.misses + 1) c.evictions v (omega arith) v.distinct
            v.ordered v.past)
    | inr (entry, found) ↦ elim (Bool-cases (is_expired now entry)) [
      | inl expired ↦
          rw (found, expired, get) (removed now c key c.hits (c.misses + 1) c.evictions v)
      | inr fresh ↦
          rw (found, fresh, get)
            (renewed now c key (touched now entry) (c.hits + 1) v refl (
              omega (
                arith,
                v.bounded,
                Dict.length-remove-lt key c.cache (Dict.get-has key entry c.cache found),
              )))
    ]
  ]

  has-IsValid :
      (now : ℕ) (key : String) (c : SimulationCache A)
      → IsValid now c
      → IsValid now (has now key c).1
  unfolding has
  has-IsValid now key c v = elim (Option-cases (Dict.get key c.cache)) [
    | inl missing ↦ rw (missing, has) v
    | inr (entry, found) ↦ elim (Bool-cases (is_expired now entry)) [
      | inl expired ↦ rw (found, expired, has) (removed now c key c.hits c.misses c.evictions v)
      | inr fresh ↦ rw (found, fresh, has) v
    ]
  ]

  pub evict_lru_some :
      (c : SimulationCache A) (e : String × CacheEntry A) (es : List (String × CacheEntry A))
      → c.cache ≡ e ∷ es
      → evict_lru c ≡ record c { cache = Dict.remove e.0 c.cache; evictions = c.evictions + 1 }
  unfolding evict_lru
  evict_lru_some c e es full =
      rw (full, evict_lru)
        (ap (λ m. record c { cache = Dict.remove e.0 m; evictions = c.evictions + 1 }) full)

  evicted :
      (now : ℕ) (c : SimulationCache A)
      → IsValid now c
      → 0 < length c.cache
      → IsValid now (evict_lru c)
        × (length (evict_lru c).cache < c.max_size)
        × ((evict_lru c).max_size ≡ c.max_size)
  evicted now c v some_entry = elim (List-cases c.cache) [
    | inl empty ↦ absurd (omega (arith, some_entry, ap length empty))
    | inr (e, es, full) ↦
        let present : Dict.has e.0 c.cache ≡ true =
          rw full (ground (arith, string_Eq.beq_iff e.0 e.0)) in
        rw (evict_lru_some c e es full) (
          removed now c e.0 c.hits c.misses (c.evictions + 1) v,
          omega (arith, v.bounded, Dict.length-remove-lt e.0 c.cache present),
          refl,
        )
  ]

  -- Behind `make_room` there is room for the key.
  make_room-IsValid :
      (now : ℕ) (key : String) (c : SimulationCache A)
      → IsValid now c
      → IsValid now (make_room key c)
        × (length (Dict.remove key (make_room key c).cache) < (make_room key c).max_size)
  make_room-IsValid now key c v =
      elim (Bool-cases (leb c.max_size (length c.cache) && not (Dict.has key c.cache))) [
        | inl full ↦
            let (w, room, size) = evicted now c v (ground (arith, v.positive)) in
            rw full (w, omega (arith, room, size, Dict.length-remove-le key (evict_lru c).cache))
        | inr space ↦ rw space (
          v,
          ground (
            arith,
            v.bounded,
            Dict.length-remove-le key c.cache,
            Dict.length-remove-lt key c.cache,
          ),
        )
      ]

  set-IsValid :
      (now : ℕ) (key : String) (result : A) (c : SimulationCache A)
      → IsValid now c
      → IsValid now (set now key result c)
  unfolding set
  set-IsValid now key result c v =
      let (w, room) = make_room-IsValid now key c v in
      renewed now (make_room key c) key (fresh_entry now result c.ttl_ms) (make_room key c).hits w
        refl room

  clear_expired-IsValid :
      (now : ℕ) (c : SimulationCache A) → IsValid now c → IsValid now (clear_expired now c)
  clear_expired-IsValid now c v =
      let keep : String × CacheEntry A → Bool = λ e. not (is_expired now e.1) in
      shrunk now c (filter_b keep c.cache) c.hits c.misses c.evictions v
        (length-filter-le keep c.cache) (Dict.Distinct-filter keep c.cache v.distinct)
        (ByRecency-filter keep c.cache v.ordered)
        (All-filter (λ e. last_used e ≤ now) keep c.cache v.past)

  emptied :
      (now : ℕ) (c : SimulationCache A) (hits misses evictions : ℕ)
      → IsValid now c
      → IsValid now (record c { cache = []; hits = hits; misses = misses; evictions = evictions })
  emptied now c hits misses evictions v =
      shrunk now c [] hits misses evictions v (omega arith) tt tt tt

  step-IsValid :
      (now : ℕ) (op : Operation A) (c : SimulationCache A)
      → IsValid now c
      → IsValid now (step now op c)
  unfolding get_statistics
  step-IsValid now (get_op key) c v = get-IsValid now key c v
  step-IsValid now (has_op key) c v = has-IsValid now key c v
  step-IsValid now (invalidate_op key) c v = removed now c key c.hits c.misses c.evictions v
  step-IsValid now (set_op key result) c v = set-IsValid now key result c v
  step-IsValid now statistics_op c v = clear_expired-IsValid now c v
  step-IsValid now clear_expired_op c v = clear_expired-IsValid now c v
  step-IsValid now clear_op c v = emptied now c 0 0 0 v
  step-IsValid now invalidate_all_op c v = emptied now c c.hits c.misses c.evictions v
  step-IsValid now reset_statistics_op c v =
      shrunk now c c.cache 0 0 0 v (omega arith) v.distinct v.ordered v.past

  -- the time of the last operation
  abbrev pub end_of : ℕ → List (ℕ × Operation A) → ℕ
  end_of now [] = now
  end_of now ((t, op) ∷ ops) = end_of t ops

  -- Through any operations at times that do not go back, the cache holds at most its size, with one entry
  -- for each key, and stays in the order of the last use.
  pub run-IsValid :
      (now : ℕ) (ops : List (ℕ × Operation A)) (c : SimulationCache A)
      → IsValid now c
      → IsChronological now ops
      → IsValid (end_of now ops) (run ops c)
  run-IsValid now [] c v h = v
  run-IsValid now ((t, op) ∷ ops) c v (le, h) =
      run-IsValid t ops (step t op c) (step-IsValid t op c (later now t c le v)) h
