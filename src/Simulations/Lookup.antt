-- ===== src/Simulations/Lookup.antt =====
-- `get` behind `set` in packages/rpc/src/simulation-cache.ts.
use automated_cross_contract.Prelude.{
  ℕ, ◌+◌, ◌≤◌, ◌<◌, ◌≡◌, ◌≢◌, refl, sym, ◌∙◌, true, false, Option, none, some, List, ◌∷◌, String,
  if◌then◌else◌, ltb, length, string_Eq, All, arith, Bool-cases, Option-cases, inl, inr, ◌⊎◌, ◌==◌,
  ap,
}
use automated_cross_contract.Prelude.Dict
use automated_cross_contract.Simulations.{
  CacheEntry, SimulationCache, is_expired, get, evict_lru, make_room, fresh_entry, set,
}
use automated_cross_contract.Simulations.Recency.{IsValid, last_used, evict_lru_some}

module _ {ℓ} {A : Type ℓ} where
  -- what is given for an entry found
  abbrev served : ℕ → Option (CacheEntry A) → Option A
  served now none = none
  served now (some entry) = if is_expired now entry then none else some entry.result

  get-served :
      (now : ℕ) (key : String) (c : SimulationCache A)
      → (get now key c).0 ≡ served now (Dict.get key c.cache)
  unfolding get
  get-served now key c = elim (Option-cases (Dict.get key c.cache)) [
    | inl missing ↦ rw (missing, get) refl
    | inr (entry, found) ↦ elim (Bool-cases (is_expired now entry)) [
      | inl expired ↦ rw (found, expired, get) refl
      | inr fresh ↦ rw (found, fresh, get) refl
    ]
  ]

  -- the entries behind `set`
  entry_after :
      (now : ℕ) (key other : String) (result : A) (c : SimulationCache A)
      → Dict.get other (set now key result c).cache ≡ (
          if other == key
          then some (fresh_entry now result c.ttl_ms)
          else Dict.get other (make_room key c).cache)
  unfolding set
  entry_after now key other result c = ground (
    arith,
    Dict.get-put key other (fresh_entry now result c.ttl_ms)
        (Dict.remove key (make_room key c).cache),
    Dict.get-remove key other (make_room key c).cache,
  )

  -- A result that was just stored is found exactly until its time to live is over.
  pub get-set :
      (now later : ℕ) (key : String) (result : A) (c : SimulationCache A)
      → (get later key (set now key result c)).0
        ≡ (if ltb (now + c.ttl_ms) later then none else some result)
  get-set now later key result c =
      let same : (key == key) ≡ true = (string_Eq.beq_iff key key).1 refl in
      let found : Dict.get key (set now key result c).cache
          ≡ some (fresh_entry now result c.ttl_ms) =
        rw same at (entry_after now key key result c) in
      get-served later key (set now key result c) ∙ ap (served later) found

  -- Storing a result under a key that is cached already, or while there is room, changes no other key.
  pub get-set_other :
      (now later : ℕ) (key other : String) (result : A) (c : SimulationCache A)
      → other ≢ key
      → (Dict.has key c.cache ≡ true) ⊎ (length c.cache < c.max_size)
      → (get later other (set now key result c)).0 ≡ (get later other c).0
  get-set_other now later key other result c differ room =
      let kept : Dict.get other (set now key result c).cache ≡ Dict.get other c.cache =
        entry_after now key other result c ∙ ground (arith, string_Eq.beq_iff other key, room) in
      get-served later other (set now key result c)
      ∙ ap (served later) kept
      ∙ sym (get-served later other c)

  -- Storing a new key in a full cache drops the entry that was used least recently, and no other key.
  pub set-evicts :
      (now later : ℕ) (key other : String) (result : A) (c : SimulationCache A)
      (e : String × CacheEntry A) (es : List (String × CacheEntry A))
      → IsValid now c
      → c.cache ≡ e ∷ es
      → length c.cache ≡ c.max_size
      → Dict.has key c.cache ≡ false
      → other ≢ key
      → All (λ f. last_used e ≤ last_used f) es
        × ((get later other (set now key result c)).0
            ≡ (if other == e.0 then none else (get later other c).0))
  set-evicts now later key other result c e es v full at_size absent differ =
      let oldest = (rw full at v.ordered).0 in
      let makes_room : make_room key c ≡ evict_lru c = ground (arith, at_size, absent) in
      let left : Dict.get other (make_room key c).cache
          ≡ (if other == e.0 then none else Dict.get other c.cache) =
        ap (λ d. Dict.get other d.cache) (makes_room ∙ evict_lru_some c e es full)
        ∙ Dict.get-remove e.0 other c.cache in
      let kept : Dict.get other (set now key result c).cache
          ≡ (if other == e.0 then none else Dict.get other c.cache) =
        entry_after now key other result c ∙ ground (arith, string_Eq.beq_iff other key, left) in
      (
        oldest,
        get-served later other (set now key result c)
            ∙ ap (served later) kept
            ∙ ground (arith, get-served later other c),
      )
