-- ===== src/Reads/Results.antt =====
-- What `getLedgerEntries`, packages/sdk/src/ledger-read-coalescer.ts, answers, and how its promises leave the map.
use automated_cross_contract.Prelude.{
  ℕ, ◌≡◌, refl, sym, ◌∙◌, ap, subst, Bool, false, ◌&&◌, Option, none, some, List, [], ◌∷◌, ◌++◌,
  map, map-append, append-nil, String, if◌then◌else◌, nat_eq, ◌==◌, string_Eq, All, Option-cases,
  Bool-cases, List-cases, inl, inr, arith,
}
use mathlib.Core.List.{Perm, perm_middle}
use mathlib.Core.List.Perm
use automated_cross_contract.Prelude.Dict
use automated_cross_contract.Prelude.Dict.{Distinct}
use automated_cross_contract.Prelude.Members.{is_in}
use automated_cross_contract.Reads.{
  LedgerReadCoalescer, collect, partition, with_call, start, release, settle, index, add_some,
  results,
}
use automated_cross_contract.Reads.Joined.{collect-Collected, keys-with_call}

abbrev pub Ledger : Type 0
Ledger = String → Option String

-- the entries of a ledger for some keys
abbrev pub found : Ledger → List String → List (String × String)
found ledger [] = []
found ledger (id ∷ ids) = add_some id (ledger id) (found ledger ids)

module _ (ledger : Ledger) (answers : ℕ → Option (List (String × String))) where
  -- the call of an awaited promise is answered, with the ledger's entry for its key
  abbrev pub AgreesAt : String × ℕ → Type 0
  AgreesAt (id, call) =
      (entries : List (String × String)) × (answers call ≡ some entries)
      × (Dict.get id (index [] entries) ≡ ledger id)

  results_found :
      (waits : List (String × ℕ))
      → All AgreesAt waits
      → results answers waits ≡ some (found ledger (map (λ w. w.0) waits))
  unfolding results
  results_found [] h = refl
  results_found ((id, call) ∷ waits) ((entries, answered, agrees), h) =
      rw (answered, results, results_found waits h, agrees) refl

  found-append :
      (xs ys : List String) → found ledger (xs ++ ys) ≡ found ledger xs ++ found ledger ys
  found-append [] ys = refl
  found-append (x ∷ xs) ys = elim (Option-cases (ledger x)) [
    | inl nothing ↦ rw nothing (found-append xs ys)
    | inr (v, here) ↦ rw here (ap (◌∷◌ (x, v)) (found-append xs ys))
  ]

  add_some-Perm :
      (id : String) (o : Option String) (xs ys : List (String × String))
      → Perm xs ys
      → Perm (add_some id o xs) (add_some id o ys)
  add_some-Perm id none xs ys h = h
  add_some-Perm id (some v) xs ys h = Perm.cons (id, v) h

  add_some_middle :
      (id : String) (o : Option String) (xs ys : List (String × String))
      → Perm (xs ++ add_some id o ys) (add_some id o (xs ++ ys))
  add_some_middle id none xs ys = Perm.refl _
  add_some_middle id (some v) xs ys = perm_middle xs ys

  found_parted :
      (in_flight : List (String × ℕ)) (ids : List String)
      → Perm
          (found ledger (Dict.keys (partition in_flight ids).0)
            ++ found ledger (partition in_flight ids).1)
          (found ledger ids)
  unfolding partition
  found_parted in_flight [] = Perm.refl _
  found_parted in_flight (id ∷ ids) =
      let (waits, to_fetch) = partition in_flight ids in
      elim (Option-cases (Dict.get id in_flight)) [
        | inl nothing ↦
            rw (nothing, partition)
              (Perm.trans
                (add_some_middle id (ledger id) (found ledger (Dict.keys waits))
                  (found ledger to_fetch))
                (add_some-Perm id (ledger id) _ _ (found_parted in_flight ids)))
        | inr (call, here) ↦
            rw (here, partition)
              (joined id (ledger id) (found ledger (Dict.keys waits)) (found ledger to_fetch) _
                (found_parted in_flight ids))
      ]
    where
      joined :
          (id : String) (o : Option String) (xs ys zs : List (String × String))
          → Perm (xs ++ ys) zs
          → Perm (add_some id o xs ++ ys) (add_some id o zs)
      joined id none xs ys zs h = h
      joined id (some v) xs ys zs h = Perm.cons (id, v) h

  waits_found :
      (ids : List String) (c : LedgerReadCoalescer)
      → Perm (found ledger (Dict.keys (start ids c).waits)) (found ledger (collect ids [] 0).0)
  unfolding start
  waits_found ids c =
      let parted = partition c.in_flight (collect ids [] 0).0 in
      let target = found ledger (collect ids [] 0).0 in
      let all = found_parted c.in_flight (collect ids [] 0).0 in
      elim (List-cases parted.1) [
        | inl nothing ↦
            rw (nothing, start)
              (subst (λ l. Perm l target)
                (ap (λ l. found ledger (Dict.keys parted.0) ++ found ledger l) nothing
                  ∙ append-nil _)
                all)
        | inr (id, rest, some_left) ↦
            let fetched = with_call c.rpc_calls (id ∷ rest) in
            rw (some_left, start)
              (subst (λ l. Perm l target)
                (ap (λ l. found ledger (Dict.keys parted.0) ++ found ledger l)
                    (some_left ∙ sym (keys-with_call c.rpc_calls (id ∷ rest)))
                  ∙ sym (found-append (Dict.keys parted.0) (Dict.keys fetched))
                  ∙ ap (found ledger) (sym (map-append (λ w. w.0) parted.0 fetched)))
                all)
      ]

  -- If every call that a read waits for answers what the ledger holds for the key awaited, the read gives the
  -- entries that the ledger has for the keys asked for, each key once however often it is asked for, in some order:
  -- sharing reads in flight changes no answer.
  pub results-start :
      (ids : List String) (c : LedgerReadCoalescer)
      → All AgreesAt (start ids c).waits
      → (unique : List String) × (r : List (String × String)) × Distinct unique
        × ((id : String) → is_in id unique ≡ is_in id ids)
        × (results answers (start ids c).waits ≡ some r)
        × Perm r (found ledger unique)
  results-start ids c h =
      let collected = collect-Collected ids [] 0 tt in
      (
        (collect ids [] 0).0,
        _,
        collected.distinct,
        collected.members,
        results_found (start ids c).waits h,
        waits_found ids c,
      )

-- the promise of a call
abbrev pub holds : ℕ → Option ℕ → Bool
holds call none = false
holds call (some other) = nat_eq other call

release_self :
    (id : String) (call : ℕ) (c : LedgerReadCoalescer)
    → Dict.get id (release id call c).in_flight
      ≡ (if holds call (Dict.get id c.in_flight) then none else Dict.get id c.in_flight)
unfolding release
release_self id call c = elim (Option-cases (Dict.get id c.in_flight)) [
  | inl nothing ↦ rw (nothing, release) nothing
  | inr (n, here) ↦ elim (Bool-cases (nat_eq n call)) [
    | inl own ↦
        rw (here, release, own)
          (ground (arith, Dict.get-remove id id c.in_flight, string_Eq.beq_iff id id))
    | inr foreign ↦ rw (here, release, foreign) here
  ]
]

get-release :
    (id j : String) (call : ℕ) (c : LedgerReadCoalescer)
    → Dict.get j (release id call c).in_flight
      ≡ (if (j == id) && holds call (Dict.get j c.in_flight) then none else Dict.get j c.in_flight)
unfolding release
get-release id j call c = elim (Bool-cases (j == id)) [
  | inl same ↦
      let j_is : j ≡ id = (string_Eq.beq_iff j id).0 same in
      rw same (
        subst
          (λ k.
            Dict.get k (release id call c).in_flight
            ≡ (if holds call (Dict.get k c.in_flight) then none else Dict.get k c.in_flight))
          (sym j_is) (release_self id call c))
  | inr other ↦ elim (Option-cases (Dict.get id c.in_flight)) [
    | inl nothing ↦ rw (nothing, release, other) refl
    | inr (n, here) ↦ elim (Bool-cases (nat_eq n call)) [
      | inl own ↦ rw (here, release, own, other) (Dict.get-remove id j c.in_flight ∙ rw other refl)
      | inr foreign ↦ rw (here, release, foreign, other) refl
    ]
  ]
]

-- When the promises of a call settle, exactly the keys given that are in flight with this call leave the map; a
-- read of another call stays.
pub get-settle :
    (call : ℕ) (ids : List String) (c : LedgerReadCoalescer) (j : String)
    → Dict.get j (settle call ids c).in_flight ≡ (
        if is_in j ids && holds call (Dict.get j c.in_flight) then none else Dict.get j c.in_flight)
unfolding settle
get-settle call [] c j = refl
get-settle call (id ∷ ids) c j =
    let ih = get-settle call ids (release id call c) j in
    ground (arith, ih, get-release id j call c)
