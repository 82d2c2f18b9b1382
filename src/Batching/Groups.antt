-- ===== src/Batching/Groups.antt =====
-- The groups of `groupKeysByContract` and the batches of `batchKeyGroups`,
-- packages/sdk/src/soroban-resurrect.ts.
use automated_cross_contract.Prelude.{
  ℕ, ◌+◌, ◌<◌, ◌≡◌, ◌≢◌, refl, sym, ap, ◌∙◌, false, List, [], ◌∷◌, ◌++◌, append-nil, append_assoc,
  arith, length, concat, concat-append, All, All-append, All-snoc, filter_b, String, or_else,
  Option-cases, length-append, subst, Bool-cases, inl, inr, ◌==◌, string_Eq, if◌then◌else◌, map,
}
use automated_cross_contract.Prelude.Dict
use automated_cross_contract.Prelude.Dict.{Distinct}
use automated_cross_contract.Footprint.{ArchivedKey}
use automated_cross_contract.Batching.{
  Config, Simulation, contract_of, add_to_group, add_all, group_keys_by_contract, batch_keys,
  batch_groups, batch_key_groups,
}
use automated_cross_contract.Batching.Limits.{concat-batch_keys}

abbrev Groups : Type 0
Groups = List (String × List ArchivedKey)

-- the keys of one contract, in order
abbrev pub of_contract : String → List ArchivedKey → List ArchivedKey
of_contract id = filter_b (λ k. id == contract_of k)

abbrev pub group_at : String → Groups → List ArchivedKey
group_at id m = or_else (Dict.get id m) []

group_at-add :
    (id : String) (m : Groups) (k : ArchivedKey)
    → group_at id (add_to_group m k) ≡ group_at id m ++ (if id == contract_of k then k ∷ [] else [])
unfolding add_to_group
group_at-add id m k =
    let c = contract_of k in
    ground (
      arith,
      Dict.get-put c id (k ∷ []) m,
      Dict.get-put c id (group_at c m ++ k ∷ []) m,
      string_Eq.beq_iff id c,
      append-nil (group_at id m),
    )

group_at-add_all :
    (id : String) (m : Groups) (ks : List ArchivedKey)
    → group_at id (add_all m ks) ≡ group_at id m ++ of_contract id ks
unfolding add_all
group_at-add_all id m [] = sym (append-nil _)
group_at-add_all id m (k ∷ ks) =
    group_at-add_all id (add_to_group m k) ks ∙ elim (Bool-cases (id == contract_of k)) [
      | inl here ↦
          rw (group_at-add, here) (append_assoc (group_at id m) (k ∷ []) (of_contract id ks))
      | inr other ↦ rw (group_at-add, other, append-nil) refl
    ]

-- The group of a contract holds exactly the keys of that contract, in their order; a contract with
-- no key has no group.
pub group_keys_by_contract_lem :
    (id : String) (keys : List ArchivedKey)
    → group_at id (group_keys_by_contract keys) ≡ of_contract id keys
unfolding group_keys_by_contract
group_keys_by_contract_lem id keys = group_at-add_all id [] keys

Distinct-add :
    (m : Groups) (k : ArchivedKey)
    → Distinct (Dict.keys m)
    → Distinct (Dict.keys (add_to_group m k))
unfolding add_to_group
Distinct-add m k h = ground (
  arith,
  Dict.Distinct-put (contract_of k) (k ∷ []) m h,
  Dict.Distinct-put (contract_of k) (group_at (contract_of k) m ++ k ∷ []) m h,
)

Distinct-add_all :
    (m : Groups) (ks : List ArchivedKey)
    → Distinct (Dict.keys m)
    → Distinct (Dict.keys (add_all m ks))
unfolding add_all
Distinct-add_all m [] h = h
Distinct-add_all m (k ∷ ks) h = Distinct-add_all (add_to_group m k) ks (Distinct-add m k h)

-- No contract has two groups.
pub group_keys_by_contract-Distinct :
    (keys : List ArchivedKey) → Distinct (Dict.keys (group_keys_by_contract keys))
unfolding group_keys_by_contract
group_keys_by_contract-Distinct keys = Distinct-add_all [] keys tt

-- a group as the grouping makes it
abbrev IsGroup : String × List ArchivedKey → Type 0
IsGroup g = (0 < length g.1) × All (λ k. contract_of k ≡ g.0) g.1

add-IsGroup : (m : Groups) (k : ArchivedKey) → All IsGroup m → All IsGroup (add_to_group m k)
unfolding add_to_group
add-IsGroup m k h = elim (Option-cases (Dict.get (contract_of k) m)) [
  | inl missing ↦
      rw (missing, add_to_group)
        (Dict.All-put IsGroup (contract_of k) (k ∷ []) m (omega arith, (refl, tt)) h)
  | inr (ks, found) ↦
      let old = Dict.All-get IsGroup (contract_of k) m ks h found in
      rw (found, add_to_group)
        (Dict.All-put IsGroup (contract_of k) (ks ++ k ∷ []) m
          (
            omega (arith, length-append ks (k ∷ [])),
            All-snoc (λ j. contract_of j ≡ contract_of k) ks k old.1 refl,
          )
          h)
]

add_all-IsGroup : (m : Groups) (ks : List ArchivedKey) → All IsGroup m → All IsGroup (add_all m ks)
unfolding add_all
add_all-IsGroup m [] h = h
add_all-IsGroup m (k ∷ ks) h = add_all-IsGroup (add_to_group m k) ks (add-IsGroup m k h)

groups-IsGroup : (keys : List ArchivedKey) → All IsGroup (group_keys_by_contract keys)
unfolding group_keys_by_contract
groups-IsGroup keys = add_all-IsGroup [] keys tt

-- the batch is a part of one contract's keys
abbrev pub OneContract : List ArchivedKey → Type 0
OneContract b = (id : String) × All (λ k. contract_of k ≡ id) b

All-append_left {ℓ κ} : {A : Type ℓ} (P : A → Type κ) (xs ys : List A) → All P (xs ++ ys) → All P xs
All-append_left P [] ys h = tt
All-append_left P (x ∷ xs) ys (p, h) = (p, All-append_left P xs ys h)

All-append_right {ℓ κ} :
    {A : Type ℓ} (P : A → Type κ) (xs ys : List A) → All P (xs ++ ys) → All P ys
All-append_right P [] ys h = h
All-append_right P (x ∷ xs) ys (p, h) = All-append_right P xs ys h

split_OneContract :
    (id : String) (bs : List (List ArchivedKey))
    → All (λ k. contract_of k ≡ id) (concat bs)
    → All OneContract bs
split_OneContract id [] h = tt
split_OneContract id (b ∷ bs) h = (
  (id, All-append_left (λ k. contract_of k ≡ id) b (concat bs) h),
  split_OneContract id bs (All-append_right (λ k. contract_of k ≡ id) b (concat bs) h),
)

module _ (c : Config) (simulate : ℕ → ℕ → Simulation) where
  batch_groups-OneContract :
      (n : ℕ) (m : Groups) → All IsGroup m → All OneContract (batch_groups c simulate n m)
  unfolding batch_groups
  batch_groups-OneContract n [] h = tt
  batch_groups-OneContract n ((id, ks) ∷ m) ((_, same), h) =
      All-append OneContract (batch_keys c (simulate n) ks) (batch_groups c simulate (n + 1) m)
        (split_OneContract id (batch_keys c (simulate n) ks)
          (rw (concat-batch_keys c (simulate n) ks) same))
        (batch_groups-OneContract (n + 1) m h)

  -- A batch planned for concurrent execution never mixes the keys of two contracts.
  pub batch_key_groups-OneContract :
      (keys : List ArchivedKey)
      → All OneContract (batch_key_groups c simulate (group_keys_by_contract keys))
  unfolding batch_key_groups
  batch_key_groups-OneContract keys =
      batch_groups-OneContract 0 (group_keys_by_contract keys) (groups-IsGroup keys)

  concat-batch_groups :
      (n : ℕ) (m : Groups) → concat (batch_groups c simulate n m) ≡ concat (map (λ g. g.1) m)
  unfolding batch_groups
  concat-batch_groups n [] = refl
  concat-batch_groups n ((id, ks) ∷ m) =
      concat-append (batch_keys c (simulate n) ks) (batch_groups c simulate (n + 1) m)
      ∙ rw (concat-batch_keys c (simulate n) ks, concat-batch_groups (n + 1) m) refl

  -- The concurrent batches hold the keys of the groups, group after group, each group in its order.
  pub concat-batch_key_groups :
      (m : Groups) → concat (batch_key_groups c simulate m) ≡ concat (map (λ g. g.1) m)
  unfolding batch_key_groups
  concat-batch_key_groups m = concat-batch_groups 0 m

of_contract-append :
    (id : String) (xs ys : List ArchivedKey)
    → of_contract id (xs ++ ys) ≡ of_contract id xs ++ of_contract id ys
of_contract-append id [] ys = refl
of_contract-append id (x ∷ xs) ys = ground (arith, of_contract-append id xs ys)

of_contract_self :
    (id : String) (ks : List ArchivedKey)
    → All (λ k. contract_of k ≡ id) ks
    → of_contract id ks ≡ ks
of_contract_self id [] h = refl
of_contract_self id (k ∷ ks) (e, h) =
    rw (e, (string_Eq.beq_iff id id).1 refl) (ap (◌∷◌ k) (of_contract_self id ks h))

of_contract_other :
    (id j : String) (ks : List ArchivedKey)
    → (id == j) ≡ false
    → All (λ k. contract_of k ≡ j) ks
    → of_contract id ks ≡ []
of_contract_other id j [] ne h = refl
of_contract_other id j (k ∷ ks) ne (e, h) = rw (e, ne) (of_contract_other id j ks ne h)

of_contract_absent :
    (id : String) (m : Groups)
    → All (λ j. id ≢ j) (Dict.keys m)
    → All IsGroup m
    → of_contract id (concat (map (λ g. g.1) m)) ≡ []
of_contract_absent id [] a h = refl
of_contract_absent id ((j, js) ∷ m) (ne, a) ((_, same), h) =
    of_contract-append id js (concat (map (λ g. g.1) m))
    ∙ rw (of_contract_other id j js (ground (arith, string_Eq.beq_iff id j)) same)
        (of_contract_absent id m a h)

of_contract-groups :
    (id : String) (m : Groups)
    → Distinct (Dict.keys m)
    → All IsGroup m
    → of_contract id (concat (map (λ g. g.1) m)) ≡ group_at id m
of_contract-groups id [] d h = refl
of_contract-groups id ((j, js) ∷ m) (a, d) ((some_key, same), h) =
    of_contract-append id js (concat (map (λ g. g.1) m)) ∙ elim (Bool-cases (id == j)) [
      | inl here ↦
          let e : j ≡ id = sym ((string_Eq.beq_iff id j).0 here) in
          rw
            (
              here,
              of_contract_self id js (subst (λ i. All (λ k. contract_of k ≡ i) js) e same),
              of_contract_absent id m (subst (λ i. All (λ x. i ≢ x) (Dict.keys m)) e a) h,
              append-nil,
            )
            refl
      | inr other ↦ rw (other, of_contract_other id j js other same) (of_contract-groups id m d h)
    ]

-- The batches planned for concurrent execution hold, for every contract, exactly the keys of that
-- contract in their order: none is lost or repeated.
pub of_contract-batch_key_groups :
    (c : Config) (simulate : ℕ → ℕ → Simulation) (id : String) (keys : List ArchivedKey)
    → of_contract id (concat (batch_key_groups c simulate (group_keys_by_contract keys)))
      ≡ of_contract id keys
of_contract-batch_key_groups c simulate id keys =
    ap (of_contract id) (concat-batch_key_groups c simulate (group_keys_by_contract keys))
    ∙ of_contract-groups id (group_keys_by_contract keys) (group_keys_by_contract-Distinct keys)
        (groups-IsGroup keys)
    ∙ group_keys_by_contract_lem id keys
