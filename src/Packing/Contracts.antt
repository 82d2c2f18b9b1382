-- ===== src/Packing/Contracts.antt =====
-- The groups of `batchKeysByContract` and `groupKeysByPriority`, packages/utils/src/batching.ts.
use automated_cross_contract.Prelude.{
  ℕ, ◌≡◌, refl, sym, ◌∙◌, List, [], ◌∷◌, ◌++◌, append-nil, append_assoc, String, if◌then◌else◌,
  arith, Bool-cases, inl, inr, or_else, ◌==◌, Eq, string_Eq, nat_Eq, filter_b,
}
use automated_cross_contract.Prelude.Dict
use automated_cross_contract.Packing.{
  ArchivedKey, contracts_by_key_id, resolve_contract_id, push, add_contracts,
  batch_keys_by_contract, add_priorities, group_keys_by_priority,
}

abbrev pub group_at {ℓ} :
    {K : Type ℓ} ⦃e : Eq K⦄ → K → List (K × List ArchivedKey) → List ArchivedKey
group_at k m = or_else (Dict.get k m) []

module _ {ℓ} {K : Type ℓ} ⦃e : Eq K⦄ where
  group_at-push :
      (j k : K) (key : ArchivedKey) (m : List (K × List ArchivedKey))
      → group_at j (push k key m) ≡ group_at j m ++ (if j == k then key ∷ [] else [])
  group_at-push j k key m = ground (
    arith,
    Dict.get-put k j (group_at k m ++ key ∷ []) m,
    e.beq_iff j k,
    append-nil (group_at j m),
  )

  -- one key more, in front of the keys of the group that are still to come
  group_at_next :
      (j k : K) (key : ArchivedKey) (m : List (K × List ArchivedKey)) (rest : List ArchivedKey)
      → group_at j (push k key m) ++ rest ≡ group_at j m ++ (if j == k then key ∷ rest else rest)
  group_at_next j k key m rest = elim (Bool-cases (j == k)) [
    | inl here ↦ rw (group_at-push, here) (append_assoc (group_at j m) (key ∷ []) rest)
    | inr other ↦ rw (group_at-push, other, append-nil) refl
  ]

add_contracts_lem :
    (contracts : List (String × String)) (id : String) (m : List (String × List ArchivedKey))
    (keys : List ArchivedKey)
    → group_at id (add_contracts contracts m keys)
      ≡ group_at id m ++ filter_b (λ k. id == resolve_contract_id contracts k) keys
unfolding add_contracts
add_contracts_lem contracts id m [] = sym (append-nil _)
add_contracts_lem contracts id m (key ∷ keys) =
    let c = resolve_contract_id contracts key in
    add_contracts_lem contracts id (push c key m) keys
    ∙ group_at_next id c key m (filter_b (λ k. id == resolve_contract_id contracts k) keys)

-- The group of a contract holds exactly the keys that resolve to it, by themselves or by the key they
-- extend, in their order.
pub batch_keys_by_contract_lem :
    (id : String) (keys : List ArchivedKey)
    → group_at id (batch_keys_by_contract keys)
      ≡ filter_b (λ k. id == resolve_contract_id (contracts_by_key_id [] keys) k) keys
unfolding batch_keys_by_contract
batch_keys_by_contract_lem id keys = add_contracts_lem (contracts_by_key_id [] keys) id [] keys

add_priorities_lem :
    (p : ℕ) (m : List (ℕ × List ArchivedKey)) (keys : List ArchivedKey)
    → group_at p (add_priorities m keys)
      ≡ group_at p m ++ filter_b (λ k. p == k.restore_priority) keys
unfolding add_priorities
add_priorities_lem p m [] = sym (append-nil _)
add_priorities_lem p m (key ∷ keys) =
    add_priorities_lem p (push key.restore_priority key m) keys
    ∙ group_at_next p key.restore_priority key m (filter_b (λ k. p == k.restore_priority) keys)

-- The group of a priority holds exactly the keys of that priority, in their order.
pub group_keys_by_priority_lem :
    (p : ℕ) (keys : List ArchivedKey)
    → group_at p (group_keys_by_priority keys) ≡ filter_b (λ k. p == k.restore_priority) keys
unfolding group_keys_by_priority
group_keys_by_priority_lem p keys = add_priorities_lem p [] keys
