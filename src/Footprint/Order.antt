-- ===== src/Footprint/Order.antt =====
-- The order and the number of the keys of `classifyDeferredKeys`,
-- packages/sdk/src/footprint-parser.ts.
use automated_cross_contract.Prelude.{
  ℕ, ◌≡◌, refl, ap, ◌∙◌, Option, none, List, [], ◌∷◌, map, suc, ◌↔◌, length, arith, filter_b,
  nat_eq,
}
use automated_cross_contract.Prelude.Order.{IsSorted, sort-IsSorted, with_key-sort, length-sort}
use automated_cross_contract.Footprint.{
  KeyType, DeferredArchivedKey, LedgerKey, contract_data, ledger_key_contract_instance,
  classify_ledger_key, classify, priority, classify_deferred_keys, contract_instance_type,
}

instance_iff :
    (k : LedgerKey)
    → ((classify_ledger_key k).restore_priority ≡ 0)
      ↔ ((classify_ledger_key k).key_type ≡ contract_instance_type)
unfolding classify_ledger_key
instance_iff (contract_data contract ledger_key_contract_instance) = ground arith
instance_iff (contract_data contract v) = ground arith
instance_iff k = ground arith

length-map-classify :
    (priority_map : KeyType → Option ℕ) (l : List DeferredArchivedKey)
    → length (map (classify priority_map) l) ≡ length l
length-map-classify f [] = refl
length-map-classify f (d ∷ l) = ap suc (length-map-classify f l)

module _ (priority_map : KeyType → Option ℕ) (deferred : List DeferredArchivedKey) where
  -- The classified keys come in ascending restore priority.
  pub classify_deferred_keys-IsSorted :
      IsSorted priority (classify_deferred_keys priority_map deferred)
  unfolding classify_deferred_keys
  classify_deferred_keys-IsSorted = sort-IsSorted priority (map (classify priority_map) deferred)

  -- For every priority, the classified keys of that priority are those of the deferred keys, in the
  -- order of the footprint: nothing is dropped, repeated, or reordered within a priority.
  pub classify_deferred_keys_stable :
      (p : ℕ)
      → filter_b (λ k. nat_eq (priority k) p) (classify_deferred_keys priority_map deferred)
        ≡ filter_b (λ k. nat_eq (priority k) p) (map (classify priority_map) deferred)
  unfolding classify_deferred_keys
  classify_deferred_keys_stable p = with_key-sort priority p (map (classify priority_map) deferred)

  -- There is one classified key for each deferred key, also where several deferred keys are
  -- instance entries of one contract: no deduplication takes place.
  pub length-classify_deferred_keys :
      length (classify_deferred_keys priority_map deferred) ≡ length deferred
  unfolding classify_deferred_keys
  length-classify_deferred_keys =
      length-sort priority (map (classify priority_map) deferred)
      ∙ length-map-classify priority_map deferred

-- Without a priority map a key gets priority 0 exactly if it is a contract instance entry.
pub classify-instance_iff :
    (d : DeferredArchivedKey)
    → ((classify (λ _. none) d).restore_priority ≡ 0)
      ↔ ((classify (λ _. none) d).key_type ≡ contract_instance_type)
unfolding classify
classify-instance_iff d = instance_iff d.key
