-- ===== src/Footprint/Tests.antt =====
-- Runs of the classification, and the theorems at concrete footprints.
use automated_cross_contract.Prelude.{ℕ, ◌≡◌, refl, Option, none, some, List, [], ◌∷◌, map}
use automated_cross_contract.Footprint.{
  ledger_key_contract_instance, symbol, LedgerKey, contract_data, contract_code, KeyType,
  DeferredArchivedKey, classify, priority, classify_ledger_key, classify_deferred_keys, sac_admin,
}

program : Unit {0}
unfolding classify_deferred_keys classify classify_ledger_key
program = tt

abbrev unmapped : KeyType → Option ℕ
unmapped _ = none

abbrev entry : LedgerKey
entry = contract_data (some "c1") (symbol "Admin")

abbrev instance_key : DeferredArchivedKey
instance_key = record {
  key = contract_data (some "c1") ledger_key_contract_instance;
  key_base64 = "AAAA";
}

abbrev deferred : List DeferredArchivedKey
deferred =
    record { key = entry; key_base64 = "BBBB" }
    ∷ instance_key
    ∷ record { key = contract_code "ff"; key_base64 = "CCCC" }
    ∷ instance_key
    ∷ []

-- the two instance entries come first, both
run : map priority (classify_deferred_keys unmapped deferred) ≡ 0 ∷ 0 ∷ 1 ∷ 2 ∷ []
unfolding program
run = refl

admin : (classify_ledger_key entry).sac_key_type ≡ some sac_admin
unfolding program
admin = refl
