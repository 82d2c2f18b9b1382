-- ===== src/Footprint.antt =====
-- packages/sdk/src/footprint-parser.ts: ledger keys, their classification, and the order in which
-- archived keys are restored. XDR objects of the Stellar SDK appear as what the code reads of them:
-- the union discriminant with the members read under it. `malformed` is a value whose accessor throws.
mod Order
mod Tests
use automated_cross_contract.Prelude.{
  ℕ, Bool, true, false, Option, none, some, List, [], ◌∷◌, ◌++◌, map, String, if◌then◌else◌, ◌==◌,
  or_else, string_Eq,
}
use automated_cross_contract.Prelude.Order.{sort_by}

mutual
  pub data ScVal : Type 0 where
    ledger_key_nonce ledger_key_contract_instance malformed : ScVal
    symbol : String → ScVal
    vec : ScVals → ScVal
    other : ℕ → ScVal

  pub data ScVals : Type 0 where
    nil : ScVals
    cons : ScVal → ScVals → ScVals

-- `contract_data` holds the contract's id in hex, when the address is a contract's.
pub data LedgerKey : Type 0 where
  contract_data : Option String → ScVal → LedgerKey
  contract_code : String → LedgerKey
  liquidity_pool claimable_balance ttl unrecognised : LedgerKey

pub data KeyType : Type 0 where
  contract_instance_type contract_data_type contract_code_type : KeyType
  liquidity_pool_type claimable_balance_type ttl_entry_type unknown_type : KeyType

pub data SacKeyType : Type 0 where
  sac_balance sac_allowance sac_nonce sac_admin sac_metadata : SacKeyType

pub record DeferredArchivedKey : Type 0 where
  pub key : LedgerKey
  pub key_base64 : String

pub record Classification : Type 0 where
  pub key_type : KeyType
  pub sac_key_type : Option SacKeyType
  pub contract_id : Option String
  pub restore_priority : ℕ

pub record ArchivedKey : Type 0 where
  pub key : LedgerKey
  pub key_base64 : String
  pub key_type : KeyType
  pub sac_key_type : Option SacKeyType
  pub contract_id : Option String
  pub restore_priority : ℕ

pub record FootprintKeys : Type 0 where
  pub read_only : List LedgerKey
  pub read_write : List LedgerKey
  pub every : List LedgerKey

pub extract_keys_from_footprint : List LedgerKey → List LedgerKey → FootprintKeys
extract_keys_from_footprint read_only read_write = record {
  read_only = read_only;
  read_write = read_write;
  every = read_only ++ read_write;
}

-- the head of `scvVec([ scvSymbol(…), … ])`
classify_vec : ScVals → Option SacKeyType
classify_vec (cons (symbol s) rest) =
    if s == "Balance"
    then some sac_balance
    else if s == "Allowance"
    then some sac_allowance
    else none
classify_vec _ = none

-- A throw is caught and gives `undefined`.
pub classify_sac_key : ScVal → Option SacKeyType
unfolding classify_vec
classify_sac_key ledger_key_nonce = some sac_nonce
classify_sac_key ledger_key_contract_instance = none
classify_sac_key (symbol s) = if s == "Admin" then some sac_admin else some sac_metadata
classify_sac_key (vec v) = classify_vec v
classify_sac_key malformed = none
classify_sac_key (other n) = none

pub classify_ledger_key : LedgerKey → Classification
unfolding classify_sac_key
classify_ledger_key (contract_data contract ledger_key_contract_instance) = record {
  key_type = contract_instance_type;
  sac_key_type = none;
  contract_id = contract;
  restore_priority = 0;
}
classify_ledger_key (contract_data contract data_key) = record {
  key_type = contract_data_type;
  sac_key_type = classify_sac_key data_key;
  contract_id = contract;
  restore_priority = 2;
}
classify_ledger_key (contract_code hash) = record {
  key_type = contract_code_type;
  sac_key_type = none;
  contract_id = some hash;
  restore_priority = 1;
}
classify_ledger_key liquidity_pool = record {
  key_type = liquidity_pool_type;
  sac_key_type = none;
  contract_id = none;
  restore_priority = 3;
}
classify_ledger_key claimable_balance = record {
  key_type = claimable_balance_type;
  sac_key_type = none;
  contract_id = none;
  restore_priority = 3;
}
classify_ledger_key ttl = record {
  key_type = ttl_entry_type;
  sac_key_type = none;
  contract_id = none;
  restore_priority = 3;
}
classify_ledger_key unrecognised = record {
  key_type = unknown_type;
  sac_key_type = none;
  contract_id = none;
  restore_priority = 3;
}

-- `priorityMap` gives some key types another priority.
pub classify : (KeyType → Option ℕ) → DeferredArchivedKey → ArchivedKey
unfolding classify_ledger_key
classify priority_map d =
    let c = classify_ledger_key d.key in
    record {
      key = d.key;
      key_base64 = d.key_base64;
      key_type = c.key_type;
      sac_key_type = c.sac_key_type;
      contract_id = c.contract_id;
      restore_priority = or_else (priority_map c.key_type) c.restore_priority;
    }

abbrev pub priority : ArchivedKey → ℕ
priority k = k.restore_priority

unfoldable pub classify_deferred_keys :
    (KeyType → Option ℕ) → List DeferredArchivedKey → List ArchivedKey
unfolding classify
classify_deferred_keys priority_map deferred =
    sort_by priority (map (classify priority_map) deferred)
