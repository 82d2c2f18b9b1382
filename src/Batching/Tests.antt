-- ===== src/Batching/Tests.antt =====
-- Runs of the planning, and the theorems at concrete keys.
use automated_cross_contract.Prelude.{
  ℕ, ◌≡◌, refl, true, none, some, List, [], ◌∷◌, map, String, length, string_Eq, if◌then◌else◌,
  nat_eq,
}
use automated_cross_contract.Footprint.{ArchivedKey, contract_code, contract_code_type}
use automated_cross_contract.Batching.{
  Config, Simulation, success, estimate_restore_fee, batch_keys, group_keys_by_contract,
  batch_key_groups,
}
use automated_cross_contract.Batching.Limits.{AllFit, batch_keys-AllFit}

program : Unit {0}
unfolding batch_keys estimate_restore_fee group_keys_by_contract batch_key_groups
program = tt

abbrev key : String → String → ArchivedKey
key contract text = record {
  key = contract_code contract;
  key_base64 = text;
  key_type = contract_code_type;
  sac_key_type = none;
  contract_id = some contract;
  restore_priority = 1;
}

abbrev keys : List ArchivedKey
keys = key "a" "AAAA" ∷ key "b" "BBBB" ∷ key "a" "CCCC" ∷ key "a" "DDDD" ∷ []

abbrev pairs_of_two : Config
pairs_of_two = record {
  restore_fee = 100;
  dynamic_fee_estimation = true;
  max_restore_fee_stroops = some 1000;
  max_restore_batch_size = some 2;
}

-- the key with three keys before it is simulated at 990 stroops
abbrev simulate : ℕ → Simulation
simulate n = if nat_eq n 3 then success (some 990) else success (some 10)

abbrev in_group : ℕ → ℕ → Simulation
in_group g = simulate

by_size :
    map length (batch_keys (record pairs_of_two { max_restore_batch_size = some 3 }) simulate keys)
    ≡ 3 ∷ 1 ∷ []
unfolding program
by_size = refl

by_fee :
    map length (batch_keys (record pairs_of_two { max_restore_batch_size = none }) simulate keys)
    ≡ 3 ∷ 1 ∷ []
unfolding program
by_fee = refl

groups : map (λ g. g.0) (group_keys_by_contract keys) ≡ "a" ∷ "b" ∷ []
unfolding program
groups = refl

batch_keys-AllFit_example : AllFit pairs_of_two simulate 0 (batch_keys pairs_of_two simulate keys)
batch_keys-AllFit_example = batch_keys-AllFit pairs_of_two simulate keys
