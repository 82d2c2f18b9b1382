-- ===== src/Packing.antt =====
-- packages/utils/src/batching.ts: keys grouped by contract or by priority, and packed into batches of a
-- maximal size. A missing string and an empty one are alike where the code tests for truth.
mod Sizes
mod Together
mod Contracts
mod Tests
use automated_cross_contract.Prelude.{
  ℕ, zero, suc, ◌+◌, Bool, true, false, Option, none, some, List, [], ◌∷◌, ◌++◌, map, String,
  if◌then◌else◌, ltb, leb, length, take, drop, or_else, Eq, ◌==◌, string_Eq, nat_Eq,
}
use automated_cross_contract.Prelude.Dict
use automated_cross_contract.Prelude.Order.{sort_by}

pub record ArchivedKey : Type 0 where
  pub id : String
  pub contract_id : Option String
  pub extends_key_id : Option String
  pub restore_priority : ℕ

-- a string that is not empty
abbrev pub truthy : Option String → Option String
truthy none = none
truthy (some s) = if s == "" then none else some s

-- the loop that fills `contractByKeyId`
pub contracts_by_key_id : List (String × String) → List ArchivedKey → List (String × String)
contracts_by_key_id m [] = m
contracts_by_key_id m (key ∷ keys) =
    contracts_by_key_id (elim (truthy key.contract_id) [ none ↦ m | some c ↦ Dict.put key.id c m ])
      keys

pub resolve_contract_id : List (String × String) → ArchivedKey → String
resolve_contract_id m key = elim (truthy key.contract_id) [
  | some c ↦ c
  | none ↦ elim (truthy key.extends_key_id) [
    | none ↦ "__unknown__"
    | some sibling ↦ or_else (truthy (Dict.get sibling m)) "__unknown__"
  ]
]

-- the list of `k` gets one more element, and is made if it is missing
abbrev pub push {ℓ} :
    {K : Type ℓ} ⦃e : Eq K⦄
    → K
    → ArchivedKey
    → List (K × List ArchivedKey)
    → List (K × List ArchivedKey)
push k key m = Dict.put k (or_else (Dict.get k m) [] ++ key ∷ []) m

pub add_contracts :
    List (String × String)
    → List (String × List ArchivedKey)
    → List ArchivedKey
    → List (String × List ArchivedKey)
unfolding resolve_contract_id
add_contracts contracts m [] = m
add_contracts contracts m (key ∷ keys) =
    add_contracts contracts (push (resolve_contract_id contracts key) key m) keys

unfoldable pub batch_keys_by_contract : List ArchivedKey → List (String × List ArchivedKey)
unfolding add_contracts contracts_by_key_id
batch_keys_by_contract keys = add_contracts (contracts_by_key_id [] keys) [] keys

pub add_priorities : List (ℕ × List ArchivedKey) → List ArchivedKey → List (ℕ × List ArchivedKey)
add_priorities m [] = m
add_priorities m (key ∷ keys) = add_priorities (push key.restore_priority key m) keys

unfoldable pub group_keys_by_priority : List ArchivedKey → List (ℕ × List ArchivedKey)
unfolding add_priorities
group_keys_by_priority keys = add_priorities [] keys

abbrev pub priority : ArchivedKey → ℕ
priority key = key.restore_priority

abbrev pub first_priority : List ArchivedKey → ℕ
first_priority [] = 0
first_priority (key ∷ keys) = key.restore_priority

-- the keys of each group by priority, and the groups by their first key
unfoldable pub sort_groups : List (String × List ArchivedKey) → List (String × List ArchivedKey)
sort_groups groups =
    sort_by (λ g. first_priority g.1) (map (λ g. (g.0, sort_by priority g.1)) groups)

-- the variables of the packing loop
pub record Packer : Type 0 where
  pub batches : List (List ArchivedKey)
  pub current : List ArchivedKey

pub flush : Packer → Packer
flush p =
    if ltb 0 (length p.current)
    then record { batches = p.batches ++ p.current ∷ []; current = [] }
    else p

-- `keys.slice(i, i + max)` for i = 0, max, 2 * max, …; each slice takes at least one of `fuel` keys
pub slices : ℕ → ℕ → List ArchivedKey → List (List ArchivedKey)
slices max zero keys = []
slices max (suc fuel) [] = []
slices max (suc fuel) (key ∷ keys) = take max (key ∷ keys) ∷ slices max fuel (drop max (key ∷ keys))

-- the body of the loop over the groups
pub pack_group : ℕ → Packer → List ArchivedKey → Packer
unfolding flush slices
pack_group max p keys =
    let flushed = flush p in
    let room = if ltb max (length p.current + length keys) then flushed else p in
    if leb (length keys) max
    then record { batches = room.batches; current = room.current ++ keys }
    else record {
      batches = flushed.batches ++ slices max (length keys) keys;
      current = flushed.current;
    }

pub pack_groups : ℕ → Packer → List (List ArchivedKey) → Packer
unfolding pack_group
pack_groups max p [] = p
pack_groups max p (keys ∷ groups) = pack_groups max (pack_group max p keys) groups

-- `options.maxBatchSize || 50`
abbrev pub max_batch_size : Option ℕ → ℕ
max_batch_size none = 50
max_batch_size (some n) = if ltb 0 n then n else 50

abbrev pub empty_packer : Packer
empty_packer = record { batches = []; current = [] }

unfoldable pub create_batches : Option ℕ → List ArchivedKey → List (List ArchivedKey)
unfolding batch_keys_by_contract sort_groups pack_groups flush
create_batches option keys =
    (flush (
      pack_groups (max_batch_size option) empty_packer
        (map (λ g. g.1) (sort_groups (batch_keys_by_contract keys))))).batches
