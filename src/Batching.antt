-- ===== src/Batching.antt =====
-- packages/sdk/src/soroban-resurrect.ts: the planning of restore batches (`batchKeys`,
-- `groupKeysByContract`, `batchKeyGroups`, `estimateRestoreFee`).
-- A fee in stroops is the number that its decimal text stands for. What `simulateTransaction` answers
-- is a parameter: it is asked once for each key behind the first of a batch, so `simulate n` is the
-- answer at the key with `n` keys before it.
mod Limits
mod Groups
mod Tests
use Prim.Native.String
use automated_cross_contract.Prelude.{
  ℕ, suc, ◌+◌, ◌*◌, ◌/◌, Bool, true, false, ◌&&◌, ◌||◌, Option, none, some, List, [], ◌∷◌, ◌++◌,
  map, String, if◌then◌else◌, or_else, ltb, leb, length, string_Eq,
}
use automated_cross_contract.Prelude.Dict
use automated_cross_contract.Footprint.{ArchivedKey}

-- `s.length`, for the ASCII text of a base64 key
abbrev pub text_length : String → ℕ
text_length String.[] = 0
text_length (String.◌∷◌ c s) = suc (text_length s)

abbrev pub max_xdr_size_bytes : ℕ
max_xdr_size_bytes = 100_000

abbrev pub header_overhead : ℕ
header_overhead = 200

-- The fields of the configuration that the planning reads. `none` is a field left out (or, for the
-- batch size, 0, which `||` treats alike).
pub record Config : Type 0 where
  pub restore_fee : ℕ
  pub dynamic_fee_estimation : Bool
  pub max_restore_fee_stroops : Option ℕ
  pub max_restore_batch_size : Option ℕ

-- `simulateTransaction` throws, answers with an error, or succeeds, perhaps with a `minResourceFee`.
pub data Simulation : Type 0 where
  throws error_response : Simulation
  success : Option ℕ → Simulation

-- 10 % on top of the simulated fee; the configured fee where the simulation gives none.
pub estimate_restore_fee : Config → Simulation → ℕ
estimate_restore_fee c (success (some min_fee)) =
    if c.dynamic_fee_estimation then min_fee + min_fee / 10 else c.restore_fee
estimate_restore_fee c s = c.restore_fee

-- `this.config.maxRestoreBatchSize || 50`
pub max_batch_size : Config → ℕ
max_batch_size c = elim c.max_restore_batch_size [ none ↦ 50 | some n ↦ if leb n 0 then 50 else n ]

-- The variables of the loop; `seen` counts the keys handled so far.
pub record Planner : Type 0 where
  pub batches : List (List ArchivedKey)
  pub current_batch : List ArchivedKey
  pub current_size : ℕ
  pub seen : ℕ

module _ (c : Config) (simulate : ℕ → Simulation) where
  pub fee_budget_exceeded : Planner → Bool
  unfolding estimate_restore_fee
  fee_budget_exceeded p = elim c.max_restore_fee_stroops [
    | none ↦ false
    | some budget ↦
        ltb 0 (length p.current_batch) && ltb budget (estimate_restore_fee c (simulate p.seen))
  ]

  -- any of the three limits, for a batch that is not empty
  pub starts_new_batch : Planner → ArchivedKey → Bool
  unfolding fee_budget_exceeded max_batch_size
  starts_new_batch p key =
      let estimated = p.current_size + text_length key.key_base64 + header_overhead in
      let xdr_size_exceeded = ltb max_xdr_size_bytes estimated && ltb 0 (length p.current_batch) in
      let batch_size_exceeded = leb (max_batch_size c) (length p.current_batch) in
      (xdr_size_exceeded || batch_size_exceeded || fee_budget_exceeded p)
      && ltb 0 (length p.current_batch)

  -- the body of the loop
  pub plan_key : Planner → ArchivedKey → Planner
  unfolding starts_new_batch
  plan_key p key =
      if starts_new_batch p key
      then record {
        batches = p.batches ++ p.current_batch ∷ [];
        current_batch = key ∷ [];
        current_size = text_length key.key_base64;
        seen = p.seen + 1;
      }
      else record {
        batches = p.batches;
        current_batch = p.current_batch ++ key ∷ [];
        current_size = p.current_size + text_length key.key_base64 + header_overhead;
        seen = p.seen + 1;
      }

  pub plan_keys : Planner → List ArchivedKey → Planner
  plan_keys p [] = p
  plan_keys p (key ∷ keys) = plan_keys (plan_key p key) keys

-- `if (currentBatch.length > 0) batches.push(currentBatch)`
pub finish : Planner → List (List ArchivedKey)
finish p = if ltb 0 (length p.current_batch) then p.batches ++ p.current_batch ∷ [] else p.batches

abbrev pub start : Planner
start = record { batches = []; current_batch = []; current_size = 0; seen = 0 }

unfoldable pub batch_keys : Config → (ℕ → Simulation) → List ArchivedKey → List (List ArchivedKey)
unfolding plan_key plan_keys finish
batch_keys c simulate keys = finish (plan_keys c simulate start keys)

-- `key.contractId ?? '__unknown__'`
abbrev pub contract_of : ArchivedKey → String
contract_of k = or_else k.contract_id "__unknown__"

-- the body of the loop over the keys, on the `Map`
pub add_to_group : List (String × List ArchivedKey) → ArchivedKey → List (String × List ArchivedKey)
add_to_group m key = elim (Dict.get (contract_of key) m) [
  | none ↦ Dict.put (contract_of key) (key ∷ []) m
  | some existing ↦ Dict.put (contract_of key) (existing ++ key ∷ []) m
]

pub add_all : List (String × List ArchivedKey) → List ArchivedKey → List (String × List ArchivedKey)
add_all m [] = m
add_all m (key ∷ keys) = add_all (add_to_group m key) keys

-- the groups as pairs of the contract's id and its keys
unfoldable pub group_keys_by_contract : List ArchivedKey → List (String × List ArchivedKey)
unfolding add_all add_to_group
group_keys_by_contract keys = add_all [] keys

-- `simulate g` answers for the group with `g` groups before it.
pub batch_groups :
    Config → (ℕ → ℕ → Simulation) → ℕ → List (String × List ArchivedKey) → List (List ArchivedKey)
unfolding batch_keys
batch_groups c simulate g [] = []
batch_groups c simulate g ((id, keys) ∷ groups) =
    batch_keys c (simulate g) keys ++ batch_groups c simulate (g + 1) groups

unfoldable pub batch_key_groups :
    Config → (ℕ → ℕ → Simulation) → List (String × List ArchivedKey) → List (List ArchivedKey)
unfolding batch_groups
batch_key_groups c simulate groups = batch_groups c simulate 0 groups
