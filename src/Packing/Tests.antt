-- ===== src/Packing/Tests.antt =====
-- Runs of the grouping and packing, and the theorems at concrete keys.
use automated_cross_contract.Prelude.{
  ℕ, ◌≡◌, refl, get_elem?, Option, none, some, List, [], ◌∷◌, map, String, length, concat, All,
  arith, string_Eq, nat_Eq,
}
use automated_cross_contract.Packing.{ArchivedKey, group_keys_by_priority, create_batches}
use automated_cross_contract.Packing.Sizes.{IsSized, sorted_keys, create_batches-IsSized}
use automated_cross_contract.Packing.Together.{Inside, create_batches-Inside}

program : Unit {0}
unfolding create_batches group_keys_by_priority
program = tt

abbrev key : String → Option String → Option String → ℕ → ArchivedKey
key id contract extends n = record {
  id = id;
  contract_id = contract;
  extends_key_id = extends;
  restore_priority = n;
}

-- the entry `t` extends the key `a2` of the contract `A`
abbrev keys : List ArchivedKey
keys =
    key "a1" (some "A") none 2
    ∷ key "b1" (some "B") none 0
    ∷ key "t" none (some "a2") 3
    ∷ key "a2" (some "A") none 1
    ∷ []

abbrev of_a : List ArchivedKey
of_a = key "a2" (some "A") none 1 ∷ key "a1" (some "A") none 2 ∷ key "t" none (some "a2") 3 ∷ []

packed :
    map (map (λ k. k.id)) (create_batches (some 3) keys)
    ≡ ("b1" ∷ []) ∷ ("a2" ∷ "a1" ∷ "t" ∷ []) ∷ []
unfolding program
packed = refl

split : map length (create_batches (some 2) keys) ≡ 1 ∷ 2 ∷ 1 ∷ []
unfolding program
split = refl

second : get_elem? (sorted_keys keys) 1 ≡ some of_a
unfolding program
second = refl

create_batches-IsSized_example :
    (concat (create_batches (some 2) keys) ≡ concat (sorted_keys keys))
    × All (IsSized 2) (create_batches (some 2) keys)
create_batches-IsSized_example = create_batches-IsSized (some 2) keys

create_batches-Inside_example : Inside (create_batches (some 3) keys) of_a
create_batches-Inside_example =
    create_batches-Inside (some 3) keys of_a 1 second (omega arith) (omega arith)
