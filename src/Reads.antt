-- ===== src/Reads.antt =====
-- packages/sdk/src/ledger-read-coalescer.ts: `LedgerReadCoalescer`. A ledger key is its base64 encoding, and an
-- entry its key and content. A promise of `inFlight` belongs to one key and one RPC call, so the map holds the
-- number of the call; what a call answers, a list of entries or a rejection (`none`), is an argument.
mod Joined
mod Results
mod Tests
use automated_cross_contract.Prelude.{
  ℕ, ◌+◌, Bool, true, false, Option, none, some, List, [], ◌∷◌, ◌++◌, map, String, if◌then◌else◌,
  nat_eq, ◌==◌, string_Eq, length,
}
use automated_cross_contract.Prelude.Dict
use automated_cross_contract.Prelude.Members.{is_in}

pub record LedgerReadCoalescer : Type 0 where
  pub in_flight : List (String × ℕ)
  pub keys_requested : ℕ
  pub keys_coalesced : ℕ
  pub duplicate_keys_skipped : ℕ
  pub rpc_calls : ℕ

abbrev pub idle : LedgerReadCoalescer
idle = record {
  in_flight = [];
  keys_requested = 0;
  keys_coalesced = 0;
  duplicate_keys_skipped = 0;
  rpc_calls = 0;
}

-- the keys without repetition, in the order of the map `unique`, and the number of those skipped
pub collect : List String → List String → ℕ → List String × ℕ
collect [] unique skipped = (unique, skipped)
collect (id ∷ ids) unique skipped =
    let again = collect ids unique (skipped + 1) in
    let first = collect ids (unique ++ id ∷ []) skipped in if is_in id unique then again else first

-- the keys that are in flight, with the call to wait for, and those to fetch
pub partition : List (String × ℕ) → List String → List (String × ℕ) × List String
partition in_flight [] = ([], [])
partition in_flight (id ∷ ids) =
    let (waits, to_fetch) = partition in_flight ids in
    elim (Dict.get id in_flight) [
      | some call ↦ ((id, call) ∷ waits, to_fetch)
      | none ↦ (waits, id ∷ to_fetch)
    ]

pub put_all : ℕ → List String → List (String × ℕ) → List (String × ℕ)
put_all call [] in_flight = in_flight
put_all call (id ∷ ids) in_flight = put_all call ids (Dict.put id call in_flight)

-- a read behind its synchronous part: the state, the promises awaited, the keys given to the fetcher
pub record Read : Type 0 where
  pub coalescer : LedgerReadCoalescer
  pub waits : List (String × ℕ)
  pub fetched : List String

abbrev pub with_call : ℕ → List String → List (String × ℕ)
with_call call = map (λ id. (id, call))

-- `getLedgerEntries` up to its first `await`
unfoldable pub start : List String → LedgerReadCoalescer → Read
unfolding collect partition put_all
start ids c =
    let (unique, skipped) = collect ids [] 0 in
    let (waits, to_fetch) = partition c.in_flight unique in
    let counted = record c {
      duplicate_keys_skipped = c.duplicate_keys_skipped + skipped;
      keys_requested = c.keys_requested + length unique;
      keys_coalesced = c.keys_coalesced + length waits;
    } in
    elim to_fetch [
      | [] ↦ record { coalescer = counted; waits = waits; fetched = [] }
      | id ∷ rest ↦ record {
        coalescer = record counted {
          rpc_calls = c.rpc_calls + 1;
          in_flight = put_all c.rpc_calls (id ∷ rest) c.in_flight;
        };
        waits = waits ++ with_call c.rpc_calls (id ∷ rest);
        fetched = id ∷ rest;
      }
    ]

unfoldable pub release : String → ℕ → LedgerReadCoalescer → LedgerReadCoalescer
release id call c = elim (Dict.get id c.in_flight) [
  | none ↦ c
  | some other ↦
      if nat_eq other call then record c { in_flight = Dict.remove id c.in_flight } else c
]

-- the promises of a call settle
pub settle : ℕ → List String → LedgerReadCoalescer → LedgerReadCoalescer
unfolding release
settle call [] c = c
settle call (id ∷ ids) c = settle call ids (release id call c)

-- `byId`
pub index : List (String × String) → List (String × String) → List (String × String)
index m [] = m
index m ((id, content) ∷ entries) = index (Dict.put id content m) entries

abbrev pub add_some : String → Option String → List (String × String) → List (String × String)
add_some id none entries = entries
add_some id (some content) entries = (id, content) ∷ entries

-- the entries found by `Promise.all` of the waits, unless one of them is rejected
unfoldable pub results :
    (ℕ → Option (List (String × String))) → List (String × ℕ) → Option (List (String × String))
unfolding index
results answers [] = some []
results answers ((id, call) ∷ waits) =
    let rest = results answers waits in
    elim (answers call) [
      | none ↦ none
      | some entries ↦ elim rest [
        | none ↦ none
        | some found ↦ some (add_some id (Dict.get id (index [] entries)) found)
      ]
    ]
