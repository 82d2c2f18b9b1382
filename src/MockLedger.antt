-- ===== src/MockLedger.antt =====
-- packages/mock-rpc/src/ledger-state.ts (`MockLedgerState`) and packages/mock-rpc/src/sequence-manager.ts
-- (`SequenceManager`). A ledger key is its base64 encoding; sequence numbers are natural numbers.
mod Archived
mod Sequences
mod Tests
use automated_cross_contract.Prelude.{
  ℕ, ◌+◌, Bool, true, false, not, Option, none, some, List, [], ◌∷◌, map, String, if◌then◌else◌,
  ltb, nat_eq, ◌==◌, string_Eq, or_else, filter_b, length, decimal,
}
use automated_cross_contract.Prelude.Dict

pub record SimulatedLedgerEntry : Type 0 where
  pub key : String
  pub key_base64 : String
  pub entry_data : String
  pub last_live_ledger_seq : ℕ
  pub ttl : ℕ

pub record MockLedgerState : Type 0 where
  pub entries : List (String × SimulatedLedgerEntry)
  pub current_ledger_seq : ℕ
  pub default_ttl : ℕ

abbrev pub default_ttl : ℕ
default_ttl = 4095360

-- `entry.keyBase64 || this.encodeKey(entry.key)`
abbrev pub key_of : SimulatedLedgerEntry → String
key_of entry = if entry.key_base64 == "" then entry.key else entry.key_base64

unfoldable pub add_entry : SimulatedLedgerEntry → MockLedgerState → MockLedgerState
add_entry entry s = record s {
  entries = Dict.put (key_of entry) (record entry { key_base64 = key_of entry }) s.entries;
}

pub add_all : List SimulatedLedgerEntry → MockLedgerState → MockLedgerState
unfolding add_entry
add_all [] s = s
add_all (e ∷ es) s = add_all es (add_entry e s)

-- the constructor
unfoldable pub create : Option ℕ → List SimulatedLedgerEntry → ℕ → MockLedgerState
unfolding add_all
create ttl entries current =
    add_all entries
      (record { entries = []; current_ledger_seq = current; default_ttl = or_else ttl default_ttl })

unfoldable pub remove_entry : String → MockLedgerState → Bool × MockLedgerState
remove_entry key s = (Dict.has key s.entries, record s { entries = Dict.remove key s.entries })

abbrev pub get_entry : String → MockLedgerState → Option SimulatedLedgerEntry
get_entry key s = Dict.get key s.entries

-- `entry.ttl || this.defaultTtl`
abbrev pub get_expiry_ledger : MockLedgerState → SimulatedLedgerEntry → ℕ
get_expiry_ledger s entry =
    entry.last_live_ledger_seq + (if nat_eq entry.ttl 0 then s.default_ttl else entry.ttl)

unfoldable pub is_archived : MockLedgerState → SimulatedLedgerEntry → Bool
is_archived s entry = ltb (get_expiry_ledger s entry) s.current_ledger_seq

-- the entries under some keys that pass a test
pub entries_at :
    (SimulatedLedgerEntry → Bool) → List String → MockLedgerState → List SimulatedLedgerEntry
entries_at p [] s = []
entries_at p (key ∷ keys) s =
    let rest = entries_at p keys s in
    elim (Dict.get key s.entries) [
      | none ↦ rest
      | some entry ↦ if p entry then entry ∷ rest else rest
    ]

unfoldable pub get_live_entries : List String → MockLedgerState → List SimulatedLedgerEntry
unfolding entries_at is_archived
get_live_entries keys s = entries_at (λ e. not (is_archived s e)) keys s

abbrev pub get_all_entries : MockLedgerState → List SimulatedLedgerEntry
get_all_entries s = map (λ e. e.1) s.entries

unfoldable pub get_archived_entries :
    Option (List String) → MockLedgerState → List SimulatedLedgerEntry
unfolding entries_at is_archived
get_archived_entries (some keys) s = entries_at (is_archived s) keys s
get_archived_entries none s = filter_b (is_archived s) (get_all_entries s)

abbrev pub get_entry_count : MockLedgerState → ℕ
get_entry_count s = length s.entries

unfoldable pub get_archived_count : MockLedgerState → ℕ
unfolding is_archived
get_archived_count s = length (filter_b (is_archived s) (get_all_entries s))

abbrev pub raised : ℕ → ℕ → ℕ
raised highest expiry = if ltb highest expiry then expiry else highest

-- the loop of `archiveAll`
pub max_expiry : MockLedgerState → List SimulatedLedgerEntry → ℕ → ℕ
max_expiry s [] highest = highest
max_expiry s (e ∷ es) highest = max_expiry s es (raised highest (get_expiry_ledger s e))

abbrev pub targets_of :
    Option (List SimulatedLedgerEntry) → MockLedgerState → List SimulatedLedgerEntry
targets_of entries s = or_else entries (get_all_entries s)

unfoldable pub archive_all : Option (List SimulatedLedgerEntry) → MockLedgerState → MockLedgerState
unfolding max_expiry
archive_all entries s = elim (targets_of entries s) [
  | [] ↦ s
  | e ∷ es ↦ record s { current_ledger_seq = max_expiry s (e ∷ es) 0 + 1 }
]

pub record SequenceManager : Type 0 where
  pub sequences : List (String × ℕ)
  pub default_start : ℕ

abbrev pub set_sequence : String → ℕ → SequenceManager → SequenceManager
set_sequence account seq m = record m { sequences = Dict.put account seq m.sequences }

abbrev pub get_sequence : String → SequenceManager → ℕ
get_sequence account m = or_else (Dict.get account m.sequences) m.default_start

unfoldable pub get_and_increment : String → SequenceManager → String × SequenceManager
get_and_increment account m =
    let current = get_sequence account m in
    (decimal current, record m { sequences = Dict.put account (current + 1) m.sequences })

unfoldable pub increment : String → ℕ → SequenceManager → ℕ × SequenceManager
increment account by m =
    let next = get_sequence account m + by in
    (next, record m { sequences = Dict.put account next m.sequences })

abbrev pub peek : String → SequenceManager → String
peek account m = decimal (get_sequence account m)

abbrev pub reset : String → SequenceManager → SequenceManager
reset account m = record m { sequences = Dict.put account m.default_start m.sequences }

abbrev pub reset_all : SequenceManager → SequenceManager
reset_all m = record m { sequences = [] }

-- the answers to calls of `getAndIncrement`, each with its account
pub draw : List String → SequenceManager → List (String × String)
unfolding get_and_increment
draw [] m = []
draw (account ∷ accounts) m =
    let (answer, next) = get_and_increment account m in (account, answer) ∷ draw accounts next
