-- ===== src/AuthEntries.antt =====
-- packages/sdk/src/auth-entry-restoration.ts: the ledger keys of authorization entries, and the entries that depend on
-- archived ones. A ledger key is its base64 encoding. What the XDR library makes of an invocation is its tree, with
-- the key of the contract instance for a contract call; what it makes of the credentials is an argument too.
mod Restored
mod Tests
use automated_cross_contract.Prelude.{
  ℕ, zero, ◌+◌, Bool, true, false, not, ◌&&◌, Option, none, some, List, [], ◌∷◌, ◌++◌, String,
  if◌then◌else◌, ◌==◌, string_Eq, filter_b, ltb, length, ◌+s◌, decimal,
}
use automated_cross_contract.Prelude.Members.{is_in}

mutual
  pub data Invocation : Type 0 where
    invocation : Option String → Invocations → Invocation

  pub data Invocations : Type 0 where
    no_more : Invocations
    and_then : Invocation → Invocations → Invocations

mutual
  -- `walk`, in the order of the pushes
  pub walk : Invocation → List String
  walk (invocation none subs) = walk_all subs
  walk (invocation (some key) subs) = key ∷ walk_all subs

  pub walk_all : Invocations → List String
  walk_all no_more = []
  walk_all (and_then i subs) = walk i ++ walk_all subs

-- an entry: its name, its root invocation, and its signer key if one can be read from its credentials
pub record AuthEntry : Type 0 where
  pub name : String
  pub root_invocation : Invocation
  pub signer_key : Option String

pub record AuthEntryScanResult : Type 0 where
  pub valid : List (AuthEntry × List String)
  pub expired : List (AuthEntry × List String)

unfoldable pub extract_auth_entry_keys : AuthEntry → List String
unfolding walk
extract_auth_entry_keys entry = walk entry.root_invocation

abbrev pub is_nil {ℓ} : {A : Type ℓ} → List A → Bool
is_nil [] = true
is_nil (x ∷ xs) = false

-- the keys of an entry that are archived
abbrev pub expired_keys : List String → AuthEntry → List String
expired_keys archived entry = filter_b (λ key. is_in key archived) (extract_auth_entry_keys entry)

pub detect_expired_auth_entries : List AuthEntry → List String → AuthEntryScanResult
unfolding extract_auth_entry_keys
detect_expired_auth_entries [] archived = record { valid = []; expired = [] }
detect_expired_auth_entries (entry ∷ entries) archived =
    let rest = detect_expired_auth_entries entries archived in
    if is_nil (expired_keys archived entry)
    then record rest { valid = (entry, extract_auth_entry_keys entry) ∷ rest.valid }
    else record rest { expired = (entry, expired_keys archived entry) ∷ rest.expired }

-- the inner loop of `keysToRestoreForAuthEntries`; `keys` are also the keys seen
pub add_unseen : List String → List String → List String
add_unseen keys [] = keys
add_unseen keys (key ∷ more) =
    let seen = add_unseen keys more in
    let unseen = add_unseen (keys ++ key ∷ []) more in if is_in key keys then seen else unseen

pub add_entries : List String → List (AuthEntry × List String) → List String
unfolding add_unseen
add_entries keys [] = keys
add_entries keys ((entry, expired) ∷ more) = add_entries (add_unseen keys expired) more

unfoldable pub keys_to_restore_for_auth_entries : AuthEntryScanResult → List String
unfolding add_entries
keys_to_restore_for_auth_entries scan = add_entries [] scan.expired
