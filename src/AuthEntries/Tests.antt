-- ===== src/AuthEntries/Tests.antt =====
-- Authorization entries.
use automated_cross_contract.Prelude.{◌≡◌, ◌↔◌, refl, true, none, some, [], ◌∷◌, String}
use automated_cross_contract.Prelude.Dict.{Distinct}
use automated_cross_contract.Prelude.Members.{is_in}
use automated_cross_contract.AuthEntries.{
  invocation, no_more, and_then, AuthEntry, detect_expired_auth_entries,
  keys_to_restore_for_auth_entries,
}
use automated_cross_contract.AuthEntries.Restored.{
  Depends, keys_to_restore_for_auth_entries-Distinct,
}

abbrev entry : AuthEntry
entry = record {
  name = "transfer";
  root_invocation = invocation (some "k1") (
      and_then (invocation (some "k2") no_more)
        (and_then (invocation (some "k1") no_more) no_more));
  signer_key = none;
}

restores :
    keys_to_restore_for_auth_entries (detect_expired_auth_entries (entry ∷ []) ("k1" ∷ "k9" ∷ []))
    ≡ "k1" ∷ []
unfolding detect_expired_auth_entries keys_to_restore_for_auth_entries
restores = refl

keys_to_restore_for_auth_entries-Distinct_example :
    (let result =
        keys_to_restore_for_auth_entries (detect_expired_auth_entries (entry ∷ []) ("k1" ∷ [])) in
      Distinct result
      × ((key : String)
          → (is_in key result ≡ true)
            ↔ (Depends key (entry ∷ []) × (is_in key ("k1" ∷ []) ≡ true))))
keys_to_restore_for_auth_entries-Distinct_example =
    keys_to_restore_for_auth_entries-Distinct (entry ∷ []) ("k1" ∷ [])
