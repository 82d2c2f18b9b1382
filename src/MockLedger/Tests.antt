-- ===== src/MockLedger/Tests.antt =====
-- A simulated ledger.
use automated_cross_contract.Prelude.{
  ℕ, ◌≡◌, refl, none, some, [], ◌∷◌, String, filter_b, length, ◌==◌, string_Eq,
}
use automated_cross_contract.MockLedger.{
  SimulatedLedgerEntry, MockLedgerState, create, get_live_entries, archive_all, SequenceManager,
  get_sequence, draw,
}
use automated_cross_contract.MockLedger.Sequences.{answers_for, consecutive, answers_for-draw}

abbrev entry : String → ℕ → SimulatedLedgerEntry
entry key ttl = record {
  key = key;
  key_base64 = "";
  entry_data = "data";
  last_live_ledger_seq = 10;
  ttl = ttl;
}

ledger : MockLedgerState
unfolding create
ledger = create none (entry "a" 5 ∷ entry "b" 0 ∷ []) 16

one_live : length (get_live_entries ("a" ∷ "b" ∷ "c" ∷ []) ledger) ≡ 1
unfolding get_live_entries ledger
one_live = refl

-- archiving an entry that expired long ago moves the ledger back
goes_back :
    (archive_all
      (some (entry "a" 5 ∷ []))
      (record ledger { current_ledger_seq = 5000000 })).current_ledger_seq
    ≡ 16
unfolding archive_all ledger
goes_back = refl

abbrev manager : SequenceManager
manager = record { sequences = ("x", 5) ∷ []; default_start = 1 }

answers_for-draw_example :
    answers_for "x" (draw ("x" ∷ "y" ∷ "x" ∷ []) manager)
    ≡ consecutive
        (get_sequence "x" manager)
        (length (filter_b (λ (a : String). "x" == a) ("x" ∷ "y" ∷ "x" ∷ [])))
answers_for-draw_example = answers_for-draw "x" ("x" ∷ "y" ∷ "x" ∷ []) manager
