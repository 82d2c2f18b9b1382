-- ===== src/Receipts/Tests.antt =====
-- Receipts that are accepted and refused, and the theorems at them.
use automated_cross_contract.Prelude.{◌≡◌, refl, true, none, some, List, [], ◌∷◌}
use automated_cross_contract.Submission.{resolved, rejected}
use automated_cross_contract.Execution.{
  RestoreBatchResult, pending, success, RestoreAllBatchesResult, RestoreExecutionReceipt,
  create_execution_receipt,
}
use automated_cross_contract.Receipts.{
  object, done, field, number, invalid, parse_execution_receipt, receipt_json,
}
use automated_cross_contract.Receipts.Validity.{
  IsReceipt, parse-create_execution_receipt, parse_execution_receipt-IsReceipt,
}

program : Unit {0}
unfolding parse_execution_receipt create_execution_receipt
program = tt

abbrev batch : RestoreBatchResult
batch = record {
  batch_index = 0;
  transaction_xdr = "t0";
  keys_restored = 3;
  status = success;
  tx_hash = some "h0";
  error = none;
}

abbrev later : RestoreBatchResult
later = record batch { batch_index = 1; status = pending; tx_hash = none }

abbrev result : RestoreAllBatchesResult
result = record {
  success = true;
  batches = batch ∷ [];
  total_keys_restored = 3;
  failed_at_batch_index = none;
  error = none;
  ambiguous = none;
}

abbrev receipt : RestoreExecutionReceipt
receipt = record { version = 1; source_account_id = "G"; batches = batch ∷ later ∷ [] }

abbrev planned : List RestoreBatchResult
planned = record batch { status = pending; tx_hash = none } ∷ later ∷ []

overlays : create_execution_receipt result "G" planned ≡ receipt
unfolding program
overlays = refl

accepted : parse_execution_receipt (some (receipt_json receipt)) ≡ resolved (receipt_json receipt)
unfolding program
accepted = refl

old_version :
    parse_execution_receipt (some (object (field "version" (number 2) done)))
    ≡ rejected (invalid "unsupported version")
unfolding program
old_version = refl

parse-create_execution_receipt_example :
    parse_execution_receipt (some (receipt_json (create_execution_receipt result "G" planned)))
    ≡ resolved (receipt_json (create_execution_receipt result "G" planned))
parse-create_execution_receipt_example = parse-create_execution_receipt result "G" planned

parse_execution_receipt-IsReceipt_example :
    (some (receipt_json receipt) ≡ some (receipt_json receipt)) × IsReceipt (receipt_json receipt)
parse_execution_receipt-IsReceipt_example =
    parse_execution_receipt-IsReceipt (some (receipt_json receipt)) (receipt_json receipt) accepted
