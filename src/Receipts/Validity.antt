-- ===== src/Receipts/Validity.antt =====
-- The values that `parseExecutionReceipt`, packages/sdk/src/soroban-resurrect.ts, accepts.
use automated_cross_contract.Prelude.{
  ap, subst, ◌≡◌, refl, true, Option, none, some, List, [], ◌∷◌, String, string_Eq, arith,
  Bool-cases, Option-cases, inl, inr,
}
use automated_cross_contract.Submission.{resolved}
use automated_cross_contract.Execution.{
  BatchStatus, pending, success, failed, RestoreBatchResult, RestoreAllBatchesResult,
  create_execution_receipt,
}
use automated_cross_contract.Receipts.{
  Json, null, boolean, number, other_number, text, array, object, Jsons, nil, cons, Fields, member,
  is_number, is_text, is_status, is_version_one, check_batch, check_batches, check_list,
  check_receipt, parse_execution_receipt, status_text, batch_json, batches_json, receipt_json,
}

status_text-is_status : (s : BatchStatus) → is_status (some (text (status_text s))) ≡ true
status_text-is_status pending = refl
status_text-is_status success = refl
status_text-is_status failed = refl

check_batch-batch_json : (b : RestoreBatchResult) → check_batch (batch_json b) ≡ none
unfolding check_batch
check_batch-batch_json b = rw (status_text-is_status b.status) refl

check_batches-batches_json : (bs : List RestoreBatchResult) → check_batches (batches_json bs) ≡ none
unfolding check_batches
check_batches-batches_json [] = refl
check_batches-batches_json (b ∷ bs) =
    rw (check_batch-batch_json b, check_batches) (check_batches-batches_json bs)

-- The JSON of every receipt that `createExecutionReceipt` makes is accepted, and given back unchanged.
pub parse-create_execution_receipt :
    (result : RestoreAllBatchesResult) (source : String) (planned : List RestoreBatchResult)
    → parse_execution_receipt (some (receipt_json (create_execution_receipt result source planned)))
      ≡ resolved (receipt_json (create_execution_receipt result source planned))
unfolding parse_execution_receipt create_execution_receipt
parse-create_execution_receipt result source planned =
    rw
      (
        check_batches-batches_json (create_execution_receipt result source planned).batches,
        check_list,
      )
      refl

-- a batch as the checks want it
abbrev pub IsBatch : Json → Type 0
IsBatch (object f) =
    (is_number (member "batchIndex" f) ≡ true)
    × (is_text (member "transactionXDR" f) ≡ true)
    × (is_number (member "keysRestored" f) ≡ true)
    × (is_status (member "status" f) ≡ true)
IsBatch _ = ⊥

abbrev pub AllBatches : Jsons → Type 0
AllBatches nil = Unit
AllBatches (cons batch batches) = IsBatch batch × AllBatches batches

-- an object with the version, the account and an array of batches
abbrev pub IsReceipt : Json → Type 0
IsReceipt (object f) =
    (is_version_one (member "version" f) ≡ true)
    × (is_text (member "sourceAccountID" f) ≡ true)
    × (batches : Jsons) × (member "batches" f ≡ some (array batches))
    × AllBatches batches
IsReceipt _ = ⊥

check_batch-IsBatch : (batch : Json) → check_batch batch ≡ none → IsBatch batch
unfolding check_batch
check_batch-IsBatch (object f) h = (ground arith, ground arith, ground arith, ground arith)
check_batch-IsBatch null h = cc
check_batch-IsBatch (boolean b) h = cc
check_batch-IsBatch (number n) h = cc
check_batch-IsBatch (other_number n) h = cc
check_batch-IsBatch (text s) h = cc
check_batch-IsBatch (array l) h = cc

check_batches-AllBatches : (batches : Jsons) → check_batches batches ≡ none → AllBatches batches
unfolding check_batches
check_batches-AllBatches nil h = tt
check_batches-AllBatches (cons batch batches) h = elim (Option-cases (check_batch batch)) [
  | inl passes ↦ (
    check_batch-IsBatch batch passes,
    check_batches-AllBatches batches (rw (passes, check_batches) at h),
  )
  | inr (e, fails) ↦ absurd (cc (rw (fails, check_batches) at h))
]

check_list-AllBatches :
    (f : Fields) (o : Option Json) (j : Json)
    → check_list f o ≡ resolved j
    → (object f ≡ j) × (batches : Jsons) × (o ≡ some (array batches)) × AllBatches batches
unfolding check_list
check_list-AllBatches f (some (array batches)) j h = elim (Option-cases (check_batches batches)) [
  | inl pass ↦
      (cc (rw (pass, check_list) at h), batches, refl, check_batches-AllBatches batches pass)
  | inr (e, fails) ↦ absurd (cc (rw (fails, check_list) at h))
]
check_list-AllBatches f none j h = cc
check_list-AllBatches f (some null) j h = cc
check_list-AllBatches f (some (boolean b)) j h = cc
check_list-AllBatches f (some (number n)) j h = cc
check_list-AllBatches f (some (other_number n)) j h = cc
check_list-AllBatches f (some (text s)) j h = cc
check_list-AllBatches f (some (object g)) j h = cc

check_receipt-IsReceipt :
    (f : Fields) (j : Json) → check_receipt f ≡ resolved j → (object f ≡ j) × IsReceipt (object f)
unfolding check_receipt
check_receipt-IsReceipt f j h = elim (Bool-cases (is_version_one (member "version" f))) [
  | inr other ↦ absurd (cc (rw (other, check_receipt) at h))
  | inl one ↦ elim (Bool-cases (is_text (member "sourceAccountID" f))) [
    | inr missing ↦ absurd (cc (rw (one, missing, check_receipt) at h))
    | inl given ↦
        let (same, batches, listed, all) =
          check_list-AllBatches f (member "batches" f) j (rw (one, given, check_receipt) at h) in
        (same, (one, given, batches, listed, all))
  ]
]

-- Whatever is accepted is the value that was parsed, and it is a receipt: version 1, an account, and
-- batches that each have a number, a transaction, a number of keys and a known status.
pub parse_execution_receipt-IsReceipt :
    (parsed : Option Json) (j : Json)
    → parse_execution_receipt parsed ≡ resolved j
    → (parsed ≡ some j) × IsReceipt j
unfolding parse_execution_receipt
parse_execution_receipt-IsReceipt (some (object f)) j h =
    let (same, receipt) = check_receipt-IsReceipt f j h in
    (ap some same, subst IsReceipt same receipt)
parse_execution_receipt-IsReceipt none j h = cc
parse_execution_receipt-IsReceipt (some null) j h = cc
parse_execution_receipt-IsReceipt (some (boolean b)) j h = cc
parse_execution_receipt-IsReceipt (some (number n)) j h = cc
parse_execution_receipt-IsReceipt (some (other_number n)) j h = cc
parse_execution_receipt-IsReceipt (some (text s)) j h = cc
parse_execution_receipt-IsReceipt (some (array l)) j h = cc
