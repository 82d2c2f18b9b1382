-- ===== src/Execution.antt =====
-- packages/sdk/src/soroban-resurrect.ts, the sequential execution of restore batches and its recovery:
-- `executeRestoreBatches`, `rebuildRestoreBatches`, `createExecutionReceipt`, `resumeRestoreBatches` and
-- `retryFailedRestore`. What the network and the XDR library answer is a record of parameters; the answers
-- of `submitSignedTransaction` and `getAccount` may change from call to call, so they take the number of
-- the call.
pub mod Loop
mod Bounds
pub mod Account
mod Recovery
mod Resumption
mod Tests
use automated_cross_contract.Prelude.{
  ℕ, zero, suc, ◌+◌, Bool, true, false, not, ◌&&◌, ◌||◌, Option, none, some, List, [], ◌∷◌, ◌++◌,
  map, String, if◌then◌else◌, ◌==◌, string_Eq, nat_Eq, filter_b, or_else, length, ◌+s◌, decimal,
}
use automated_cross_contract.Prelude.Dict
use automated_cross_contract.Prelude.Order.{sort_by}
use automated_cross_contract.Submission.{
  Answer, resolved, rejected, Failure, message, is_stale_sequence_error,
  is_ambiguous_submission_error,
}

pub data BatchStatus : Type 0 where
  pending success failed : BatchStatus

pub record RestoreBatchResult : Type 0 where
  pub batch_index : ℕ
  pub transaction_xdr : String
  pub keys_restored : ℕ
  pub status : BatchStatus
  pub tx_hash : Option String
  pub error : Option String

pub record FailedRestoreState : Type 0 where
  pub source_account_id : String
  pub failed_batches : List RestoreBatchResult
  pub failed_batch_index : ℕ
  pub partial_entries_restored : ℕ

pub record RestoreAllBatchesResult : Type 0 where
  pub success : Bool
  pub batches : List RestoreBatchResult
  pub total_keys_restored : ℕ
  pub failed_at_batch_index : Option ℕ
  pub error : Option String
  pub ambiguous : Option Bool

-- What the XDR library makes of a batch's transaction: it cannot be parsed; it is parsed, and then
-- cannot be built again, or is built with a sequence number.
pub data Rebuild : Type 0 where
  unparsed unbuilt : Rebuild
  built : (ℕ → String) → Rebuild

pub record Network : Type 0 where
  pub submit : ℕ → String → Answer String
  pub get_account : ℕ → Answer ℕ
  pub rebuild : String → Rebuild

-- the calls made so far
pub record Calls : Type 0 where
  pub submissions : ℕ
  pub accounts : ℕ

abbrev pub renewed : RestoreBatchResult → String → RestoreBatchResult
renewed batch xdr = record batch {
  transaction_xdr = xdr;
  status = pending;
  tx_hash = none;
  error = none;
}

-- the loop of `rebuildRestoreBatches`, from a sequence number on
pub rebuild_from : Network → ℕ → List RestoreBatchResult → List RestoreBatchResult
rebuild_from net sequence [] = []
rebuild_from net sequence (batch ∷ batches) = elim (net.rebuild batch.transaction_xdr) [
  | unparsed ↦ renewed batch batch.transaction_xdr ∷ rebuild_from net sequence batches
  | unbuilt ↦ renewed batch batch.transaction_xdr ∷ rebuild_from net (sequence + 1) batches
  | built xdr ↦ renewed batch (xdr sequence) ∷ rebuild_from net (sequence + 1) batches
]

unfoldable pub rebuild_restore_batches :
    Network → Calls → List RestoreBatchResult → Answer (List RestoreBatchResult)
rebuild_restore_batches net calls batches = elim (net.get_account calls.accounts) [
  | resolved sequence ↦ resolved (rebuild_from net sequence batches)
  | rejected e ↦ rejected e
]

-- the variables of the loop that `executeRestoreBatches` has already filled
pub record Progress : Type 0 where
  pub results : List RestoreBatchResult
  pub total_keys_restored : ℕ
  pub calls : Calls

-- The call returns, leaving `_lastFailedRestoreState` set or cleared, or throws and leaves it.
pub data Run : Type 0 where
  returned : RestoreAllBatchesResult → Option FailedRestoreState → Calls → Run
  thrown : Failure → Calls → Run

abbrev pub succeeded : RestoreBatchResult → String → RestoreBatchResult
succeeded batch tx_hash = record batch { status = success; tx_hash = some tx_hash }

abbrev pub marked_failed : RestoreBatchResult → Failure → RestoreBatchResult
marked_failed batch e = record batch { status = failed; error = some (message e) }

-- `sourceAccountID` is falsy when it is missing or empty
abbrev pub is_given : Option String → Bool
is_given none = false
is_given (some id) = not (id == "")

abbrev pub advance : Progress → RestoreBatchResult → String → Progress
advance p batch tx_hash = record p {
  results = p.results ++ succeeded batch tx_hash ∷ [];
  total_keys_restored = p.total_keys_restored + batch.keys_restored;
  calls = record (p.calls) { submissions = p.calls.submissions + 1 };
}

-- `batch`, with `rest` behind it in the queue, failed for good
abbrev pub stop :
    Option String → Progress → RestoreBatchResult → List RestoreBatchResult → Failure → Run
stop source p batch rest e =
    returned
      (record {
        success = false;
        batches = p.results ++ marked_failed batch e ∷ [];
        total_keys_restored = p.total_keys_restored;
        failed_at_batch_index = some (length p.results);
        error = some ("Batch " +s decimal (length p.results + 1) +s " failed: " +s message e);
        ambiguous = some (is_ambiguous_submission_error e);
      })
      (some (record {
        source_account_id = or_else source "";
        failed_batches = marked_failed batch e ∷ rest;
        failed_batch_index = length p.results;
        partial_entries_restored = p.total_keys_restored;
      }))
      (record (p.calls) { submissions = p.calls.submissions + 1 })

abbrev pub finished : Progress → Run
finished p =
    returned
      (record {
        success = true;
        batches = p.results;
        total_keys_restored = p.total_keys_restored;
        failed_at_batch_index = none;
        error = none;
        ambiguous = none;
      })
      none p.calls

module _ (net : Network) (source : Option String) where
  -- The loop over the rest of the queue. `refreshes` is 1 until the sequence numbers are refreshed, and 0
  -- after it (`sequenceRefreshed`).
  pub execute : ℕ → List RestoreBatchResult → Progress → Run
  execute refreshes [] p = finished p
  execute zero (batch ∷ rest) p = elim (net.submit p.calls.submissions batch.transaction_xdr) [
    | resolved tx_hash ↦ execute zero rest (advance p batch tx_hash)
    | rejected e ↦ stop source p batch rest e
  ]
  execute (suc refreshes) (batch ∷ rest) p =
      elim (net.submit p.calls.submissions batch.transaction_xdr) [
        | resolved tx_hash ↦ execute (suc refreshes) rest (advance p batch tx_hash)
        | rejected e ↦
            let calls : Calls = record {
              submissions = p.calls.submissions + 1;
              accounts = p.calls.accounts + 1;
            } in
            let again : Run = elim (rebuild_restore_batches net p.calls (batch ∷ rest)) [
              | resolved queue ↦ execute refreshes queue (record p { calls = calls })
              | rejected lost ↦ thrown lost calls
            ] in
            if is_given source && is_stale_sequence_error e
            then again
            else stop source p batch rest e
      ]

abbrev pub begin : Calls → Progress
begin calls = record { results = []; total_keys_restored = 0; calls = calls }

unfoldable pub execute_restore_batches :
    Network → Option String → Calls → List RestoreBatchResult → Run
unfolding execute
execute_restore_batches net source calls batches = execute net source 1 batches (begin calls)

-- `new Map(batches.map(batch => [batch.batchIndex, batch]))`
pub index_batches :
    List (ℕ × RestoreBatchResult) → List RestoreBatchResult → List (ℕ × RestoreBatchResult)
index_batches m [] = m
index_batches m (b ∷ bs) = index_batches (Dict.put b.batch_index b m) bs

-- each planned batch, replaced by the executed one of its index if there is one
abbrev pub overlay :
    List (ℕ × RestoreBatchResult) → List RestoreBatchResult → List RestoreBatchResult
overlay executed = map (λ b. or_else (Dict.get b.batch_index executed) b)

pub record RestoreExecutionReceipt : Type 0 where
  pub version : ℕ
  pub source_account_id : String
  pub batches : List RestoreBatchResult

unfoldable pub create_execution_receipt :
    RestoreAllBatchesResult → String → List RestoreBatchResult → RestoreExecutionReceipt
unfolding index_batches
create_execution_receipt result source planned = record {
  version = 1;
  source_account_id = source;
  batches = overlay (index_batches [] result.batches) planned;
}

abbrev pub is_success : BatchStatus → Bool
is_success success = true
is_success _ = false

-- `!batch.txHash`, which an empty hash satisfies too
abbrev pub has_hash : RestoreBatchResult → Bool
has_hash b = elim b.tx_hash [ none ↦ false | some h ↦ not (h == "") ]

abbrev pub is_remaining : RestoreBatchResult → Bool
is_remaining b = not (is_success b.status) && not (has_hash b)

abbrev pub sum_keys : List RestoreBatchResult → ℕ
sum_keys [] = 0
sum_keys (b ∷ bs) = b.keys_restored + sum_keys bs

-- the result of `resumeRestoreBatches` from that of the resumed part
abbrev pub merge_resumed :
    List RestoreBatchResult → RestoreAllBatchesResult → RestoreAllBatchesResult
merge_resumed ordered resumed =
    let merged = overlay (index_batches [] resumed.batches) ordered in
    record {
      success = resumed.success;
      batches = merged;
      total_keys_restored = sum_keys (filter_b (λ b. is_success b.status) merged);
      failed_at_batch_index = resumed.failed_at_batch_index;
      error = resumed.error;
      ambiguous = none;
    }

abbrev pub cleared : RestoreBatchResult → RestoreBatchResult
cleared b = record b { status = pending; tx_hash = none; error = none }

abbrev pub ordered_batches : RestoreExecutionReceipt → List RestoreBatchResult
ordered_batches receipt = sort_by (λ b. b.batch_index) receipt.batches

abbrev pub remaining_batches : RestoreExecutionReceipt → List RestoreBatchResult
remaining_batches receipt = filter_b is_remaining (ordered_batches receipt)

-- `lastFailedRestoreState` before the call is `state`.
unfoldable pub resume_restore_batches :
    Network → RestoreExecutionReceipt → Option FailedRestoreState → Calls → Run
unfolding execute_restore_batches index_batches
resume_restore_batches net receipt state calls = elim (remaining_batches receipt) [
  | [] ↦
      returned
        (record {
          success = true;
          batches = ordered_batches receipt;
          total_keys_restored = sum_keys (ordered_batches receipt);
          failed_at_batch_index = none;
          error = none;
          ambiguous = none;
        })
        state calls
  | b ∷ bs ↦
      elim (execute_restore_batches net (some receipt.source_account_id) calls
        (map cleared (b ∷ bs))) [
          | returned resumed state' calls' ↦
              returned (merge_resumed (ordered_batches receipt) resumed) state' calls'
          | thrown e calls' ↦ thrown e calls'
        ]
]

pub record ExecutionResult : Type 0 where
  pub success : Bool
  pub entries_restored : ℕ
  pub failed_batch_index : Option ℕ
  pub partial_entries_restored : Option ℕ
  pub error : Option String
  pub batch_results : Option RestoreAllBatchesResult

-- what `retryFailedRestore` gives, with `_lastFailedRestoreState` behind it
pub data Retry : Type 0 where
  retried : ExecutionResult → Option FailedRestoreState → Calls → Retry
  retry_thrown : Failure → Calls → Retry

abbrev pub after_retry : ℕ → Run → Retry
after_retry already (thrown e calls) = retry_thrown e calls
after_retry already (returned r state calls) =
    let total = already + r.total_keys_restored in
    if r.success
    then retried
        (record {
          success = true;
          entries_restored = total;
          failed_batch_index = none;
          partial_entries_restored = none;
          error = none;
          batch_results = some r;
        })
        none calls
    else retried
        (record {
          success = false;
          entries_restored = total;
          failed_batch_index = r.failed_at_batch_index;
          partial_entries_restored = some total;
          error = r.error;
          batch_results = some r;
        })
        state calls

-- `last` is `_lastFailedRestoreState` before the call.
unfoldable pub retry_failed_restore :
    Network → FailedRestoreState → Option FailedRestoreState → Calls → Retry
retry_failed_restore net state last calls =
    let fetched : Calls = record calls { accounts = calls.accounts + 1 } in
    elim state.failed_batches [
      | [] ↦
          retried
            (record {
              success = true;
              entries_restored = state.partial_entries_restored;
              failed_batch_index = none;
              partial_entries_restored = none;
              error = none;
              batch_results = none;
            })
            last calls
      | b ∷ bs ↦ elim (rebuild_restore_batches net calls (b ∷ bs)) [
        | rejected e ↦ retry_thrown e fetched
        | resolved rebuilt ↦
            after_retry state.partial_entries_restored
              (execute_restore_batches net (some state.source_account_id) fetched rebuilt)
      ]
    ]
