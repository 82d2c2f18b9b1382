-- ===== src/Restoration.antt =====
-- packages/sdk/src/soroban-resurrect.ts: `executeRestoreThenOriginal`, `executeRestoreThenOriginalBatches` and
-- `executeRestoreThenOriginalBatchesConcurrent`, which restore first and then submit the original
-- transaction. What the XDR library reads from a transaction is a parameter. `original_sent` is the
-- transaction that was handed to the wallet as the original one, if that point was reached.
mod Order
mod Lost
mod Tests
use automated_cross_contract.Prelude.{
  ℕ, zero, suc, ◌+◌, Bool, true, false, not, ◌&&◌, Option, none, some, List, String, if◌then◌else◌,
  ◌==◌, string_Eq, or_else, ◌+s◌, decimal,
}
use automated_cross_contract.Submission.{
  Answer, resolved, rejected, Failure, soroban, foreign, restore_failed, original_tx_failed,
  message,
}
use automated_cross_contract.Execution.{
  RestoreBatchResult, FailedRestoreState, RestoreAllBatchesResult, Network, Calls, Run, returned,
  thrown, execute_restore_batches,
}
use automated_cross_contract.Concurrent.{
  ConcurrentRestoreResult, execute_restore_batches_concurrent,
}

-- an `ExecutionResult` with the fields that the flows fill
pub record RestorationResult : Type 0 where
  pub success : Bool
  pub restore_tx_hash : Option String
  pub original_tx_hash : Option String
  pub entries_restored : ℕ
  pub simulate_only : Bool
  pub batch_results : Option RestoreAllBatchesResult
  pub concurrent_batch_results : Option ConcurrentRestoreResult
  pub failed_batch_index : Option ℕ
  pub partial_entries_restored : Option ℕ

pub record Flow : Type 0 where
  pub result : Answer RestorationResult
  pub original_sent : Option String
  pub last_failed : Option FailedRestoreState
  pub calls : Calls

-- What the XDR library makes of the transactions: the number of keys in the footprint of the restore
-- transaction (`none` where it cannot be parsed), and the original transaction wrapped again, if it is a
-- fee bump (`some none` where that fails).
pub record Transactions : Type 0 where
  pub footprint_size : String → Option ℕ
  pub rewrapped : String → Option (Option String)

-- `batchResults.error || …`
abbrev pub error_text : Option String → String → String
error_text none text = text
error_text (some e) text = if e == "" then text else e

abbrev pub submitted : Calls → Calls
submitted calls = record calls { submissions = calls.submissions + 1 }

module _ (net : Network) (rpc_url : String) where
  abbrev pub nothing_restored : ℕ → RestorationResult
  nothing_restored n = record {
    success = true;
    restore_tx_hash = none;
    original_tx_hash = none;
    entries_restored = n;
    simulate_only = false;
    batch_results = none;
    concurrent_batch_results = none;
    failed_batch_index = none;
    partial_entries_restored = none;
  }

  -- the original transaction, wrapped again if it is a fee bump and that works
  abbrev pub to_submit : Transactions → String → String
  to_submit txs original = or_else (or_else (txs.rewrapped original) none) original

  -- `last` is `_lastFailedRestoreState`
  unfoldable pub execute_restore_then_original :
      Transactions → Bool → String → String → Option FailedRestoreState → Calls → Flow
  execute_restore_then_original txs simulate_only restore original last calls =
      let keys : ℕ = or_else (txs.footprint_size restore) 0 in
      let original_flow : String → Flow = λ restore_hash.
        elim (net.submit (calls.submissions + 1) (to_submit txs original)) [
          | rejected e ↦ record {
            result = rejected (
                soroban original_tx_failed
                  ("Original transaction failed after successful restore (rpcUrl="
                    +s rpc_url
                    +s ", restoreTxHash="
                    +s restore_hash
                    +s "): "
                    +s message e)
                  (some restore_hash));
            original_sent = some (to_submit txs original);
            last_failed = last;
            calls = submitted (submitted calls);
          }
          | resolved original_hash ↦ record {
            result = resolved (record (nothing_restored keys) {
              restore_tx_hash = some restore_hash;
              original_tx_hash = some original_hash;
            });
            original_sent = some (to_submit txs original);
            last_failed = last;
            calls = submitted (submitted calls);
          }
        ] in
      let restore_flow : Flow = elim (net.submit calls.submissions restore) [
        | rejected e ↦ record {
          result = rejected (
              soroban restore_failed
                ("Restore transaction failed (rpcUrl=" +s rpc_url +s "): " +s message e) none);
          original_sent = none;
          last_failed = last;
          calls = submitted calls;
        }
        | resolved restore_hash ↦ original_flow restore_hash
      ] in
      if simulate_only
      then record {
        result = resolved (record (nothing_restored keys) { simulate_only = true });
        original_sent = none;
        last_failed = last;
        calls = calls;
      }
      else restore_flow

-- `batchResults.ambiguous`, which is falsy when it is missing
abbrev pub is_ambiguous : RestoreAllBatchesResult → Bool
is_ambiguous r = or_else r.ambiguous false

-- the error thrown before the original transaction, if any
unfoldable pub before_original : Bool → RestoreAllBatchesResult → Option Failure
before_original require_all r =
    if r.success
    then none
    else if is_ambiguous r
    then some (
        soroban restore_failed
          ("Restore batch "
            +s decimal (or_else r.failed_at_batch_index 0 + 1)
            +s " has an unconfirmed outcome; original transaction was not submitted. Fix: confirm the batch transaction on-chain, then call getFailedKeys() and retryFailedRestore() before resubmitting the original.")
          none)
    else if require_all
    then some (
        soroban restore_failed
          (error_text r.error
            ("Batch " +s decimal (or_else r.failed_at_batch_index 0) +s " failed"))
          none)
    else none

-- the error of a run that throws
unfoldable pub restore_error : Failure → Failure
restore_error (soroban restore_failed text tx_hash) = soroban restore_failed text tx_hash
restore_error e = soroban restore_failed ("Restore batches failed: " +s message e) none

abbrev pub flow_result : RestoreAllBatchesResult → String → RestorationResult
flow_result r original_hash = record {
  success = r.success;
  restore_tx_hash = none;
  original_tx_hash = some original_hash;
  entries_restored = r.total_keys_restored;
  simulate_only = false;
  batch_results = some r;
  concurrent_batch_results = none;
  failed_batch_index = r.failed_at_batch_index;
  partial_entries_restored = elim r.failed_at_batch_index [
    | none ↦ none
    | some i ↦ some r.total_keys_restored
  ];
}

-- the submission of the original transaction behind the batches
unfoldable pub original_after : Answer String → RestoreAllBatchesResult → Answer RestorationResult
original_after (resolved original_hash) r = resolved (flow_result r original_hash)
original_after (rejected e) r =
    rejected (soroban original_tx_failed ("Original transaction failed: " +s message e) none)

unfoldable pub execute_restore_then_original_batches :
    Network → Bool → List RestoreBatchResult → String → Option FailedRestoreState → Calls → Flow
execute_restore_then_original_batches net require_all batches original last calls =
    elim (execute_restore_batches net none calls batches) [
      | thrown e after ↦ record {
        result = rejected (restore_error e);
        original_sent = none;
        last_failed = last;
        calls = after;
      }
      | returned r state after ↦ elim (before_original require_all r) [
        | some e ↦ record {
          result = rejected e;
          original_sent = none;
          last_failed = state;
          calls = after;
        }
        | none ↦ record {
          result = original_after (net.submit after.submissions original) r;
          original_sent = some original;
          last_failed = state;
          calls = submitted after;
        }
      ]
    ]

pub record ConcurrentFlow : Type 0 where
  pub result : Answer RestorationResult
  pub original_sent : Option String

abbrev pub concurrent_flow_result : ConcurrentRestoreResult → String → RestorationResult
concurrent_flow_result r original_hash = record {
  success = true;
  restore_tx_hash = none;
  original_tx_hash = some original_hash;
  entries_restored = r.total_keys_restored;
  simulate_only = false;
  batch_results = none;
  concurrent_batch_results = some r;
  failed_batch_index = none;
  partial_entries_restored = none;
}

-- The batches are those that `buildRestoreTransactionBatchesConcurrent` built, and `answer` is the outcome
-- of the original transaction, which is submitted when all batches are answered.
unfoldable pub execute_restore_then_original_batches_concurrent :
    ℕ
    → Bool
    → List RestoreBatchResult
    → String
    → List (ℕ × Answer String)
    → Answer String
    → ConcurrentFlow
execute_restore_then_original_batches_concurrent concurrency require_all batches original events
      answer =
    let r = execute_restore_batches_concurrent concurrency batches events in
    if not r.success && require_all
    then record {
      result =
          rejected
            (soroban restore_failed (or_else r.error "One or more restore batches failed") none);
      original_sent = none;
    }
    else record {
      result = elim answer [
        | resolved original_hash ↦ resolved (concurrent_flow_result r original_hash)
        | rejected e ↦ rejected (
            soroban original_tx_failed ("Original transaction failed after restore: " +s message e)
              none)
      ];
      original_sent = some original;
    }
