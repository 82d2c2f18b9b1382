-- ===== src/Execution/Tests.antt =====
-- Runs over restore batches, and the theorems at concrete networks.
use automated_cross_contract.Prelude.{
  ℕ, ◌≡◌, refl, Option, none, some, List, [], ◌∷◌, String, if◌then◌else◌, nat_eq,
}
use automated_cross_contract.Submission.{
  Answer, resolved, rejected, Failure, soroban, original_tx_failed, foreign,
  is_stale_sequence_error, is_ambiguous_submission_error,
}
use automated_cross_contract.Execution.{
  RestoreBatchResult, pending, success, FailedRestoreState, built, Network, Calls, Run, returned,
  thrown, rebuild_from, rebuild_restore_batches, execute, execute_restore_batches,
  create_execution_receipt, resume_restore_batches, RestoreExecutionReceipt, retry_failed_restore,
  ordered_batches,
}
use automated_cross_contract.Execution.Loop.{indexes, Settles, execute_restore_batches-Settles}
use automated_cross_contract.Execution.Recovery.{Retries, retry_failed_restore-Retries}
use automated_cross_contract.Execution.Resumption.{Resumes, resume_restore_batches-Resumes}

program : Unit {0}
unfolding rebuild_from rebuild_restore_batches execute execute_restore_batches
    resume_restore_batches retry_failed_restore create_execution_receipt is_stale_sequence_error
    is_ambiguous_submission_error
program = tt

abbrev batch : ℕ → String → ℕ → RestoreBatchResult
batch i xdr n = record {
  batch_index = i;
  transaction_xdr = xdr;
  keys_restored = n;
  status = pending;
  tx_hash = none;
  error = none;
}

abbrev batches : List RestoreBatchResult
batches = batch 0 "t0" 3 ∷ batch 1 "t1" 4 ∷ batch 2 "t2" 5 ∷ []

abbrev stale : Failure
stale = soroban original_tx_failed "Transaction submission error (result=txBadSeq)" none

-- The second submission meets a stale sequence number, and the fourth one fails.
abbrev answers : ℕ → Answer String
answers n =
    if nat_eq n 1
    then rejected stale
    else if nat_eq n 3
    then rejected (foreign "offline")
    else resolved "hash"

abbrev net : Network
net = record {
  submit = λ n xdr. answers n;
  get_account = λ n. resolved 41;
  rebuild = λ xdr. built (λ sequence. xdr);
}

abbrev fresh : Calls
fresh = record { submissions = 0; accounts = 0 }

abbrev restored : Run → Option ℕ
restored (returned r f calls) = some r.total_keys_restored
restored (thrown e calls) = none

stops_at_the_last : restored (execute_restore_batches net (some "G") fresh batches) ≡ some 7
unfolding program
stops_at_the_last = refl

no_refresh_without_account : restored (execute_restore_batches net none fresh batches) ≡ some 3
unfolding program
no_refresh_without_account = refl

abbrev interrupted : FailedRestoreState
interrupted = record {
  source_account_id = "G";
  failed_batches = batches;
  failed_batch_index = 1;
  partial_entries_restored = 10;
}

abbrev receipt : RestoreExecutionReceipt
receipt = record {
  version = 1;
  source_account_id = "G";
  batches =
      batch 2 "t2" 5 ∷ record (batch 0 "t0" 3) { status = success; tx_hash = some "hash" } ∷ [];
}

resumes_the_rest : restored (resume_restore_batches net receipt none fresh) ≡ some 8
unfolding program
resumes_the_rest = refl

execute_restore_batches-Settles_example :
    Settles net 12 (indexes batches) (execute_restore_batches net (some "G") fresh batches)
execute_restore_batches-Settles_example =
    execute_restore_batches-Settles net (some "G") fresh batches

retry_failed_restore-Retries_example :
    Retries net interrupted
      (some interrupted)
      (retry_failed_restore net interrupted (some interrupted) fresh)
retry_failed_restore-Retries_example =
    retry_failed_restore-Retries net interrupted (some interrupted) fresh

resume_restore_batches-Resumes_example :
    Resumes net (ordered_batches receipt) (resume_restore_batches net receipt none fresh)
resume_restore_batches-Resumes_example = resume_restore_batches-Resumes net receipt none fresh
