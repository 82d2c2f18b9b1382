-- ===== src/Submission/Tests.antt =====
-- Runs of a submission, and the theorems in concrete surroundings.
use automated_cross_contract.Prelude.{ℕ, zero, suc, ◌≡◌, refl, true, false, some, none, String}
use automated_cross_contract.Submission.{
  soroban, foreign, original_tx_failed, is_ambiguous_submission_error, is_stale_sequence_error,
  Answer, resolved, rejected, network_error, wait_by_polling, accepted, TxStatus, success,
  not_found, dropped, Surroundings, send_signed_transaction,
}
use automated_cross_contract.Submission.Outcome.{
  Seen, send_signed_transaction-Seen, wait_by_polling_timeout,
}

program : Unit {0}
unfolding send_signed_transaction is_ambiguous_submission_error is_stale_sequence_error
program = tt

-- the WebSocket drops, and the second poll finds the transaction
abbrev second_poll : ℕ → Answer TxStatus
second_poll zero = resolved not_found
second_poll (suc n) = resolved success

abbrev lucky : Surroundings
lucky = record {
  sign = λ x. resolved x;
  hash = λ x. resolved "h1";
  send = λ x. resolved (accepted "h1");
  look_up = λ h. resolved not_found;
  ws_wait = λ h. dropped (foreign "socket closed");
  get_transaction = λ h. second_poll;
  max_poll_attempts = 2;
  waited_ms = "2000";
  rpc_url = "https://a";
}

included : send_signed_transaction lucky "tx" ≡ resolved "h1"
unfolding program
included = refl

-- only a whole word counts
stale_word : is_stale_sequence_error (soroban original_tx_failed "result=txBadSeq)" none) ≡ true
unfolding program
stale_word = refl

stale_prefix :
    is_stale_sequence_error (soroban original_tx_failed "result=txBadSeqNum)" none) ≡ false
unfolding program
stale_prefix = refl

send_signed_transaction-Seen_example : Seen lucky "tx" "h1"
send_signed_transaction-Seen_example = send_signed_transaction-Seen lucky "tx" "h1" included

abbrev silent : Surroundings
silent = record lucky { get_transaction = λ h n. resolved not_found }

wait_by_polling_timeout_example :
    (text : String) × (wait_by_polling silent "h1"
      ≡ rejected (soroban network_error text (some "h1")))
    × (is_ambiguous_submission_error (soroban network_error text (some "h1")) ≡ true)
wait_by_polling_timeout_example = wait_by_polling_timeout silent "h1" (λ n small. refl)
