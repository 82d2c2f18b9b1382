-- ===== src/Submission.antt =====
-- packages/sdk/src/soroban-resurrect.ts, from signing to confirmation (`sendSignedTransaction`,
-- `reconcileAmbiguousSubmission`, `pollForReceipt`, `waitForTransaction`), with the classification of
-- errors of packages/sdk/src/types.ts. The wallet, the RPC server and the XDR library answer through a
-- record of parameters; a `SorobanResurrectError` keeps the fields that the code reads again.
pub mod Outcome
mod Stale
mod Tests
use Prim.Native.Char.{Char, code}
use Prim.Native.String
use text.Mathlib.Text.{starts_with}
use automated_cross_contract.Prelude.{
  ℕ, zero, suc, ◌+◌, Bool, true, false, not, ◌&&◌, ◌||◌, Option, none, some, String, if◌then◌else◌,
  leb, nat_eq, ◌==◌, string_Eq, ◌+s◌,
}

pub data ErrorCode : Type 0 where
  simulation_failed restore_failed original_tx_failed no_account invalid_xdr : ErrorCode
  archive_detection_failed network_error submission_ambiguous : ErrorCode

-- what a promise may be rejected with
pub data Failure : Type 0 where
  soroban : ErrorCode → String → Option String → Failure
  foreign : String → Failure

abbrev pub message : Failure → String
message (soroban c text tx_hash) = text
message (foreign text) = text

-- `isAmbiguousSubmissionError`
unfoldable pub is_ambiguous_submission_error : Failure → Bool
is_ambiguous_submission_error (soroban network_error text (some tx_hash)) = true
is_ambiguous_submission_error _ = false

-- `\w` of a regular expression
abbrev pub is_word : Char → Bool
is_word c =
    let n = code c in
    (leb b'a' n && leb n b'z')
    || (leb b'A' n && leb n b'Z')
    || (leb b'0' n && leb n b'9')
    || nat_eq n b'_'

-- `\b` behind a word
abbrev pub at_boundary : String → Bool
at_boundary String.[] = true
at_boundary (String.◌∷◌ c s) = not (is_word c)

-- `word` stands at the front, and behind it a word ends
pub begins_with : String → String → Bool
begins_with String.[] s = at_boundary s
begins_with (String.◌∷◌ w ws) String.[] = false
begins_with (String.◌∷◌ w ws) (String.◌∷◌ c s) =
    if nat_eq (code w) (code c) then begins_with ws s else false

-- `/result=(txBadSeq|txTooLate)\b/.test(s)`
pub has_stale_result : String → Bool
has_stale_result String.[] = false
has_stale_result (String.◌∷◌ c s) =
    let here = String.◌∷◌ c s in
    begins_with "result=txBadSeq" here || begins_with "result=txTooLate" here || has_stale_result s

-- `isStaleSequenceError`
unfoldable pub is_stale_sequence_error : Failure → Bool
unfolding has_stale_result begins_with
is_stale_sequence_error (soroban original_tx_failed text tx_hash) = has_stale_result text
is_stale_sequence_error _ = false

pub data Answer {ℓ} (A : Type ℓ) : Type ℓ where
  resolved : A → Answer A
  rejected : Failure → Answer A

infixl 5 ◌>>=◌
abbrev pub ◌>>=◌ {ℓ κ} : {A : Type ℓ} {B : Type κ} → Answer A → (A → Answer B) → Answer B
resolved a >>= f = f a
rejected e >>= f = rejected e

-- `sendTransaction`: accepted with a hash (`PENDING` and `DUPLICATE`), refused with the decoded result
-- code (`ERROR`), or another status
pub data SendStatus : Type 0 where
  accepted : String → SendStatus
  error : String → SendStatus
  unexpected : String → SendStatus

-- The three statuses of `getTransaction`; `failed` has the JSON text of the receipt's result.
pub data TxStatus : Type 0 where
  success not_found : TxStatus
  failed : String → TxStatus

-- `waitForTransaction` over the WebSocket: not used or not available, confirmed, or failed
pub data WsWait : Type 0 where
  unavailable confirmed : WsWait
  dropped : Failure → WsWait

pub data Transport : Type 0 where
  websocket polling : Transport

-- What the surroundings of one submission answer. `hash` is the hash of the signed transaction, computed
-- locally; `ws_wait h` is the end of the wait for the hash `h` over the WebSocket, and `get_transaction h n` the
-- answer to the `n`-th poll for it.
pub record Surroundings : Type 0 where
  pub sign : String → Answer String
  pub hash : String → Answer String
  pub send : String → Answer SendStatus
  pub look_up : String → Answer TxStatus
  pub ws_wait : String → WsWait
  pub get_transaction : String → ℕ → Answer TxStatus
  pub max_poll_attempts : ℕ
  pub waited_ms : String  -- `maxAttempts * intervalMs` in decimal
  pub rpc_url : String

abbrev pub unknown_outcome : String → String → String
unknown_outcome rpc_url tx_hash =
    "Submission outcome unknown for " +s tx_hash
    +s "; it may still be included. Check status by hash before retrying (rpcUrl=" +s rpc_url +s ")"

module _ (s : Surroundings) where
  pub reconcile_ambiguous_submission : String → Answer String
  reconcile_ambiguous_submission tx_hash =
      let unknown : Answer String =
        rejected
          (soroban submission_ambiguous (unknown_outcome s.rpc_url tx_hash) (some tx_hash)) in
      elim (s.look_up tx_hash) [
        | resolved success ↦ resolved tx_hash
        | resolved (failed json) ↦ rejected (
            soroban original_tx_failed
              ("Transaction failed (txHash=" +s tx_hash +s ", rpcUrl=" +s s.rpc_url +s ")")
              (some tx_hash))
        | resolved not_found ↦ unknown
        | rejected lookup_error ↦ unknown
      ]

  -- the loop, with `left` attempts to go and `attempt` behind it
  pub poll_for_receipt : ℕ → ℕ → String → Answer String
  poll_for_receipt zero attempt tx_hash = rejected (
      soroban network_error
        ("Transaction " +s tx_hash +s " not confirmed after " +s s.waited_ms +s "ms (rpcUrl="
          +s s.rpc_url +s ")")
        (some tx_hash))
  poll_for_receipt (suc left) attempt tx_hash = elim (s.get_transaction tx_hash attempt) [
    | resolved success ↦ resolved tx_hash
    | resolved (failed json) ↦ rejected (
        soroban original_tx_failed
          ("Transaction failed (txHash=" +s tx_hash +s ", rpcUrl=" +s s.rpc_url +s "): " +s json)
          (some tx_hash))
    | resolved not_found ↦ poll_for_receipt left (attempt + 1) tx_hash
    | rejected e ↦ rejected e
  ]

  pub wait_by_polling : String → Answer (String × Transport)
  unfolding poll_for_receipt
  wait_by_polling tx_hash =
      poll_for_receipt s.max_poll_attempts 0 tx_hash >>= λ h. resolved (tx_hash, polling)

  pub wait_for_transaction : String → Answer (String × Transport)
  unfolding wait_by_polling
  wait_for_transaction tx_hash = elim (s.ws_wait tx_hash) [
    | unavailable ↦ wait_by_polling tx_hash
    | confirmed ↦ resolved (tx_hash, websocket)
    | dropped (foreign text) ↦ wait_by_polling tx_hash
    | dropped (soroban c text h) ↦ rejected (soroban c text h)
  ]

  -- what follows an answer of `sendTransaction`
  pub after_send : SendStatus → Answer String
  unfolding wait_for_transaction
  after_send (accepted tx_hash) = wait_for_transaction tx_hash >>= λ w. resolved w.0
  after_send (error result) = rejected (
      soroban original_tx_failed
        ("Transaction submission error (rpcUrl=" +s s.rpc_url +s ", result=" +s result +s ")") none)
  after_send (unexpected status) = rejected (
      soroban network_error
        ("Unexpected submission status: " +s status +s " (rpcUrl=" +s s.rpc_url +s ")") none)

  unfoldable pub send_signed_transaction : String → Answer String
  unfolding reconcile_ambiguous_submission after_send
  send_signed_transaction tx_xdr = do
    signed_xdr ← s.sign tx_xdr
    tx_hash ← s.hash signed_xdr
    elim (s.send signed_xdr) [
      | resolved status ↦ after_send status
      | rejected e ↦ reconcile_ambiguous_submission tx_hash
    ]
