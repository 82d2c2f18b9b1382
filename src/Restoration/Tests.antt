-- ===== src/Restoration/Tests.antt =====
-- Restore-then-original flows at concrete networks.
use automated_cross_contract.Prelude.{
  ℕ, ◌+◌, ◌≤◌, ◌≡◌, refl, true, false, Option, none, some, List, [], ◌∷◌, String, nat_eq, get_elem?,
  if◌then◌else◌,
}
use automated_cross_contract.Submission.{
  Answer, resolved, rejected, Failure, soroban, submission_ambiguous,
}
use automated_cross_contract.Execution.{
  RestoreBatchResult, pending, FailedRestoreState, RestoreAllBatchesResult, built, Network, Calls,
  returned, execute_restore_batches, succeeded,
}
use automated_cross_contract.Concurrent.{
  acquire, release, settle, begin, execute_restore_batches_concurrent,
}
use automated_cross_contract.Concurrent.Accounts.{IsAmong}
use automated_cross_contract.Execution.Loop.{indexes, Completed}
use automated_cross_contract.Restoration.{
  Transactions, to_submit, before_original, execute_restore_then_original,
  execute_restore_then_original_batches, execute_restore_then_original_batches_concurrent,
}
use automated_cross_contract.Restoration.Order.{
  Explains, execute_restore_then_original_batches-Completed,
  execute_restore_then_original_batches-Explains,
  execute_restore_then_original_batches_concurrent-Confirmed, execute_restore_then_original-Ordered,
}
use automated_cross_contract.Restoration.Lost.{
  execute_restore_then_original_batches-nameless, execute_restore_then_original_batches_proceeds,
}

abbrev batch : ℕ → String → ℕ → RestoreBatchResult
batch i xdr n = record {
  batch_index = i;
  transaction_xdr = xdr;
  keys_restored = n;
  status = pending;
  tx_hash = none;
  error = none;
}

abbrev batches : List RestoreBatchResult
batches = batch 0 "t0" 3 ∷ batch 1 "t1" 4 ∷ []

abbrev calm : Network
calm = record {
  submit = λ n xdr. resolved "hash";
  get_account = λ n. resolved 41;
  rebuild = λ xdr. built (λ sequence. xdr);
}

abbrev lost : Failure
lost = soroban submission_ambiguous "outcome unknown" (some "hash")

-- the submission `bad` is lost
abbrev lossy : ℕ → Network
lossy bad = record calm {
  submit = λ n xdr. if nat_eq n bad then rejected lost else resolved "hash";
}

abbrev fresh : Calls
fresh = record { submissions = 0; accounts = 0 }

abbrev sent : String
sent = "orig"

abbrev txs : Transactions
txs = record { footprint_size = λ xdr. some 3; rewrapped = λ xdr. some (some "wrapped") }

execute_restore_then_original_batches-Completed_example :
    (sent ≡ "orig")
    × (r : RestoreAllBatchesResult) × (after : Calls) × (state : Option FailedRestoreState)
    × (execute_restore_batches calm none fresh batches ≡ returned r state after)
    × Completed calm 7 (indexes batches) r
unfolding execute_restore_then_original_batches execute_restore_batches before_original
execute_restore_then_original_batches-Completed_example =
    execute_restore_then_original_batches-Completed calm sent none fresh batches sent refl

execute_restore_then_original_batches-Explains_example :
    (let flow = execute_restore_then_original_batches (lossy 1) true batches "orig" none fresh in
      Explains (lossy 1) false flow.original_sent flow.result)
execute_restore_then_original_batches-Explains_example =
    execute_restore_then_original_batches-Explains (lossy 1) true batches "orig" none fresh

execute_restore_then_original-Ordered_example :
    (let flow = execute_restore_then_original calm "https://a" txs false "t0" "orig" none fresh in
      Explains calm false flow.original_sent flow.result
      × (flow.calls.submissions ≤ 0 + 2)
      × ((sent : String)
          → flow.original_sent ≡ some sent
          → (sent ≡ to_submit calm "https://a" txs "orig")
            × (false ≡ false)
            × (h : String) × (calm.submit 0 "t0" ≡ resolved h)))
execute_restore_then_original-Ordered_example =
    execute_restore_then_original-Ordered calm "https://a" txs false "t0" "orig" none fresh

concurrent_program : Unit {0}
unfolding execute_restore_then_original_batches_concurrent execute_restore_batches_concurrent
    acquire release settle begin
concurrent_program = tt

abbrev events : List (ℕ × Answer String)
events = (1, resolved "h1") ∷ (0, resolved "h0") ∷ []

execute_restore_then_original_batches-nameless_example :
    (let flow = execute_restore_then_original_batches (lossy 1) true batches "orig" none fresh in
      (flow.calls.accounts ≡ 0)
      × ((f : FailedRestoreState) → flow.last_failed ≡ some f → f.source_account_id ≡ ""))
execute_restore_then_original_batches-nameless_example =
    execute_restore_then_original_batches-nameless (lossy 1) true "orig" fresh none batches

execute_restore_then_original_batches_proceeds_example :
    (execute_restore_then_original_batches (lossy 0) false batches "orig" none fresh).original_sent
    ≡ some "orig"
execute_restore_then_original_batches_proceeds_example =
    execute_restore_then_original_batches_proceeds (lossy 0) (batch 0 "t0" 3) (batch 1 "t1" 4 ∷ [])
      "outcome unknown" "orig" (some "hash") none fresh refl

execute_restore_then_original_batches_concurrent-Confirmed_example :
    (sent ≡ "orig")
    × ((i : ℕ) (b : RestoreBatchResult)
        → get_elem? batches i ≡ some b
        → (h : String) × IsAmong (i, resolved h) events
          × (get_elem? (execute_restore_batches_concurrent 2 batches events).batches i
              ≡ some (some (succeeded b h))))
unfolding concurrent_program
execute_restore_then_original_batches_concurrent-Confirmed_example =
    execute_restore_then_original_batches_concurrent-Confirmed 2 batches "orig" events
      (resolved "ho") sent refl refl
