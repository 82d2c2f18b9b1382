-- ===== src/Concurrent/Tests.antt =====
-- A run of three batches over two slots, and the theorems at it.
use automated_cross_contract.Prelude.{
  ℕ, ◌≤◌, ◌<◌, ◌≡◌, refl, true, none, some, List, [], ◌∷◌, String, length, get_elem?, arith,
}
use automated_cross_contract.Prelude.Text.{decimal}
use automated_cross_contract.Submission.{Answer, resolved, rejected, foreign}
use automated_cross_contract.Execution.{RestoreBatchResult, pending, is_success}
use automated_cross_contract.Concurrent.{
  begin, acquire, release, settle, limit_of, execute_restore_batches_concurrent,
}
use automated_cross_contract.Concurrent.Accounts.{IsOutcome}
use automated_cross_contract.Concurrent.Report.{
  pool_after, AreAnswers, pool_after_progresses, execute_restore_batches_concurrent-Reports,
}

program : Unit {0}
unfolding execute_restore_batches_concurrent acquire release settle decimal
program = tt

abbrev batch : ℕ → String → ℕ → RestoreBatchResult
batch i xdr n = record {
  batch_index = i;
  transaction_xdr = xdr;
  keys_restored = n;
  status = pending;
  tx_hash = none;
  error = none;
}

abbrev batches : List RestoreBatchResult
batches = batch 0 "t0" 3 ∷ batch 1 "t1" 4 ∷ batch 2 "t2" 5 ∷ []

-- the second batch is answered first, then the third one, which took its slot
abbrev events : List (ℕ × Answer String)
events = (1, rejected (foreign "offline")) ∷ (2, resolved "h2") ∷ (0, resolved "h0") ∷ []

restored : (execute_restore_batches_concurrent 2 batches events).total_keys_restored ≡ 8
unfolding program
restored = refl

says :
    (execute_restore_batches_concurrent 2 batches events).error
    ≡ some "1 of 3 restore batches failed (indices: 1)"
unfolding program
says = refl

answered : AreAnswers events (begin (limit_of 2) batches)
unfolding program
answered = (omega arith, (omega arith, (omega arith, tt)))

all_done : (pool_after 2 batches events).running ≡ []
unfolding program
all_done = refl

pool_after_progresses_example :
    (length events ≤ length batches)
    × (length events < length batches → 0 < length (pool_after 2 batches events).running)
    × (length events ≡ length batches
        → ((pool_after 2 batches events).running ≡ [])
          × ((pool_after 2 batches events).waiting ≡ []))
pool_after_progresses_example = pool_after_progresses 2 batches events answered

execute_restore_batches_concurrent-Reports_example :
    (let answer = execute_restore_batches_concurrent 2 batches events in
      (r : RestoreBatchResult) × (get_elem? answer.batches 1 ≡ some (some r))
      × IsOutcome batches events (1, r)
      × (answer.success ≡ true → is_success r.status ≡ true))
execute_restore_batches_concurrent-Reports_example =
    execute_restore_batches_concurrent-Reports 2 batches events all_done 1 (batch 1 "t1" 4) refl
