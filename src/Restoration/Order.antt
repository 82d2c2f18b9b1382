-- ===== src/Restoration/Order.antt =====
-- The order of the submissions of the restore-then-original flows of packages/sdk/src/soroban-resurrect.ts.
use automated_cross_contract.Prelude.{
  ℕ, ◌+◌, ◌≤◌, ◌≡◌, arith, refl, Bool, true, false, Option, none, some, List, [], String, inl, inr,
  ◌⊎◌, Bool-cases, Option-cases, subst, ap, ◌∙◌, get_elem?,
}
use automated_cross_contract.Submission.{
  Answer, resolved, rejected, Failure, soroban, foreign, restore_failed, original_tx_failed,
  simulation_failed, no_account, invalid_xdr, archive_detection_failed, network_error,
  submission_ambiguous,
}
use automated_cross_contract.Execution.{
  RestoreBatchResult, FailedRestoreState, RestoreAllBatchesResult, Network, Calls, Run, returned,
  thrown, execute_restore_batches, sum_keys, is_success, succeeded,
}
use automated_cross_contract.Execution.Loop.{
  Answer-cases, indexes, Completed, Settles, execute_restore_batches-Settles,
}
use automated_cross_contract.Concurrent.{execute_restore_batches_concurrent}
use automated_cross_contract.Concurrent.Accounts.{Answers, IsAmong, IsOutcome}
use automated_cross_contract.Concurrent.Report.{
  pool_after, execute_restore_batches_concurrent-Reports,
}
use automated_cross_contract.Restoration.{
  RestorationResult, Transactions, to_submit, is_ambiguous, before_original, restore_error,
  original_after, execute_restore_then_original, execute_restore_then_original_batches,
  execute_restore_then_original_batches_concurrent,
}

Run-cases :
    (run : Run)
    → ((e : Failure) × (after : Calls) × (run ≡ thrown e after))
      ⊎ ((r : RestoreAllBatchesResult) × (state : Option FailedRestoreState) × (after : Calls)
          × (run ≡ returned r state after))
Run-cases (thrown e after) = inl (e, after, refl)
Run-cases (returned r state after) = inr (r, state, after, refl)

before_original_success :
    (r : RestoreAllBatchesResult) → before_original true r ≡ none → r.success ≡ true
unfolding before_original
before_original_success r h = elim (Bool-cases r.success) [
  | inl good ↦ good
  | inr bad ↦ elim (Bool-cases (is_ambiguous r)) [
    | inl lost ↦ absurd (cc (rw (bad, lost, before_original) at h))
    | inr known ↦ absurd (cc (rw (bad, known, before_original) at h))
  ]
]

completed :
    (net : Network) (keys : ℕ) (order : List ℕ) (r : RestoreAllBatchesResult)
    (state : Option FailedRestoreState) (after : Calls)
    → Settles net keys order (returned r state after)
    → r.success ≡ true
    → Completed net keys order r
completed net keys order r none after h good = h
completed net keys order r (some f) after h good = absurd (cc (h.success, good))

module _ (net : Network) (original : String) (last : Option FailedRestoreState)
    (calls : Calls) where
  -- The flow with all batches required submits a transaction behind the batches only if it is the original
  -- one and the run over the batches has returned with all keys counted and every batch, in order, a success
  -- with the hash to which a submission of its transaction resolved.
  pub execute_restore_then_original_batches-Completed :
      (batches : List RestoreBatchResult) (sent : String)
      → (execute_restore_then_original_batches net true batches original last calls).original_sent
        ≡ some sent
      → (sent ≡ original)
        × (r : RestoreAllBatchesResult) × (after : Calls) × (state : Option FailedRestoreState)
        × (execute_restore_batches net none calls batches ≡ returned r state after)
        × Completed net (sum_keys batches) (indexes batches) r
  unfolding execute_restore_then_original_batches
  execute_restore_then_original_batches-Completed batches sent h =
      elim (Run-cases (execute_restore_batches net none calls batches)) [
        | inl (e, after, ran) ↦ absurd (cc (rw (ran, execute_restore_then_original_batches) at h))
        | inr (r, state, after, ran) ↦ elim (Option-cases (before_original true r)) [
          | inr (e, refused) ↦
              absurd (cc (rw (ran, refused, execute_restore_then_original_batches) at h))
          | inl free ↦
              let same : some original ≡ some sent =
                rw (ran, free, execute_restore_then_original_batches) at h in
              let settled = execute_restore_batches-Settles net none calls batches in
              (
                cc,
                r,
                after,
                state,
                ran,
                completed net (sum_keys batches) (indexes batches) r state after
                    (subst (Settles net (sum_keys batches) (indexes batches)) ran settled)
                    (before_original_success r free),
              )
        ]
      ]

-- A success has the hash to which a submission of the transaction sent resolved, or it is a simulation, in
-- which nothing was sent. An error has the code of the restore if no transaction was sent behind it, and that
-- of the original transaction, with a hash or none, if its submission was rejected.
abbrev pub Explains : Network → Bool → Option String → Answer RestorationResult → Type 0
Explains net simulates (some sent) (resolved r) =
    (n : ℕ) × (h : String) × (net.submit n sent ≡ resolved h) × (r.original_tx_hash ≡ some h)
Explains net simulates none (resolved r) =
    (simulates ≡ true) × (r.simulate_only ≡ true) × (r.original_tx_hash ≡ none)
Explains net simulates none (rejected (soroban restore_failed text h)) = Unit
Explains net simulates (some sent) (rejected (soroban original_tx_failed text h)) =
    (n : ℕ) × (e : Failure) × (net.submit n sent ≡ rejected e)
Explains _ _ _ _ = ⊥

module _ (net : Network) (simulates : Bool) where
  restore_error-Explains : (e : Failure) → Explains net simulates none (rejected (restore_error e))
  unfolding restore_error
  restore_error-Explains (foreign text) = tt
  restore_error-Explains (soroban simulation_failed text h) = tt
  restore_error-Explains (soroban restore_failed text h) = tt
  restore_error-Explains (soroban original_tx_failed text h) = tt
  restore_error-Explains (soroban no_account text h) = tt
  restore_error-Explains (soroban invalid_xdr text h) = tt
  restore_error-Explains (soroban archive_detection_failed text h) = tt
  restore_error-Explains (soroban network_error text h) = tt
  restore_error-Explains (soroban submission_ambiguous text h) = tt

  original_after-Explains :
      (sent : String) (n : ℕ) (a : Answer String) (r : RestoreAllBatchesResult)
      → net.submit n sent ≡ a
      → Explains net simulates (some sent) (original_after a r)
  unfolding original_after
  original_after-Explains sent n (resolved h) r same = (n, h, same, refl)
  original_after-Explains sent n (rejected e) r same = (n, e, same)

  said :
      (e : Failure) (text : String)
      → some (soroban restore_failed text none) ≡ some e
      → Explains net simulates none (rejected e)
  said e text h =
      let same : soroban restore_failed text none ≡ e = cc in
      subst (λ f. Explains net simulates none (rejected f)) same tt

  before_original-Explains :
      (require_all : Bool) (r : RestoreAllBatchesResult) (e : Failure)
      → before_original require_all r ≡ some e
      → Explains net simulates none (rejected e)
  unfolding before_original
  before_original-Explains require_all r e h = elim (Bool-cases r.success) [
    | inl good ↦ absurd (cc (rw (good, before_original) at h))
    | inr bad ↦ elim (Bool-cases (is_ambiguous r)) [
      | inl lost ↦ said e _ (rw (bad, lost, before_original) at h)
      | inr known ↦ elim (Bool-cases require_all) [
        | inl all ↦ said e _ (rw (bad, known, all, before_original) at h)
        | inr some_only ↦ absurd (cc (rw (bad, known, some_only, before_original) at h))
      ]
    ]
  ]

-- When the flow over batches has submitted the original transaction, it answers with the hash to which the
-- submission resolved, or, if the submission was rejected, fails with `ORIGINAL_TX_FAILED`; when it has not, it
-- fails with `RESTORE_FAILED`. It throws no other error.
pub execute_restore_then_original_batches-Explains :
    (net : Network) (require_all : Bool) (batches : List RestoreBatchResult) (original : String)
    (last : Option FailedRestoreState) (calls : Calls)
    → (let flow =
          execute_restore_then_original_batches net require_all batches original last calls in
        Explains net false flow.original_sent flow.result)
unfolding execute_restore_then_original_batches
execute_restore_then_original_batches-Explains net require_all batches original last calls =
    elim (Run-cases (execute_restore_batches net none calls batches)) [
      | inl (e, after, ran) ↦
          rw (ran, execute_restore_then_original_batches) (restore_error-Explains net false e)
      | inr (r, state, after, ran) ↦ elim (Option-cases (before_original require_all r)) [
        | inr (e, refused) ↦
            rw (ran, refused, execute_restore_then_original_batches)
              (before_original-Explains net false require_all r e refused)
        | inl free ↦
            rw (ran, free, execute_restore_then_original_batches)
              (original_after-Explains net false original after.submissions
                (net.submit after.submissions original) r refl)
      ]
    ]

-- The flow for one restore transaction explains its end in the same way. It submits a transaction behind the
-- restore only if it does not merely simulate and the restore was confirmed; that transaction is the original
-- one, or its new wrapping for a fee bump. It makes at most two submissions.
pub execute_restore_then_original-Ordered :
    (net : Network) (rpc_url : String) (txs : Transactions) (simulate_only : Bool)
    (restore original : String) (last : Option FailedRestoreState) (calls : Calls)
    → (let flow =
          execute_restore_then_original net rpc_url txs simulate_only restore original last calls in
        Explains net simulate_only flow.original_sent flow.result
        × (flow.calls.submissions ≤ calls.submissions + 2)
        × ((sent : String)
            → flow.original_sent ≡ some sent
            → (sent ≡ to_submit net rpc_url txs original)
              × (simulate_only ≡ false)
              × (h : String) × (net.submit calls.submissions restore ≡ resolved h)))
unfolding execute_restore_then_original
execute_restore_then_original-Ordered net rpc_url txs true restore original last calls =
    ((refl, refl, refl), omega arith, λ sent h. absurd cc)
execute_restore_then_original-Ordered net rpc_url txs false restore original last calls =
    elim (Answer-cases (net.submit calls.submissions restore)) [
      | inr (e, refused) ↦
          rw (refused, execute_restore_then_original) (tt, omega arith, λ sent h. absurd cc)
      | inl (h, confirmed) ↦
          elim (Answer-cases
            (net.submit (calls.submissions + 1) (to_submit net rpc_url txs original))) [
              | inl (h', landed) ↦
                  rw (confirmed, landed, execute_restore_then_original)
                    (
                      (calls.submissions + 1, h', landed, refl),
                      omega arith,
                      λ sent q. (cc, refl, h, refl),
                    )
              | inr (e, refused) ↦
                  rw (confirmed, refused, execute_restore_then_original)
                    (
                      (calls.submissions + 1, e, refused),
                      omega arith,
                      λ sent q. (cc, refl, h, refl),
                    )
            ]
    ]

confirmed_outcome :
    (batches : List RestoreBatchResult) (heard : Answers) (i : ℕ) (b r : RestoreBatchResult)
    → get_elem? batches i ≡ some b
    → IsOutcome batches heard (i, r)
    → is_success r.status ≡ true
    → (h : String) × IsAmong (i, resolved h) heard × (r ≡ succeeded b h)
confirmed_outcome batches heard i b r listed (x, here, inl (h, among, same)) good =
    let x_is : x ≡ b = cc in (h, among, same ∙ ap (λ y. succeeded y h) x_is)
confirmed_outcome batches heard i b r listed (x, here, inr (e, among, same)) good = absurd (cc)

-- The concurrent flow with all batches required, when no submission is in flight any more, submits a transaction
-- behind the batches only if it is the original one and every batch is reported as a success, with the hash to
-- which an answer for it resolved.
pub execute_restore_then_original_batches_concurrent-Confirmed :
    (concurrency : ℕ) (batches : List RestoreBatchResult) (original : String) (events : Answers)
    (answer : Answer String) (sent : String)
    → (pool_after concurrency batches events).running ≡ []
    → (execute_restore_then_original_batches_concurrent concurrency true batches original events
        answer).original_sent
      ≡ some sent
    → (sent ≡ original)
      × ((i : ℕ) (b : RestoreBatchResult)
          → get_elem? batches i ≡ some b
          → (h : String) × IsAmong (i, resolved h) events
            × (get_elem? (execute_restore_batches_concurrent concurrency batches events).batches i
                ≡ some (some (succeeded b h))))
unfolding execute_restore_then_original_batches_concurrent
execute_restore_then_original_batches_concurrent-Confirmed concurrency batches original events
      answer sent done h =
    let run = execute_restore_batches_concurrent concurrency batches events in
    elim (Bool-cases run.success) [
      | inr bad ↦ absurd (cc (rw (bad, execute_restore_then_original_batches_concurrent) at h))
      | inl good ↦
          let same : some original ≡ some sent =
            rw (good, execute_restore_then_original_batches_concurrent) at h in
          (
            cc,
            λ i b listed.
                let (r, here, outcome, confirmed) =
                  execute_restore_batches_concurrent-Reports concurrency batches events done i b
                    listed in
                let (hash, among, is_r) =
                  confirmed_outcome batches events i b r listed outcome (confirmed good) in
                (hash, among, subst (λ x. get_elem? run.batches i ≡ some (some x)) is_r here),
          )
    ]
