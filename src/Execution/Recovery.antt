-- ===== src/Execution/Recovery.antt =====
-- `retryFailedRestore`, packages/sdk/src/soroban-resurrect.ts.
use automated_cross_contract.Prelude.{
  ℕ, ◌+◌, ◌≡◌, refl, sym, ap, ◌∙◌, true, false, Option, none, some, List, [], ◌∷◌, arith, inl, inr,
  List-cases, subst, nat_Eq,
}
use automated_cross_contract.Submission.{Failure, rejected}
use automated_cross_contract.Execution.{
  RestoreBatchResult, FailedRestoreState, RestoreAllBatchesResult, Network, Calls,
  rebuild_restore_batches, Run, returned, thrown, execute_restore_batches, sum_keys, Retry, retried,
  retry_thrown, after_retry, ExecutionResult, retry_failed_restore,
}
use automated_cross_contract.Execution.Loop.{
  Answer-cases, indexes, Completed, Stopped, Settles, execute_restore_batches-Settles,
  rebuild_restore_batches-same, rebuild_restore_batches-rejected,
}

-- What a retry gives from a state, `last` being the state kept before it. There was nothing to restore; or
-- every failed batch is confirmed, in order, and counted with the keys of before, and no state is kept; or
-- the run stopped again, and the state kept for the next retry accounts only for the keys of this one; or
-- it throws with the error of `getAccount`.
pub data Retries (net : Network) (state : FailedRestoreState) (last : Option FailedRestoreState)
    (outcome : Retry) : Type 0 where
  nothing_left :
      (r : ExecutionResult) (calls : Calls)
      → outcome ≡ retried r last calls
      → state.failed_batches ≡ []
      → (r.success ≡ true) × (r.entries_restored ≡ state.partial_entries_restored)
      → Retries net state last outcome
  completed :
      (r : ExecutionResult) (run : RestoreAllBatchesResult) (calls : Calls)
      → outcome ≡ retried r none calls
      → (r.success ≡ true) × (r.batch_results ≡ some run)
      → Completed net (sum_keys state.failed_batches) (indexes state.failed_batches) run
      → r.entries_restored ≡ state.partial_entries_restored + sum_keys state.failed_batches
      → Retries net state last outcome
  stopped :
      (r : ExecutionResult) (run : RestoreAllBatchesResult) (next : FailedRestoreState)
      (calls : Calls)
      → outcome ≡ retried r (some next) calls
      → (r.success ≡ false) × (r.batch_results ≡ some run)
      → Stopped net (sum_keys state.failed_batches) (indexes state.failed_batches) run next
      → r.entries_restored ≡ state.partial_entries_restored + next.partial_entries_restored
      → Retries net state last outcome
  unknown_account :
      (e : Failure) (calls : Calls) (n : ℕ)
      → outcome ≡ retry_thrown e calls
      → net.get_account n ≡ rejected e
      → Retries net state last outcome

module _ (net : Network) (state : FailedRestoreState) (last : Option FailedRestoreState) where
  after_retry-Retries :
      (run : Run)
      → Settles net (sum_keys state.failed_batches) (indexes state.failed_batches) run
      → Retries net state last (after_retry state.partial_entries_restored run)
  after_retry-Retries (thrown e calls) (n, lost) = unknown_account e calls n refl lost
  after_retry-Retries (returned r none calls) s =
      simp s.success (completed _ r calls refl (refl, refl) s (omega (arith, s.total)))
  after_retry-Retries (returned r (some f) calls) s =
      simp s.success (stopped _ r f calls refl (refl, refl) s (omega (arith, s.restored)))

  module _ (calls : Calls) where
    nothing-Retries :
        state.failed_batches ≡ []
        → Retries net state last (retry_failed_restore net state last calls)
    unfolding retry_failed_restore
    nothing-Retries empty =
        let r : ExecutionResult = record {
          success = true;
          entries_restored = state.partial_entries_restored;
          failed_batch_index = none;
          partial_entries_restored = none;
          error = none;
          batch_results = none;
        } in
        nothing_left r calls (rw (empty, retry_failed_restore) refl) empty (refl, refl)

    some-Retries :
        (b : RestoreBatchResult) (bs : List RestoreBatchResult)
        → state.failed_batches ≡ b ∷ bs
        → Retries net state last (retry_failed_restore net state last calls)
    unfolding retry_failed_restore
    some-Retries b bs listed = elim (Answer-cases (rebuild_restore_batches net calls (b ∷ bs))) [
      | inl (queue, rebuilt) ↦
          let fetched : Calls = record calls { accounts = calls.accounts + 1 } in
          let run = execute_restore_batches net (some state.source_account_id) fetched queue in
          let (keys, order, _) = rebuild_restore_batches-same net calls (b ∷ bs) queue rebuilt in
          let settled : Settles net (sum_keys state.failed_batches) (indexes state.failed_batches)
              run =
            subst (λ k. Settles net k (indexes state.failed_batches) run)
              (keys ∙ ap sum_keys (sym listed))
              (subst (λ o. Settles net (sum_keys queue) o run) (order ∙ ap indexes (sym listed))
                (execute_restore_batches-Settles net (some state.source_account_id) fetched
                  queue)) in
          let same : retry_failed_restore net state last calls
              ≡ after_retry state.partial_entries_restored run =
            rw (listed, retry_failed_restore, rebuilt) refl in
          subst (Retries net state last) (sym same) (after_retry-Retries run settled)
      | inr (e, lost) ↦
          let fetched : Calls = record calls { accounts = calls.accounts + 1 } in
          unknown_account e fetched calls.accounts (rw (listed, retry_failed_restore, lost) refl)
            (rebuild_restore_batches-rejected net calls (b ∷ bs) e lost)
    ]

  -- A retry of a state, whatever state is kept before it, throws the error with which `getAccount` was refused;
  -- or it has nothing to restore, and keeps that state; or it confirms every failed batch, in order, reports
  -- their keys with those restored before, and keeps no state; or it stops at a batch that was refused, and then
  -- the state kept for the next retry accounts for the batches of this retry only: the keys restored before are
  -- reported, but no longer counted in it.
  pub retry_failed_restore-Retries :
      (calls : Calls) → Retries net state last (retry_failed_restore net state last calls)
  retry_failed_restore-Retries calls = elim (List-cases state.failed_batches) [
    | inl empty ↦ nothing-Retries calls empty
    | inr (b, bs, listed) ↦ some-Retries calls b bs listed
  ]
