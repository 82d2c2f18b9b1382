-- ===== src/Restoration/Lost.antt =====
-- What the restore-then-original flow over batches, packages/sdk/src/soroban-resurrect.ts, loses: it runs the
-- batches without an account id, and it reads `ambiguous` from the run.
use automated_cross_contract.Prelude.{
  ◌≡◌, refl, Bool, false, Option, none, some, List, ◌∷◌, String, inl, inr, Option-cases,
}
use automated_cross_contract.Submission.{
  rejected, soroban, submission_ambiguous, is_ambiguous_submission_error,
}
use automated_cross_contract.Execution.{
  RestoreBatchResult, FailedRestoreState, Network, Calls, Run, returned, thrown,
  execute_restore_batches,
}
use automated_cross_contract.Execution.Account.{
  Nameless, execute_restore_batches-Nameless, execute_restore_batches-stop,
}
use automated_cross_contract.Restoration.{before_original, execute_restore_then_original_batches}

named_alike :
    (g f : FailedRestoreState)
    → some g ≡ some f
    → g.source_account_id ≡ ""
    → f.source_account_id ≡ ""
named_alike g f q h = cc

module _ (net : Network) where
  module _ (require_all : Bool) (original : String) (calls : Calls) where
    flow_after :
        (last : Option FailedRestoreState) (batches : List RestoreBatchResult) (run : Run)
        → execute_restore_batches net none calls batches ≡ run
        → Nameless calls.accounts run
        → (let flow =
              execute_restore_then_original_batches net require_all batches original last calls in
            (flow.calls.accounts ≡ calls.accounts)
            × ((f : FailedRestoreState) → flow.last_failed ≡ some f → f.source_account_id ≡ ""))
    unfolding execute_restore_then_original_batches
    flow_after last batches (thrown e after) ran h = elim h [ ]
    flow_after last batches (returned r none after) ran h =
        elim (Option-cases (before_original require_all r)) [
          | inr (e, refused) ↦
              rw (ran, refused, execute_restore_then_original_batches) (h, λ f q. absurd cc)
          | inl free ↦ rw (ran, free, execute_restore_then_original_batches) (h, λ f q. absurd cc)
        ]
    flow_after last batches (returned r (some g) after) ran (nameless, h) =
        elim (Option-cases (before_original require_all r)) [
          | inr (e, refused) ↦
              rw (ran, refused, execute_restore_then_original_batches)
                (h, λ f q. named_alike g f q nameless)
          | inl free ↦
              rw (ran, free, execute_restore_then_original_batches)
                (h, λ f q. named_alike g f q nameless)
        ]

    -- The flow over batches never fetches the account, so it never refreshes a stale sequence number, and the
    -- state that it keeps for a retry names the empty account id.
    pub execute_restore_then_original_batches-nameless :
        (last : Option FailedRestoreState) (batches : List RestoreBatchResult)
        → (let flow =
              execute_restore_then_original_batches net require_all batches original last calls in
            (flow.calls.accounts ≡ calls.accounts)
            × ((f : FailedRestoreState) → flow.last_failed ≡ some f → f.source_account_id ≡ ""))
    execute_restore_then_original_batches-nameless last batches =
        flow_after last batches (execute_restore_batches net none calls batches) refl
          (execute_restore_batches-Nameless net calls batches)

  -- When partial success is allowed, the flow submits the original transaction although the first batch was
  -- submitted with an unknown outcome (`SUBMISSION_AMBIGUOUS`).
  pub execute_restore_then_original_batches_proceeds :
      (batch : RestoreBatchResult) (rest : List RestoreBatchResult) (text original : String)
      (h : Option String) (last : Option FailedRestoreState) (calls : Calls)
      → net.submit calls.submissions batch.transaction_xdr
        ≡ rejected (soroban submission_ambiguous text h)
      → (execute_restore_then_original_batches net false
          (batch ∷ rest)
          original
          last
          calls).original_sent
        ≡ some original
  unfolding execute_restore_then_original_batches before_original is_ambiguous_submission_error
  execute_restore_then_original_batches_proceeds batch rest text original h last calls lost =
      rw
        (
          execute_restore_batches-stop net calls batch rest (soroban submission_ambiguous text h)
              lost,
          execute_restore_then_original_batches,
        )
        refl
