-- ===== src/Execution/Account.antt =====
-- Runs of `executeRestoreBatches`, packages/sdk/src/soroban-resurrect.ts, without an account id, and their
-- first submission.
use automated_cross_contract.Prelude.{ℕ, zero, suc, ◌≡◌, refl, none, some, List, [], ◌∷◌, inl, inr}
use automated_cross_contract.Submission.{Failure, rejected}
use automated_cross_contract.Execution.{
  RestoreBatchResult, Network, Calls, Progress, Run, returned, thrown, advance, stop, execute,
  begin, execute_restore_batches,
}
use automated_cross_contract.Execution.Loop.{Answer-cases}

-- The run asked for no account, and what it keeps names none.
abbrev pub Nameless : ℕ → Run → Type 0
Nameless accounts (thrown e after) = ⊥
Nameless accounts (returned r none after) = after.accounts ≡ accounts
Nameless accounts (returned r (some f) after) =
    (f.source_account_id ≡ "") × (after.accounts ≡ accounts)

module _ (net : Network) where
  execute-Nameless :
      (n : ℕ) (queue : List RestoreBatchResult) (p : Progress)
      → Nameless p.calls.accounts (execute net none n queue p)
  unfolding execute
  execute-Nameless zero [] p = refl
  execute-Nameless (suc n) [] p = refl
  execute-Nameless zero (b ∷ rest) p =
      elim (Answer-cases (net.submit p.calls.submissions b.transaction_xdr)) [
        | inl (h, sent) ↦ rw (sent, execute) (execute-Nameless zero rest (advance p b h))
        | inr (e, refused) ↦ rw (refused, execute) (refl, refl)
      ]
  execute-Nameless (suc n) (b ∷ rest) p =
      elim (Answer-cases (net.submit p.calls.submissions b.transaction_xdr)) [
        | inl (h, sent) ↦ rw (sent, execute) (execute-Nameless (suc n) rest (advance p b h))
        | inr (e, refused) ↦ rw (refused, execute) (refl, refl)
      ]

  pub execute_restore_batches-Nameless :
      (calls : Calls) (batches : List RestoreBatchResult)
      → Nameless calls.accounts (execute_restore_batches net none calls batches)
  unfolding execute_restore_batches
  execute_restore_batches-Nameless calls batches = execute-Nameless 1 batches (begin calls)

  -- a first batch that is refused ends a run without an account id
  pub execute_restore_batches-stop :
      (calls : Calls) (batch : RestoreBatchResult) (rest : List RestoreBatchResult) (e : Failure)
      → net.submit calls.submissions batch.transaction_xdr ≡ rejected e
      → execute_restore_batches net none calls (batch ∷ rest) ≡ stop none (begin calls) batch rest e
  unfolding execute_restore_batches execute
  execute_restore_batches-stop calls batch rest e refused = rw (refused, execute) refl
