-- ===== src/Execution/Bounds.antt =====
-- How often `executeRestoreBatches`, packages/sdk/src/soroban-resurrect.ts, asks the network.
use automated_cross_contract.Prelude.{
  ℕ, zero, suc, ◌+◌, ◌≤◌, ◌&&◌, Option, List, [], ◌∷◌, length, String, arith, inl, inr, Bool-cases,
}
use automated_cross_contract.Submission.{is_stale_sequence_error}
use automated_cross_contract.Execution.{
  RestoreBatchResult, Network, Calls, rebuild_restore_batches, Progress, is_given, advance, execute,
  begin, execute_restore_batches,
}
use automated_cross_contract.Execution.Loop.{Answer-cases, rebuild_restore_batches-same, calls_of}

module _ (net : Network) (source : Option String) where
  -- `r` refreshes, each asked for with one more submission
  record Within (r : ℕ) (queue : List RestoreBatchResult) (before after : Calls) : Type 0 where
    pub submissions : after.submissions ≤ before.submissions + length queue + r
    pub accounts : after.accounts ≤ before.accounts + r

  execute-Within :
      (refreshes : ℕ) (queue : List RestoreBatchResult) (p : Progress)
      → Within refreshes queue p.calls (calls_of (execute net source refreshes queue p))
  unfolding execute
  execute-Within zero [] p = record { submissions = omega arith; accounts = omega arith }
  execute-Within (suc n) [] p = record { submissions = omega arith; accounts = omega arith }
  execute-Within zero (b ∷ rest) p =
      elim (Answer-cases (net.submit p.calls.submissions b.transaction_xdr)) [
        | inl (h, sent) ↦
            let ih = execute-Within zero rest (advance p b h) in
            rw (sent, execute)
              (record {
                submissions = omega (arith, ih.submissions);
                accounts = omega (arith, ih.accounts);
              })
        | inr (e, refused) ↦
            rw (refused, execute) (record { submissions = omega arith; accounts = omega arith })
      ]
  execute-Within (suc n) (b ∷ rest) p =
      elim (Answer-cases (net.submit p.calls.submissions b.transaction_xdr)) [
        | inl (h, sent) ↦
            let ih = execute-Within (suc n) rest (advance p b h) in
            rw (sent, execute)
              (record {
                submissions = omega (arith, ih.submissions);
                accounts = omega (arith, ih.accounts);
              })
        | inr (e, refused) ↦ elim (Bool-cases (is_given source && is_stale_sequence_error e)) [
          | inr for_good ↦
              rw (refused, execute, for_good)
                (record { submissions = omega arith; accounts = omega arith })
          | inl stale ↦ elim (Answer-cases (rebuild_restore_batches net p.calls (b ∷ rest))) [
            | inl (queue, rebuilt) ↦
                let again : Progress = record p {
                  calls = record {
                    submissions = p.calls.submissions + 1;
                    accounts = p.calls.accounts + 1;
                  };
                } in
                let ih = execute-Within n queue again in
                let same = (rebuild_restore_batches-same net p.calls (b ∷ rest) queue rebuilt).2 in
                rw (refused, execute, stale, rebuilt)
                  (record {
                    submissions = omega (arith, ih.submissions, same);
                    accounts = omega (arith, ih.accounts);
                  })
            | inr (lost, failed_too) ↦
                rw (refused, execute, stale, failed_too)
                  (record { submissions = omega arith; accounts = omega arith })
          ]
        ]
      ]

  -- A run makes at most one submission for each batch and one more, and fetches the account at most
  -- once: the sequence numbers are refreshed at most once.
  pub execute_restore_batches_bounds :
      (calls : Calls) (batches : List RestoreBatchResult)
      → (let after = calls_of (execute_restore_batches net source calls batches) in
          (after.submissions ≤ calls.submissions + length batches + 1)
          × (after.accounts ≤ calls.accounts + 1))
  unfolding execute_restore_batches
  execute_restore_batches_bounds calls batches =
      let w = execute-Within 1 batches (begin calls) in (w.submissions, w.accounts)
