-- ===== src/Execution/Loop.antt =====
-- What the loop of `executeRestoreBatches`, packages/sdk/src/soroban-resurrect.ts, leaves behind.
use automated_cross_contract.Prelude.{
  ℕ, zero, suc, ◌+◌, ◌≡◌, refl, sym, ◌∙◌, true, false, ◌&&◌, Option, none, some, List, [], ◌∷◌,
  ◌++◌, map, map-append, append_assoc, append-nil, length, All, All-snoc, String, ◌+s◌, decimal,
  arith, inl, inr, ◌⊎◌, Bool-cases, subst,
}
use automated_cross_contract.Submission.{
  Answer, resolved, rejected, Failure, message, is_stale_sequence_error,
}
use automated_cross_contract.Execution.{
  RestoreBatchResult, success, failed, FailedRestoreState, RestoreAllBatchesResult, Network, Calls,
  rebuild_from, rebuild_restore_batches, Progress, Run, returned, thrown, succeeded, marked_failed,
  is_given, advance, stop, finished, execute, begin, execute_restore_batches, sum_keys,
}

pub Answer-cases {ℓ} :
    {A : Type ℓ} (a : Answer A) → ((x : A) × (a ≡ resolved x)) ⊎ ((e : Failure) × (a ≡ rejected e))
Answer-cases (resolved x) = inl (x, refl)
Answer-cases (rejected e) = inr (e, refl)

resolved_inj : {x y : List RestoreBatchResult} → resolved x ≡ resolved y → x ≡ y
resolved_inj h = cc

abbrev pub indexes : List RestoreBatchResult → List ℕ
indexes = map (λ b. b.batch_index)

-- a batch whose transaction was submitted and confirmed, with the hash that the submission gave
abbrev pub IsConfirmed : Network → RestoreBatchResult → Type 0
IsConfirmed net b =
    (b.status ≡ success)
    × (n : ℕ) × (h : String) × (net.submit n b.transaction_xdr ≡ resolved h)
    × (b.tx_hash ≡ some h)

-- a batch whose transaction was submitted and refused, with the error of the submission
abbrev pub IsRefused : Network → RestoreBatchResult → Type 0
IsRefused net b =
    (b.status ≡ failed)
    × (n : ℕ) × (e : Failure) × (net.submit n b.transaction_xdr ≡ rejected e)
    × (b.error ≡ some (message e))

-- Every batch is confirmed; `keys` and `order` are the number of keys and the batch indexes asked for.
pub record Completed (net : Network) (keys : ℕ) (order : List ℕ) (r : RestoreAllBatchesResult)
    : Type 0 where
  pub success : r.success ≡ true
  pub confirmed : All (IsConfirmed net) r.batches
  pub total : r.total_keys_restored ≡ keys
  pub planned : indexes r.batches ≡ order

-- The batches `done` are confirmed and `bad` failed. The state kept for a retry holds `bad` and all the
-- batches behind it, and with the keys already restored it accounts for all keys.
pub record Stopped (net : Network) (keys : ℕ) (order : List ℕ) (r : RestoreAllBatchesResult)
    (f : FailedRestoreState) : Type 0 where
  pub done : List RestoreBatchResult
  pub bad : RestoreBatchResult
  pub rest : List RestoreBatchResult
  pub success : r.success ≡ false
  pub reported : r.batches ≡ done ++ bad ∷ []
  pub confirmed : All (IsConfirmed net) done
  pub refused : IsRefused net bad
  pub explained :
      (text : String) × (bad.error ≡ some text)
      × (r.error ≡ some ("Batch " +s decimal (length done + 1) +s " failed: " +s text))
  pub position : r.failed_at_batch_index ≡ some (length done)
  pub kept : f.failed_batches ≡ bad ∷ rest
  pub restored : f.partial_entries_restored ≡ r.total_keys_restored
  pub counted : r.total_keys_restored ≡ sum_keys done
  pub conserved : f.partial_entries_restored + sum_keys f.failed_batches ≡ keys
  pub planned : indexes done ++ indexes f.failed_batches ≡ order

-- what a run leaves behind; it throws only with the error of `getAccount`
abbrev pub Settles : Network → ℕ → List ℕ → Run → Type 0
Settles net keys order (thrown e calls) = (n : ℕ) × (net.get_account n ≡ rejected e)
Settles net keys order (returned r none calls) = Completed net keys order r
Settles net keys order (returned r (some f) calls) = Stopped net keys order r f

sum_keys-append :
    (xs ys : List RestoreBatchResult) → sum_keys (xs ++ ys) ≡ sum_keys xs + sum_keys ys
sum_keys-append [] ys = omega arith
sum_keys-append (x ∷ xs) ys = omega (arith, sum_keys-append xs ys)

module _ (net : Network) where
  -- Rebuilding keeps the number of keys and the index of each batch.
  rebuild_from-same :
      (sequence : ℕ) (bs : List RestoreBatchResult)
      → (sum_keys (rebuild_from net sequence bs) ≡ sum_keys bs)
        × (indexes (rebuild_from net sequence bs) ≡ indexes bs)
        × (length (rebuild_from net sequence bs) ≡ length bs)
  unfolding rebuild_from
  rebuild_from-same sequence [] = (refl, refl, refl)
  rebuild_from-same sequence (b ∷ bs) =
      ground (arith, rebuild_from-same sequence bs, rebuild_from-same (sequence + 1) bs)

  pub rebuild_restore_batches-same :
      (calls : Calls) (bs queue : List RestoreBatchResult)
      → rebuild_restore_batches net calls bs ≡ resolved queue
      → (sum_keys queue ≡ sum_keys bs) × (indexes queue ≡ indexes bs) × (length queue ≡ length bs)
  unfolding rebuild_restore_batches
  rebuild_restore_batches-same calls bs queue h =
      elim (Answer-cases (net.get_account calls.accounts)) [
        | inl (sequence, known) ↦
            let same : rebuild_from net sequence bs ≡ queue =
              resolved_inj (rw (known, rebuild_restore_batches) at h) in
            subst
              (λ q. (sum_keys q ≡ sum_keys bs) × (indexes q ≡ indexes bs) × (length q ≡ length bs))
              same (rebuild_from-same sequence bs)
        | inr (e, lost) ↦ absurd (cc (rw (lost, rebuild_restore_batches) at h))
      ]

-- the invariant of the loop, `queue` being still to execute
record Tracks (net : Network) (keys : ℕ) (order : List ℕ) (p : Progress)
    (queue : List RestoreBatchResult) : Type 0 where
  confirmed : All (IsConfirmed net) p.results
  counted : p.total_keys_restored ≡ sum_keys p.results
  conserved : p.total_keys_restored + sum_keys queue ≡ keys
  planned : indexes p.results ++ indexes queue ≡ order

pub rebuild_restore_batches-rejected :
    (net : Network) (calls : Calls) (bs : List RestoreBatchResult) (e : Failure)
    → rebuild_restore_batches net calls bs ≡ rejected e
    → net.get_account calls.accounts ≡ rejected e
unfolding rebuild_restore_batches
rebuild_restore_batches-rejected net calls bs e h =
    elim (Answer-cases (net.get_account calls.accounts)) [
      | inl (sequence, known) ↦ absurd (cc (rw (known, rebuild_restore_batches) at h))
      | inr (lost, refused) ↦
          let same : lost ≡ e = cc (rw (refused, rebuild_restore_batches) at h) in
          subst (λ x. net.get_account calls.accounts ≡ rejected x) same refused
    ]

module _ (net : Network) (keys : ℕ) (order : List ℕ) where
  finished-Settles :
      (p : Progress) → Tracks net keys order p [] → Settles net keys order (finished p)
  finished-Settles p t = record {
    success = refl;
    confirmed = t.confirmed;
    total = omega (arith, t.conserved);
    planned = sym (append-nil _) ∙ t.planned;
  }

  stop-Settles :
      (source : Option String) (p : Progress) (b : RestoreBatchResult)
      (rest : List RestoreBatchResult) (e : Failure)
      → net.submit p.calls.submissions b.transaction_xdr ≡ rejected e
      → Tracks net keys order p (b ∷ rest)
      → Settles net keys order (stop source p b rest e)
  stop-Settles source p b rest e sent t = record {
    done = p.results;
    bad = marked_failed b e;
    rest = rest;
    success = refl;
    reported = refl;
    confirmed = t.confirmed;
    refused = (refl, p.calls.submissions, e, sent, refl);
    explained = (message e, refl, refl);
    position = refl;
    kept = refl;
    restored = refl;
    counted = t.counted;
    conserved = t.conserved;
    planned = t.planned;
  }

  advance-Tracks :
      (p : Progress) (b : RestoreBatchResult) (rest : List RestoreBatchResult) (h : String)
      → net.submit p.calls.submissions b.transaction_xdr ≡ resolved h
      → Tracks net keys order p (b ∷ rest)
      → Tracks net keys order (advance p b h) rest
  advance-Tracks p b rest h sent t = record {
    confirmed =
        All-snoc (IsConfirmed net) p.results (succeeded b h) t.confirmed
          (refl, p.calls.submissions, h, sent, refl);
    counted = omega (arith, t.counted, sum_keys-append p.results (succeeded b h ∷ []));
    conserved = omega (arith, t.conserved);
    planned = rw (map-append, append_assoc) t.planned;
  }

module _ (net : Network) (source : Option String) (keys : ℕ) (order : List ℕ) where
  refreshed-Tracks :
      (p : Progress) (calls : Calls) (batches queue : List RestoreBatchResult)
      → Tracks net keys order p batches
      → rebuild_restore_batches net p.calls batches ≡ resolved queue
      → Tracks net keys order (record p { calls = calls }) queue
  refreshed-Tracks p calls batches queue t h =
      let (sums, idx, _) = rebuild_restore_batches-same net p.calls batches queue h in
      record {
        confirmed = t.confirmed;
        counted = t.counted;
        conserved = omega (arith, t.conserved);
        planned = rw idx t.planned;
      }

  execute-Settles :
      (refreshes : ℕ) (queue : List RestoreBatchResult) (p : Progress)
      → Tracks net keys order p queue
      → Settles net keys order (execute net source refreshes queue p)
  unfolding execute
  execute-Settles zero [] p t = finished-Settles net keys order p t
  execute-Settles (suc n) [] p t = finished-Settles net keys order p t
  execute-Settles zero (b ∷ rest) p t =
      elim (Answer-cases (net.submit p.calls.submissions b.transaction_xdr)) [
        | inl (h, sent) ↦
            rw (sent, execute)
              (execute-Settles zero rest (advance p b h)
                (advance-Tracks net keys order p b rest h sent t))
        | inr (e, refused) ↦
            rw (refused, execute) (stop-Settles net keys order source p b rest e refused t)
      ]
  execute-Settles (suc n) (b ∷ rest) p t =
      elim (Answer-cases (net.submit p.calls.submissions b.transaction_xdr)) [
        | inl (h, sent) ↦
            rw (sent, execute)
              (execute-Settles (suc n) rest (advance p b h)
                (advance-Tracks net keys order p b rest h sent t))
        | inr (e, refused) ↦ elim (Bool-cases (is_given source && is_stale_sequence_error e)) [
          | inr for_good ↦
              rw (refused, execute, for_good)
                (stop-Settles net keys order source p b rest e refused t)
          | inl stale ↦ elim (Answer-cases (rebuild_restore_batches net p.calls (b ∷ rest))) [
            | inl (queue, rebuilt) ↦
                rw (refused, execute, stale, rebuilt)
                  (execute-Settles n queue _ (refreshed-Tracks p _ (b ∷ rest) queue t rebuilt))
            | inr (lost, failed_too) ↦
                rw (refused, execute, stale, failed_too)
                  (
                    p.calls.accounts,
                    rebuild_restore_batches-rejected net p.calls (b ∷ rest) lost failed_too,
                  )
          ]
        ]
      ]

-- A run over restore batches returns, or throws the error with which `getAccount` was refused. If it
-- returns, then either every batch, in order, is reported a success with the hash to which a submission of
-- its transaction resolved, and all their keys are counted; or it stopped at a batch whose submission was
-- rejected, with that error: the batches before it are such successes, it and all behind it are kept for a
-- retry, and the keys restored and the keys kept add up to all keys.
pub execute_restore_batches-Settles :
    (net : Network) (source : Option String) (calls : Calls) (batches : List RestoreBatchResult)
    → Settles net
        (sum_keys batches)
        (indexes batches)
        (execute_restore_batches net source calls batches)
unfolding execute_restore_batches
execute_restore_batches-Settles net source calls batches =
    execute-Settles net source (sum_keys batches) (indexes batches) 1 batches (begin calls)
      (record { confirmed = tt; counted = refl; conserved = omega arith; planned = refl })

-- the calls made by the end of a run
abbrev pub calls_of : Run → Calls
calls_of (returned r f calls) = calls
calls_of (thrown e calls) = calls
