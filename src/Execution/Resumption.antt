-- ===== src/Execution/Resumption.antt =====
-- `resumeRestoreBatches`, packages/sdk/src/soroban-resurrect.ts.
use automated_cross_contract.Prelude.{
  ℕ, ◌≡◌, refl, sym, ap, ◌∙◌, true, false, Option, none, some, List, [], ◌∷◌, map, All, inl, inr,
  ◌⊎◌, Bool-cases, Option-cases, List-cases, or_else, subst, filter_b, nat_Eq, nat_eq,
}
use automated_cross_contract.Prelude.Dict
use automated_cross_contract.Submission.{rejected}
use automated_cross_contract.Execution.{
  RestoreBatchResult, FailedRestoreState, RestoreAllBatchesResult, Network, Calls, Run, returned,
  thrown, execute_restore_batches, index_batches, overlay, RestoreExecutionReceipt, is_remaining,
  sum_keys, merge_resumed, cleared, ordered_batches, remaining_batches, resume_restore_batches,
}
use automated_cross_contract.Execution.Loop.{
  indexes, IsConfirmed, IsRefused, Settles, execute_restore_batches-Settles,
}

-- the index has an executed batch
abbrev Known : List (ℕ × RestoreBatchResult) → ℕ → Type 0
Known m i = (b : RestoreBatchResult) × (Dict.get i m ≡ some b)

Known-put :
    (m : List (ℕ × RestoreBatchResult)) (b : RestoreBatchResult) (i : ℕ)
    → Known m i
    → Known (Dict.put b.batch_index b m) i
Known-put m b i (x, found) = elim (Bool-cases (nat_eq i b.batch_index)) [
  | inl same ↦ (b, rw (Dict.get-put, same) refl)
  | inr other ↦ (x, rw (Dict.get-put, other) found)
]

index_batches-Known :
    (bs : List RestoreBatchResult) (m : List (ℕ × RestoreBatchResult)) (i : ℕ)
    → Known m i
    → Known (index_batches m bs) i
unfolding index_batches
index_batches-Known [] m i k = k
index_batches-Known (b ∷ bs) m i k =
    index_batches-Known bs (Dict.put b.batch_index b m) i (Known-put m b i k)

-- every index of the list has a batch in its map
indexes-Known :
    (bs : List RestoreBatchResult) (m : List (ℕ × RestoreBatchResult))
    → All (Known (index_batches m bs)) (indexes bs)
unfolding index_batches
indexes-Known [] m = tt
indexes-Known (b ∷ bs) m = (
  index_batches-Known bs (Dict.put b.batch_index b m) b.batch_index
      (b, Dict.get-put_self b.batch_index b m),
  indexes-Known bs (Dict.put b.batch_index b m),
)

-- what holds of all batches of the list holds of all of its map
index_batches-All :
    (P : RestoreBatchResult → Type 0) (bs : List RestoreBatchResult)
    (m : List (ℕ × RestoreBatchResult))
    → All P bs
    → All (λ e. P e.1) m
    → All (λ e. P e.1) (index_batches m bs)
unfolding index_batches
index_batches-All P [] m h k = k
index_batches-All P (b ∷ bs) m (p, h) k =
    index_batches-All P bs (Dict.put b.batch_index b m) h
      (Dict.All-put (λ e. P e.1) b.batch_index b m p k)

indexes-cleared : (bs : List RestoreBatchResult) → indexes (map cleared bs) ≡ indexes bs
indexes-cleared [] = refl
indexes-cleared (b ∷ bs) = ap (◌∷◌ b.batch_index) (indexes-cleared bs)

-- each batch of a receipt with what is reported of it: the batch of that index that was executed now, and
-- confirmed; or the batch itself, which was not to be executed again
abbrev pub IsSettled : Network → RestoreBatchResult → RestoreBatchResult → Type 0
IsSettled net b r =
    (r.batch_index ≡ b.batch_index) × (IsConfirmed net r ⊎ ((is_remaining b ≡ false) × (r ≡ b)))

abbrev pub AreSettled : Network → List RestoreBatchResult → List RestoreBatchResult → Type 0
AreSettled net [] [] = Unit
AreSettled net (b ∷ bs) (r ∷ rs) = IsSettled net b r × AreSettled net bs rs
AreSettled net _ _ = ⊥

module _ (net : Network) (M : List (ℕ × RestoreBatchResult)) where
  -- the executed batches are confirmed and stand under their index
  abbrev AreExecuted : Type 0
  AreExecuted = All (λ e. IsConfirmed net e.1) M × All (λ e. e.1.batch_index ≡ e.0) M

  executed-IsSettled :
      (b x : RestoreBatchResult)
      → AreExecuted
      → Dict.get b.batch_index M ≡ some x
      → IsSettled net b x
  executed-IsSettled b x (confirmed, keyed) found = (
    Dict.All-get (λ e. e.1.batch_index ≡ e.0) b.batch_index M x keyed found,
    inl (Dict.All-get (λ e. IsConfirmed net e.1) b.batch_index M x confirmed found),
  )

  closed-IsSettled :
      (b : RestoreBatchResult)
      → AreExecuted
      → is_remaining b ≡ false
      → IsSettled net b (or_else (Dict.get b.batch_index M) b)
  closed-IsSettled b h closed = elim (Option-cases (Dict.get b.batch_index M)) [
    | inl absent ↦ rw absent (refl, inr (closed, refl))
    | inr (x, found) ↦ rw found (executed-IsSettled b x h found)
  ]

  overlay-AreSettled :
      (bs : List RestoreBatchResult)
      → AreExecuted
      → All (Known M) (indexes (filter_b is_remaining bs))
      → AreSettled net bs (overlay M bs)
  overlay-AreSettled [] h k = tt
  overlay-AreSettled (b ∷ bs) h k = elim (Bool-cases (is_remaining b)) [
    | inl open_batch ↦
        let known = rw open_batch at k in
        let (x, found) = known.0 in
        (rw found (executed-IsSettled b x h found), overlay-AreSettled bs h known.1)
    | inr closed ↦ (closed-IsSettled b h closed, overlay-AreSettled bs h (rw closed at k))
  ]

none_remaining :
    (net : Network) (bs : List RestoreBatchResult)
    → filter_b is_remaining bs ≡ []
    → AreSettled net bs bs
none_remaining net [] h = tt
none_remaining net (b ∷ bs) h = elim (Bool-cases (is_remaining b)) [
  | inl open_batch ↦ absurd (cc (rw open_batch at h))
  | inr closed ↦ ((refl, inr (closed, refl)), none_remaining net bs (rw closed at h))
]

index_batches-keyed :
    (bs : List RestoreBatchResult) (m : List (ℕ × RestoreBatchResult))
    → All (λ e. e.1.batch_index ≡ e.0) m
    → All (λ e. e.1.batch_index ≡ e.0) (index_batches m bs)
unfolding index_batches
index_batches-keyed [] m h = h
index_batches-keyed (b ∷ bs) m h =
    index_batches-keyed bs (Dict.put b.batch_index b m)
      (Dict.All-put (λ e. e.1.batch_index ≡ e.0) b.batch_index b m refl h)

-- what a resumption of some batches gives: an error of `getAccount`; all of them settled; or a failure at
-- a batch that was refused, with the state for a retry
abbrev pub Resumes : Network → List RestoreBatchResult → Run → Type 0
Resumes net bs (thrown e calls) = (n : ℕ) × (net.get_account n ≡ rejected e)
Resumes net bs (returned r f calls) =
    ((r.success ≡ true) × AreSettled net bs r.batches)
    ⊎ ((r.success ≡ false)
        × (kept : FailedRestoreState) × (bad : RestoreBatchResult) × (rest : List
            RestoreBatchResult)
        × (f ≡ some kept)
        × (kept.failed_batches ≡ bad ∷ rest)
        × IsRefused net bad)

merge-Resumes :
    (net : Network) (receipt : RestoreExecutionReceipt) (r : RestoreAllBatchesResult)
    (f : Option FailedRestoreState) (calls : Calls) (keys : ℕ)
    → Settles net keys (indexes (map cleared (remaining_batches receipt))) (returned r f calls)
    → Resumes net
        (ordered_batches receipt)
        (returned (merge_resumed (ordered_batches receipt) r) f calls)
merge-Resumes net receipt r none calls keys s =
    let remaining = remaining_batches receipt in
    inl (
      s.success,
      overlay-AreSettled net (index_batches [] r.batches) (ordered_batches receipt)
          (
            index_batches-All (IsConfirmed net) r.batches [] s.confirmed tt,
            index_batches-keyed r.batches [] tt,
          )
          (subst (All (Known (index_batches [] r.batches))) (s.planned ∙ indexes-cleared remaining)
            (indexes-Known r.batches [])),
    )
merge-Resumes net receipt r (some f) calls keys s =
    inr (s.success, f, s.bad, s.rest, refl, s.kept, s.refused)

module _ (net : Network) (receipt : RestoreExecutionReceipt) (state : Option FailedRestoreState)
    (calls : Calls) where
  resumed_run : List RestoreBatchResult → Run
  resumed_run bs =
      execute_restore_batches net (some receipt.source_account_id) calls (map cleared bs)

  resume_nothing :
      remaining_batches receipt ≡ []
      → Resumes net (ordered_batches receipt) (resume_restore_batches net receipt state calls)
  unfolding resume_restore_batches
  resume_nothing left =
      rw (left, resume_restore_batches)
        (inl (refl, none_remaining net (ordered_batches receipt) left))

  resume_some :
      (b : RestoreBatchResult) (bs : List RestoreBatchResult) (run : Run)
      → remaining_batches receipt ≡ b ∷ bs
      → resumed_run (b ∷ bs) ≡ run
      → Settles net
          (sum_keys (map cleared (b ∷ bs)))
          (indexes (map cleared (remaining_batches receipt)))
          run
      → Resumes net (ordered_batches receipt) (resume_restore_batches net receipt state calls)
  unfolding resume_restore_batches resumed_run
  resume_some b bs (thrown e after) left ran lost = rw (left, resume_restore_batches, ran) lost
  resume_some b bs (returned r f after) left ran settled =
      let merged = merge-Resumes net receipt r f after (sum_keys (map cleared (b ∷ bs))) settled in
      rw (left, resume_restore_batches, ran) merged

  -- A resumption that returns a success has settled every batch of the receipt, in order: the report has under its
  -- index either a batch that was submitted and confirmed, or the batch of the receipt itself, which was marked a
  -- success or had a transaction hash. One that returns a failure keeps the state for a retry, at a batch whose
  -- submission was refused. One that throws has the error of `getAccount`.
  pub resume_restore_batches-Resumes :
      Resumes net (ordered_batches receipt) (resume_restore_batches net receipt state calls)
  unfolding resumed_run
  resume_restore_batches-Resumes = elim (List-cases (remaining_batches receipt)) [
    | inl left ↦ resume_nothing left
    | inr (b, bs, left) ↦ resume_some b bs (resumed_run (b ∷ bs)) left refl (
        subst
          (λ q.
            Settles net (sum_keys (map cleared (b ∷ bs))) (indexes (map cleared q))
              (resumed_run (b ∷ bs)))
          (sym left)
          (execute_restore_batches-Settles net (some receipt.source_account_id) calls
            (map cleared (b ∷ bs))))
  ]
