-- ===== src/Concurrent/Completion.antt =====
-- The answer to one submission of `executeRestoreBatchesConcurrent`,
-- packages/sdk/src/soroban-resurrect.ts, and the accounts behind it.
use automated_cross_contract.Prelude.{
  ℕ, ◌+◌, ◌≤◌, ◌<◌, ◌≡◌, refl, sym, ◌∙◌, ap, some, List, [], ◌∷◌, ◌++◌, String, length,
  length-append, All, All-snoc, arith, Option-cases, List-cases, append-nil, inl, inr, nat_Eq,
}
use automated_cross_contract.Prelude.Dict
use automated_cross_contract.Submission.{Answer, resolved, rejected}
use automated_cross_contract.Execution.{RestoreBatchResult, succeeded, marked_failed}
use automated_cross_contract.Concurrent.{
  Task, Pool, release, tasks_from, settle, finish_task, finish_all,
}
use automated_cross_contract.Concurrent.Accounts.{
  Answers, IsAmong, count, count-append, count-remove, length-remove, get-count, IsTask, IsOutcome,
  restored_keys, failed_of, Accounts, once,
}

pub put_absent :
    (k : ℕ) (v : RestoreBatchResult) (m : List Task)
    → count k m ≡ 0
    → Dict.put k v m ≡ m ++ (k, v) ∷ []
put_absent k v [] h = refl
put_absent k v ((j, w) ∷ m) h = ground (arith, put_absent k v m)

restored_keys-append :
    (xs ys : List Task) → restored_keys (xs ++ ys) ≡ restored_keys xs + restored_keys ys
restored_keys-append [] ys = omega arith
restored_keys-append ((i, b) ∷ xs) ys = omega (arith, restored_keys-append xs ys)

failed_of-append : (xs ys : List Task) → failed_of (xs ++ ys) ≡ failed_of xs ++ failed_of ys
failed_of-append [] ys = refl
failed_of-append ((i, b) ∷ xs) ys = ground (arith, failed_of-append xs ys)

module _ (limit : ℕ) (batches : List RestoreBatchResult) (heard : Answers) where
  -- a task has left, and its slot is not released yet
  record Leaving (p : Pool) : Type 0 where
    slots : p.active ≡ length p.running + 1
    bounded : p.active ≤ limit
    busy : 0 < length p.waiting → p.active ≡ limit
    placed :
        (i : ℕ)
        → count i p.waiting + count i p.running + count i p.results ≡ count i (tasks_from 0 batches)
    together : length p.waiting + length p.running + length p.results ≡ length batches
    runs : All (IsTask batches) p.running
    waits : All (IsTask batches) p.waiting
    settled : All (IsOutcome batches heard) p.results
    total : p.total_keys_restored ≡ restored_keys p.results
    failures : p.failed_indices ≡ failed_of p.results

  release-Accounts : (p : Pool) → Leaving p → Accounts limit batches heard [] (release p)
  unfolding release
  release-Accounts p v = elim (List-cases p.waiting) [
    | inl empty ↦
        rw (empty, release)
          (record {
            slots = omega (arith, v.slots);
            bounded = omega (arith, v.bounded);
            busy = λ h. absurd (omega (arith, h, ap length empty));
            placed = λ i. omega (arith, v.placed i);
            together = omega (arith, v.together);
            runs = v.runs;
            waits = v.waits;
            settled = v.settled;
            total = v.total;
            failures = v.failures;
          })
    | inr (next, rest, queue) ↦
        let waits = rw queue at v.waits in
        rw (queue, release)
          (record {
            slots = omega (arith, v.slots, length-append p.running (next ∷ []));
            bounded = omega (arith, v.bounded, v.slots);
            busy = λ h. omega (arith, v.slots, v.busy (rw queue (omega arith)));
            placed = λ i.
                omega (arith, v.placed i, ap (count i) queue, count-append i p.running (next ∷ []));
            together =
                omega (arith, v.together, ap length queue, length-append p.running (next ∷ []));
            runs = All-snoc (IsTask batches) p.running next v.runs waits.0;
            waits = waits.1;
            settled = v.settled;
            total = v.total;
            failures = v.failures;
          })
  ]

  -- The running task `idx` leaves with the outcome `r`.
  leaves :
      (idx : ℕ) (b r : RestoreBatchResult) (p : Pool) (total : ℕ) (failures : List ℕ)
      → Accounts limit batches heard [] p
      → Dict.get idx p.running ≡ some b
      → IsOutcome batches heard (idx, r)
      → total ≡ p.total_keys_restored + restored_keys ((idx, r) ∷ [])
      → failures ≡ p.failed_indices ++ failed_of ((idx, r) ∷ [])
      → Leaving (record p {
        running = Dict.remove idx p.running;
        results = Dict.put idx r p.results;
        total_keys_restored = total;
        failed_indices = failures;
      })
  leaves idx b r p total failures v found outcome sums fails =
      let one = once batches idx 0 batches in
      let here = get-count idx b p.running found in
      let absent : count idx p.results ≡ 0 = omega (arith, one, here, v.placed idx) in
      let single : count idx p.running ≡ 1 = omega (arith, one, here, v.placed idx) in
      rw (put_absent idx r p.results absent) (record {
        slots = omega (arith, v.slots, length-remove idx p.running, single);
        bounded = v.bounded;
        busy = v.busy;
        placed = λ i. ground (
          arith,
          v.placed i,
          count-remove i idx p.running,
          single,
          count-append i p.results ((idx, r) ∷ []),
        );
        together = omega (
          arith,
          v.together,
          length-remove idx p.running,
          single,
          length-append p.results ((idx, r) ∷ []),
        );
        runs = Dict.All-remove (IsTask batches) idx p.running v.runs;
        waits = v.waits;
        settled = All-snoc (IsOutcome batches heard) p.results (idx, r) v.settled outcome;
        total = sums ∙ omega (arith, v.total, restored_keys-append p.results ((idx, r) ∷ []));
        failures =
            fails
            ∙ ap (λ l. l ++ failed_of ((idx, r) ∷ [])) v.failures
            ∙ sym (failed_of-append p.results ((idx, r) ∷ []));
      })

  settles :
      (idx : ℕ) (answer : Answer String) (b : RestoreBatchResult) (p : Pool)
      → Accounts limit batches heard [] p
      → Dict.get idx p.running ≡ some b
      → IsAmong (idx, answer) heard
      → Leaving (settle (idx, b) answer (record p { running = Dict.remove idx p.running }))
  unfolding settle
  settles idx (resolved h) b p v found here =
      leaves idx b (succeeded b h) p (p.total_keys_restored + b.keys_restored) p.failed_indices v
        found (b, Dict.All-get (IsTask batches) idx p.running b v.runs found, inl (h, here, refl))
        (omega arith) (sym (append-nil p.failed_indices))
  settles idx (rejected e) b p v found here =
      leaves idx b (marked_failed b e) p p.total_keys_restored (p.failed_indices ++ idx ∷ []) v
        found (b, Dict.All-get (IsTask batches) idx p.running b v.runs found, inr (e, here, refl))
        (omega arith) refl

  finish_task-Accounts :
      (idx : ℕ) (answer : Answer String) (p : Pool)
      → IsAmong (idx, answer) heard
      → Accounts limit batches heard [] p
      → Accounts limit batches heard [] (finish_task idx answer p)
  unfolding finish_task
  finish_task-Accounts idx answer p here v = elim (Option-cases (Dict.get idx p.running)) [
    | inl idle ↦ rw (idle, finish_task) v
    | inr (b, found) ↦
        rw (found, finish_task) (release-Accounts _ (settles idx answer b p v found here))
  ]

  pub finish_all-Accounts :
      (events : Answers) (p : Pool)
      → All (λ a. IsAmong a heard) events
      → Accounts limit batches heard [] p
      → Accounts limit batches heard [] (finish_all events p)
  unfolding finish_all
  finish_all-Accounts [] p h v = v
  finish_all-Accounts ((idx, answer) ∷ events) p (here, later) v =
      finish_all-Accounts events (finish_task idx answer p) later
        (finish_task-Accounts idx answer p here v)

later-IsAmong :
    (a : ℕ × Answer String) (xs ys : Answers)
    → All (λ y. IsAmong y xs) ys
    → All (λ y. IsAmong y (a ∷ xs)) ys
later-IsAmong a xs [] h = tt
later-IsAmong a xs (y ∷ ys) (here, h) = (inr here, later-IsAmong a xs ys h)

pub all-IsAmong : (xs : Answers) → All (λ x. IsAmong x xs) xs
all-IsAmong [] = tt
all-IsAmong (x ∷ xs) = (inl refl, later-IsAmong x xs xs (all-IsAmong xs))
