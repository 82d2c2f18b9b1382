-- ===== src/Concurrent/Report.antt =====
-- The slots in use, the end of a run and the report of `executeRestoreBatchesConcurrent`,
-- packages/sdk/src/soroban-resurrect.ts.
use automated_cross_contract.Prelude.{
  ℕ, zero, suc, ◌+◌, ◌≤◌, ◌<◌, ◌≡◌, refl, sym, ◌∙◌, ap, subst, true, Option, some, List, [], ◌∷◌,
  map, String, ltb, nat_eq, length, length-append, get_elem?, All, arith, Bool-cases, List-cases,
  inl, inr, nat_Eq,
}
use automated_cross_contract.Prelude.Dict
use automated_cross_contract.Submission.{Answer, resolved, rejected}
use automated_cross_contract.Execution.{RestoreBatchResult, succeeded, marked_failed, is_success}
use automated_cross_contract.Concurrent.{
  Task, Pool, acquire, acquire_all, idle, release, tasks_from, settle, finish_task, finish_all,
  begin, limit_of, report, execute_restore_batches_concurrent,
}
use automated_cross_contract.Concurrent.Accounts.{
  Answers, IsAmong, count, count-get, IsOutcome, failed_of, Accounts, once, begin-Accounts,
}
use automated_cross_contract.Concurrent.Completion.{put_absent, finish_all-Accounts, all-IsAmong}

-- the pool behind the answers
abbrev pub pool_after : ℕ → List RestoreBatchResult → List (ℕ × Answer String) → Pool
pool_after concurrency batches events = finish_all events (begin (limit_of concurrency) batches)

pool_after-Accounts :
    (concurrency : ℕ) (batches : List RestoreBatchResult) (events : List (ℕ × Answer String))
    → Accounts (limit_of concurrency) batches events [] (pool_after concurrency batches events)
pool_after-Accounts concurrency batches events =
    finish_all-Accounts (limit_of concurrency) batches events events
      (begin (limit_of concurrency) batches) (all-IsAmong events)
      (begin-Accounts batches (limit_of concurrency) events)

-- At every moment, `active` counts the submissions in flight, they are at most the limit, and a batch waits
-- only while the limit is used up.
pub pool_after_bounds :
    (concurrency : ℕ) (batches : List RestoreBatchResult) (events : List (ℕ × Answer String))
    → (let p = pool_after concurrency batches events in
        (p.active ≡ length p.running)
        × (length p.running ≤ limit_of concurrency)
        × (0 < length p.waiting → length p.running ≡ limit_of concurrency))
pool_after_bounds concurrency batches events =
    let v = pool_after-Accounts concurrency batches events in
    (v.slots, omega (arith, v.slots, v.bounded), λ h. omega (arith, v.slots, v.busy h))

-- each answer is one to a submission in flight
abbrev pub AreAnswers : List (ℕ × Answer String) → Pool → Type 0
AreAnswers [] p = Unit
AreAnswers ((idx, answer) ∷ events) p =
    (0 < count idx p.running) × AreAnswers events (finish_task idx answer p)

results-release : (p : Pool) → (release p).results ≡ p.results
unfolding release
results-release p = elim (List-cases p.waiting) [
  | inl empty ↦ rw (empty, release) refl
  | inr (next, rest, queue) ↦ rw (queue, release) refl
]

module _ (limit : ℕ) (batches : List RestoreBatchResult) (heard : Answers) where
  length-settle :
      (idx : ℕ) (answer : Answer String) (b : RestoreBatchResult) (p : Pool)
      → count idx p.results ≡ 0
      → length (settle (idx, b) answer p).results ≡ length p.results + 1
  unfolding settle
  length-settle idx (resolved h) b p absent =
      rw (put_absent idx (succeeded b h) p.results absent) (length-append p.results _)
  length-settle idx (rejected e) b p absent =
      rw (put_absent idx (marked_failed b e) p.results absent) (length-append p.results _)

  results-finish_task :
      (idx : ℕ) (answer : Answer String) (p : Pool)
      → Accounts limit batches heard [] p
      → 0 < count idx p.running
      → length (finish_task idx answer p).results ≡ length p.results + 1
  unfolding finish_task
  results-finish_task idx answer p v flying =
      let (b, found) = count-get idx p.running flying in
      let absent : count idx p.results ≡ 0 =
        omega (arith, once batches idx 0 batches, flying, v.placed idx) in
      let left : Pool = record p { running = Dict.remove idx p.running } in
      rw (found, finish_task)
        (ap length (results-release (settle (idx, b) answer left))
          ∙ length-settle idx answer b left absent)

  results-finish_all :
      (events : List (ℕ × Answer String)) (p : Pool)
      → Accounts limit batches heard [] p
      → All (λ a. IsAmong a heard) events
      → AreAnswers events p
      → length (finish_all events p).results ≡ length p.results + length events
  unfolding finish_all
  results-finish_all [] p v known h = omega arith
  results-finish_all ((idx, answer) ∷ events) p v (here, known) (flying, h) =
      let w = finish_all-Accounts limit batches heard ((idx, answer) ∷ []) p (here, tt) v in
      omega (
        arith,
        results-finish_task idx answer p v flying,
        results-finish_all events (finish_task idx answer p) w known h,
      )

  results-acquire_all :
      (tasks : List Task) (p : Pool) → (acquire_all limit tasks p).results ≡ p.results
  unfolding acquire_all acquire
  results-acquire_all [] p = refl
  results-acquire_all (t ∷ tasks) p = elim (Bool-cases (ltb p.active limit)) [
    | inl free ↦ results-acquire_all tasks (acquire limit t p) ∙ rw (free, acquire) refl
    | inr full ↦ results-acquire_all tasks (acquire limit t p) ∙ rw (full, acquire) refl
  ]

no_entries : {A : Type 0} (xs : List A) → length xs ≡ 0 → xs ≡ []
no_entries [] h = refl
no_entries (x ∷ xs) h = absurd (omega (arith, h))

module _ (concurrency : ℕ) (batches : List RestoreBatchResult)
    (events : List (ℕ × Answer String)) where
  -- As long as each answer is one to a submission in flight, there are at most as many answers as batches. While
  -- there are fewer, some submission is in flight, so that the run can go on: no task is stuck in the queue. With
  -- as many, nothing runs and nothing waits.
  pub pool_after_progresses :
      AreAnswers events (begin (limit_of concurrency) batches)
      → (length events ≤ length batches)
        × (length events < length batches
            → 0 < length (pool_after concurrency batches events).running)
        × (length events ≡ length batches
            → ((pool_after concurrency batches events).running ≡ [])
              × ((pool_after concurrency batches events).waiting ≡ []))
  unfolding begin
  pool_after_progresses h =
      let limit = limit_of concurrency in
      let p = pool_after concurrency batches events in
      let v = pool_after-Accounts concurrency batches events in
      let grown =
        results-finish_all limit batches events events (begin limit batches)
          (begin-Accounts batches limit events) (all-IsAmong events) h in
      let none_yet =
        ap length (results-acquire_all limit batches events (tasks_from 0 batches) idle) in
      let some_slot : 0 < limit = ground arith in
      (
        omega (arith, v.together, grown, none_yet),
        λ fewer. ground (arith, v.slots, v.busy, v.together, grown, none_yet, fewer, some_slot),
        λ last. (
          no_entries p.running (omega (arith, v.together, grown, none_yet, last)),
          no_entries p.waiting (omega (arith, v.together, grown, none_yet, last)),
        ),
      )

  reported :
      (f : Task → Option RestoreBatchResult) (n i : ℕ) (bs : List RestoreBatchResult)
      (b : RestoreBatchResult)
      → get_elem? bs i ≡ some b
      → get_elem? (map f (tasks_from n bs)) i ≡ some (f (n + i, b))
  reported f n i [] b h = cc
  reported f n zero (x ∷ bs) b h =
      let same : x ≡ b = cc in
      subst (λ y. some (f (n, x)) ≡ some (f (n + 0, y))) same
        (subst (λ k. some (f (n, x)) ≡ some (f (k, x))) (omega arith) refl)
  reported f n (suc i) (x ∷ bs) b h =
      subst (λ k. get_elem? (map f (tasks_from (n + 1) bs)) i ≡ some (f (k, b))) (omega arith)
        (reported f (n + 1) i bs b h)

  all_succeeded :
      (i : ℕ) (r : RestoreBatchResult) (l : List Task)
      → failed_of l ≡ []
      → Dict.get i l ≡ some r
      → is_success r.status ≡ true
  all_succeeded i r [] h found = cc
  all_succeeded i r ((j, x) ∷ l) h found = elim (Bool-cases (is_success x.status)) [
    | inr bad ↦ absurd (cc (rw bad at h))
    | inl good ↦ elim (Bool-cases (nat_eq i j)) [
      | inl same ↦
          let is_x : x ≡ r = cc (rw same at found) in
          subst (λ y. is_success y.status ≡ true) is_x good
      | inr other ↦ all_succeeded i r l (rw good at h) (rw other at found)
    ]
  ]

  listed_count :
      (n i : ℕ) (bs : List RestoreBatchResult) (b : RestoreBatchResult)
      → get_elem? bs i ≡ some b
      → 0 < count (n + i) (tasks_from n bs)
  listed_count n i [] b h = cc
  listed_count n zero (x ∷ bs) b h = ground arith
  listed_count n (suc i) (x ∷ bs) b h =
      let later : 0 < count (n + suc i) (tasks_from (n + 1) bs) =
        subst (λ k. 0 < count k (tasks_from (n + 1) bs)) (omega arith)
          (listed_count (n + 1) i bs b h) in
      omega (arith, later)

  -- When nothing runs any more, the report has a result for every batch: the batch as a success, with the hash to
  -- which one of the answers for it resolved, or as failed, with the error of one that was rejected; and if the
  -- report says success, it is a success.
  pub execute_restore_batches_concurrent-Reports :
      (pool_after concurrency batches events).running ≡ []
      → (i : ℕ) (b : RestoreBatchResult) → get_elem? batches i ≡ some b
      → (let answer = execute_restore_batches_concurrent concurrency batches events in
          (r : RestoreBatchResult) × (get_elem? answer.batches i ≡ some (some r))
          × IsOutcome batches events (i, r)
          × (answer.success ≡ true → is_success r.status ≡ true))
  unfolding execute_restore_batches_concurrent report
  execute_restore_batches_concurrent-Reports done i b listed =
      let p = pool_after concurrency batches events in
      let v = pool_after-Accounts concurrency batches events in
      let nothing_runs : length p.running ≡ 0 = ap length done in
      let nothing_waits : p.waiting ≡ [] =
        no_entries p.waiting (ground (arith, v.slots, v.busy, nothing_runs)) in
      let from_zero : 0 + i ≡ i = omega arith in
      let listed_once : 0 < count i (tasks_from 0 batches) =
        subst (λ k. 0 < count k (tasks_from 0 batches)) from_zero
          (listed_count 0 i batches b listed) in
      let result_of : Task → Option RestoreBatchResult = λ t. Dict.get t.0 p.results in
      let in_report : get_elem? (map result_of (tasks_from 0 batches)) i
          ≡ some (Dict.get i p.results) =
        subst
          (λ k. get_elem? (map result_of (tasks_from 0 batches)) i ≡ some (Dict.get k p.results))
          from_zero (reported result_of 0 i batches b listed) in
      let here : 0 < count i p.results =
        omega (arith, listed_once, v.placed i, ap (count i) done, ap (count i) nothing_waits) in
      let (r, found) = count-get i p.results here in
      (
        r,
        in_report ∙ ap some found,
        Dict.All-get (IsOutcome batches events) i p.results r v.settled found,
        λ good.
            all_succeeded i r p.results
              (sym v.failures ∙ no_entries p.failed_indices (ground (arith, good))) found,
      )
