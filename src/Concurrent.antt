-- ===== src/Concurrent.antt =====
-- packages/sdk/src/soroban-resurrect.ts, `executeRestoreBatchesConcurrent`: the semaphore, and the batches
-- as tasks. All tasks ask for a slot in the order of the batches; then the submissions in flight are
-- answered in any order. A state holds the variables of the call; `running` are the tasks that hold a
-- slot, and `waiting` the queue behind its head (`queue.slice(queueHead)`).
pub mod Accounts
mod Completion
pub mod Report
mod Tests
use automated_cross_contract.Prelude.{
  ℕ, zero, suc, ◌+◌, ◌-◌, Bool, true, false, Option, none, some, List, [], ◌∷◌, ◌++◌, map, String,
  if◌then◌else◌, ltb, leb, nat_eq, length, get_elem?, filter_b, ◌==◌, nat_Eq, ◌+s◌, decimal,
  or_else,
}
use automated_cross_contract.Prelude.Dict
use automated_cross_contract.Prelude.Order.{sort_by}
use automated_cross_contract.Submission.{Answer, resolved, rejected, message}
use automated_cross_contract.Execution.{RestoreBatchResult, succeeded, marked_failed}

pub record ConcurrentRestoreResult : Type 0 where
  pub success : Bool
  pub batches : List (Option RestoreBatchResult)
  pub total_keys_restored : ℕ
  pub failed_batch_count : ℕ
  pub failed_batch_indices : List ℕ
  pub error : Option String
  pub concurrency_used : ℕ

-- a batch with its index
abbrev pub Task : Type 0
Task = ℕ × RestoreBatchResult

pub record Pool : Type 0 where
  pub active : ℕ
  pub running : List Task
  pub waiting : List Task
  pub results : List (ℕ × RestoreBatchResult)
  pub total_keys_restored : ℕ
  pub failed_indices : List ℕ

-- `Math.max(1, concurrency ?? …)`
abbrev pub limit_of : ℕ → ℕ
limit_of n = if ltb n 1 then 1 else n

module _ (limit : ℕ) where
  unfoldable pub acquire : Task → Pool → Pool
  acquire task p =
      if ltb p.active limit
      then record p { active = p.active + 1; running = p.running ++ task ∷ [] }
      else record p { waiting = p.waiting ++ task ∷ [] }

  pub acquire_all : List Task → Pool → Pool
  unfolding acquire
  acquire_all [] p = p
  acquire_all (task ∷ tasks) p = acquire_all tasks (acquire task p)

-- the head of the queue, if any, takes the slot
unfoldable pub release : Pool → Pool
release p = elim p.waiting [
  | [] ↦ record p { active = p.active - 1 }
  | next ∷ rest ↦ record p {
    active = p.active - 1 + 1;
    running = p.running ++ next ∷ [];
    waiting = rest;
  }
]

-- `batches.map((batch, i) => …)`, from an index on
abbrev pub tasks_from : ℕ → List RestoreBatchResult → List Task
tasks_from i [] = []
tasks_from i (batch ∷ batches) = (i, batch) ∷ tasks_from (i + 1) batches

-- the assignments of `runBatch` behind the answer to its submission
unfoldable pub settle : Task → Answer String → Pool → Pool
settle (idx, batch) (resolved tx_hash) p = record p {
  results = Dict.put idx (succeeded batch tx_hash) p.results;
  total_keys_restored = p.total_keys_restored + batch.keys_restored;
}
settle (idx, batch) (rejected e) p = record p {
  results = Dict.put idx (marked_failed batch e) p.results;
  failed_indices = p.failed_indices ++ idx ∷ [];
}

-- The submission of the running task `idx` is answered; the task leaves, and its slot is released.
unfoldable pub finish_task : ℕ → Answer String → Pool → Pool
unfolding release settle
finish_task idx answer p = elim (Dict.get idx p.running) [
  | none ↦ p
  | some batch ↦
      release (settle (idx, batch) answer (record p { running = Dict.remove idx p.running }))
]

pub finish_all : List (ℕ × Answer String) → Pool → Pool
unfolding finish_task
finish_all [] p = p
finish_all ((idx, answer) ∷ events) p = finish_all events (finish_task idx answer p)

abbrev pub idle : Pool
idle = record {
  active = 0;
  running = [];
  waiting = [];
  results = [];
  total_keys_restored = 0;
  failed_indices = [];
}

unfoldable pub begin : ℕ → List RestoreBatchResult → Pool
unfolding acquire_all
begin limit batches = acquire_all limit (tasks_from 0 batches) idle

-- `indices.join(', ')`
abbrev pub join : List ℕ → String
join [] = ""
join (i ∷ []) = decimal i
join (i ∷ j ∷ is) = decimal i +s ", " +s join (j ∷ is)

unfoldable pub report : ℕ → List RestoreBatchResult → Pool → ConcurrentRestoreResult
report limit batches p =
    let failures = length p.failed_indices in
    let success = nat_eq failures 0 in
    record {
      success = success;
      batches = map (λ t. Dict.get t.0 p.results) (tasks_from 0 batches);
      total_keys_restored = p.total_keys_restored;
      failed_batch_count = failures;
      failed_batch_indices = sort_by (λ i. i) p.failed_indices;
      error =
          if success
          then none
          else some (
              decimal failures
              +s " of "
              +s decimal (length batches)
              +s " restore batches failed (indices: "
              +s join p.failed_indices
              +s ")");
      concurrency_used = limit;
    }

-- the run in which the submissions are answered in the order of `events`
unfoldable pub execute_restore_batches_concurrent :
    ℕ → List RestoreBatchResult → List (ℕ × Answer String) → ConcurrentRestoreResult
unfolding begin finish_all report
execute_restore_batches_concurrent concurrency batches events =
    let limit = limit_of concurrency in
    report limit batches (finish_all events (begin limit batches))
