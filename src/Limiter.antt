-- ===== src/Limiter.antt =====
-- packages/rpc/src/concurrency.ts: `createConcurrencyLimiter`. A task is a number; `running` are the tasks
-- that hold a slot, in the order in which they got it. `run` asks for a slot; when the task has ended,
-- `release` is called.
mod Fairness
mod Tests
use automated_cross_contract.Prelude.{
  ℕ, zero, suc, ◌+◌, ◌-◌, Bool, true, false, Option, none, some, List, [], ◌∷◌, ◌++◌, if◌then◌else◌,
  ltb, length, filter_b, nat_eq, not,
}

pub record ConcurrencyLimiter : Type 0 where
  pub max_concurrent : ℕ
  pub active : ℕ
  pub queue : List ℕ
  pub running : List ℕ
  pub started : List ℕ  -- all tasks that were ever started, in order

-- `none` is the `RangeError`
unfoldable pub create_concurrency_limiter : ℕ → Option ConcurrencyLimiter
create_concurrency_limiter max =
    if ltb max 1
    then none
    else some (record { max_concurrent = max; active = 0; queue = []; running = []; started = [] })

abbrev pub start : ℕ → ConcurrencyLimiter → ConcurrencyLimiter
start task l = record l { running = l.running ++ task ∷ []; started = l.started ++ task ∷ [] }

unfoldable pub acquire : ℕ → ConcurrencyLimiter → ConcurrencyLimiter
acquire task l =
    if ltb l.active l.max_concurrent
    then start task (record l { active = l.active + 1 })
    else record l { queue = l.queue ++ task ∷ [] }

unfoldable pub release : ConcurrencyLimiter → ConcurrencyLimiter
release l = elim l.queue [
  | [] ↦ record l { active = l.active - 1 }
  | next ∷ rest ↦ start next (record l { queue = rest })
]

abbrev pub pending : ConcurrencyLimiter → ℕ
pending l = length l.queue

-- a call of `run`, or the end of the running task at a place of `running`
pub data Event : Type 0 where
  submit : ℕ → Event
  end_of : ℕ → Event

-- the list without the element at a place
abbrev pub without : ℕ → List ℕ → List ℕ
without i [] = []
without zero (x ∷ xs) = xs
without (suc i) (x ∷ xs) = x ∷ without i xs

-- An end at a place where no task runs is no event.
unfoldable pub step : Event → ConcurrencyLimiter → ConcurrencyLimiter
unfolding acquire release
step (submit task) l = acquire task l
step (end_of i) l =
    if ltb i (length l.running) then release (record l { running = without i l.running }) else l

pub steps : List Event → ConcurrencyLimiter → ConcurrencyLimiter
unfolding step
steps [] l = l
steps (e ∷ es) l = steps es (step e l)

-- the tasks submitted, in order
abbrev pub submitted : List Event → List ℕ
submitted [] = []
submitted (submit task ∷ es) = task ∷ submitted es
submitted (end_of i ∷ es) = submitted es
