-- ===== src/Concurrent/Accounts.antt =====
-- Where each task of `executeRestoreBatchesConcurrent`, packages/sdk/src/soroban-resurrect.ts, stands: not
-- asked for a slot yet, waiting, running, or settled.
use automated_cross_contract.Prelude.{
  ℕ, suc, ◌+◌, ◌≤◌, ◌<◌, ◌≡◌, refl, subst, some, List, [], ◌∷◌, ◌++◌, String, if◌then◌else◌, ltb,
  nat_eq, length, length-append, get_elem?, All, All-snoc, arith, Bool-cases, inl, inr, ◌⊎◌, nat_Eq,
}
use automated_cross_contract.Prelude.Dict
use automated_cross_contract.Submission.{Answer, resolved, rejected, Failure}
use automated_cross_contract.Execution.{RestoreBatchResult, succeeded, marked_failed, is_success}
use automated_cross_contract.Concurrent.{Task, Pool, acquire, acquire_all, tasks_from, idle, begin}

abbrev pub count : ℕ → List Task → ℕ
count i [] = 0
count i ((j, b) ∷ l) = (if nat_eq i j then 1 else 0) + count i l

pub count-append : (i : ℕ) (xs ys : List Task) → count i (xs ++ ys) ≡ count i xs + count i ys
count-append i [] ys = omega arith
count-append i ((j, b) ∷ xs) ys = omega (arith, count-append i xs ys)

pub count-remove :
    (i j : ℕ) (l : List Task) → count i (Dict.remove j l) ≡ (if nat_eq i j then 0 else count i l)
count-remove i j [] = ground arith
count-remove i j ((k, b) ∷ l) = ground (arith, count-remove i j l)

pub length-remove : (i : ℕ) (l : List Task) → length (Dict.remove i l) + count i l ≡ length l
length-remove i [] = omega arith
length-remove i ((k, b) ∷ l) = ground (arith, length-remove i l)

pub get-count :
    (i : ℕ) (b : RestoreBatchResult) (l : List Task) → Dict.get i l ≡ some b → 0 < count i l
get-count i b [] h = cc
get-count i b ((k, x) ∷ l) h = ground (arith, get-count i b l)

pub count-get :
    (i : ℕ) (l : List Task) → 0 < count i l → (b : RestoreBatchResult) × (Dict.get i l ≡ some b)
count-get i [] h = absurd (omega (arith, h))
count-get i ((k, x) ∷ l) h = elim (Bool-cases (nat_eq i k)) [
  | inl same ↦ (x, rw same refl)
  | inr other ↦ let (b, found) = count-get i l (ground arith) in (b, rw other found)
]

-- a batch of the list, with its index
abbrev pub IsTask : List RestoreBatchResult → Task → Type 0
IsTask batches t = get_elem? batches t.0 ≡ some t.1

-- some answers, by the index of the batch
abbrev pub Answers : Type 0
Answers = List (ℕ × Answer String)

abbrev pub IsAmong : ℕ × Answer String → Answers → Type 0
IsAmong a [] = ⊥
IsAmong a (x ∷ xs) = (a ≡ x) ⊎ IsAmong a xs

-- a batch of the list with what became of it: confirmed with the hash of an answer for it, or failed with the
-- error of one
abbrev pub IsOutcome : List RestoreBatchResult → Answers → Task → Type 0
IsOutcome batches heard t =
    (b : RestoreBatchResult) × (get_elem? batches t.0 ≡ some b)
    × (((h : String) × IsAmong (t.0, resolved h) heard × (t.1 ≡ succeeded b h))
        ⊎ ((e : Failure) × IsAmong (t.0, rejected e) heard × (t.1 ≡ marked_failed b e)))

-- the keys of the confirmed batches, and the indexes of the others
abbrev pub restored_keys : List Task → ℕ
restored_keys [] = 0
restored_keys ((i, b) ∷ l) = (if is_success b.status then b.keys_restored else 0) + restored_keys l

abbrev pub failed_of : List Task → List ℕ
failed_of [] = []
failed_of ((i, b) ∷ l) = if is_success b.status then failed_of l else i ∷ failed_of l

-- The state of the pool while `todo` has not asked for a slot.
pub record Accounts (limit : ℕ) (batches : List RestoreBatchResult) (heard : Answers)
    (todo : List Task) (p : Pool) : Type 0 where
  pub slots : p.active ≡ length p.running
  pub bounded : p.active ≤ limit
  pub busy : 0 < length p.waiting → p.active ≡ limit
  pub placed :
      (i : ℕ)
      → count i todo + count i p.waiting + count i p.running + count i p.results
        ≡ count i (tasks_from 0 batches)
  pub together :
      length todo + length p.waiting + length p.running + length p.results ≡ length batches
  pub runs : All (IsTask batches) p.running
  pub waits : All (IsTask batches) p.waiting
  pub settled : All (IsOutcome batches heard) p.results
  pub total : p.total_keys_restored ≡ restored_keys p.results
  pub failures : p.failed_indices ≡ failed_of p.results

length-tasks_from : (n : ℕ) (bs : List RestoreBatchResult) → length (tasks_from n bs) ≡ length bs
length-tasks_from n [] = refl
length-tasks_from n (b ∷ bs) = omega (arith, length-tasks_from (n + 1) bs)

module _ (batches : List RestoreBatchResult) where
  tasks-All :
      (P : Task → Type 0) (n : ℕ) (bs : List RestoreBatchResult)
      → ((k : ℕ) (b : RestoreBatchResult) → get_elem? bs k ≡ some b → P (n + k, b))
      → All P (tasks_from n bs)
  tasks-All P n [] h = tt
  tasks-All P n (b ∷ bs) h = (
    subst (λ i. P (i, b)) (omega arith) (h 0 b refl),
    tasks-All P (n + 1) bs (λ k x found. subst (λ i. P (i, x)) (omega arith) (h (suc k) x found)),
  )

  tasks-IsTask : All (IsTask batches) (tasks_from 0 batches)
  tasks-IsTask =
      tasks-All (IsTask batches) 0 batches
        (λ k b found. subst (λ i. get_elem? batches i ≡ some b) (omega arith) found)

  none_before : (i n : ℕ) (bs : List RestoreBatchResult) → i < n → count i (tasks_from n bs) ≡ 0
  none_before i n [] h = refl
  none_before i n (b ∷ bs) h = ground (arith, none_before i (n + 1) bs)

  pub once : (i n : ℕ) (bs : List RestoreBatchResult) → count i (tasks_from n bs) ≤ 1
  once i n [] = omega arith
  once i n (b ∷ bs) = ground (arith, none_before i (n + 1) bs, once i (n + 1) bs)

  module _ (limit : ℕ) (heard : Answers) where
    acquire-Accounts :
        (t : Task) (todo : List Task) (p : Pool)
        → IsTask batches t
        → Accounts limit batches heard (t ∷ todo) p
        → Accounts limit batches heard todo (acquire limit t p)
    unfolding acquire
    acquire-Accounts t todo p is v = elim (Bool-cases (ltb p.active limit)) [
      | inl free ↦
          rw (free, acquire)
            (record {
              slots = omega (arith, v.slots, length-append p.running (t ∷ []));
              bounded = ground arith;
              busy = λ h. absurd (ground (arith, v.busy h));
              placed = λ i. omega (arith, v.placed i, count-append i p.running (t ∷ []));
              together = omega (arith, v.together, length-append p.running (t ∷ []));
              runs = All-snoc (IsTask batches) p.running t v.runs is;
              waits = v.waits;
              settled = v.settled;
              total = v.total;
              failures = v.failures;
            })
      | inr full ↦
          rw (full, acquire)
            (record {
              slots = v.slots;
              bounded = v.bounded;
              busy = λ h. ground (arith, v.bounded);
              placed = λ i. omega (arith, v.placed i, count-append i p.waiting (t ∷ []));
              together = omega (arith, v.together, length-append p.waiting (t ∷ []));
              runs = v.runs;
              waits = All-snoc (IsTask batches) p.waiting t v.waits is;
              settled = v.settled;
              total = v.total;
              failures = v.failures;
            })
    ]

    acquire_all-Accounts :
        (todo : List Task) (p : Pool)
        → All (IsTask batches) todo
        → Accounts limit batches heard todo p
        → Accounts limit batches heard [] (acquire_all limit todo p)
    unfolding acquire_all
    acquire_all-Accounts [] p h v = v
    acquire_all-Accounts (t ∷ todo) p (is, h) v =
        acquire_all-Accounts todo (acquire limit t p) h (acquire-Accounts t todo p is v)

    -- All tasks have asked for a slot.
    pub begin-Accounts : Accounts limit batches heard [] (begin limit batches)
    unfolding begin
    begin-Accounts = acquire_all-Accounts (tasks_from 0 batches) idle tasks-IsTask (record {
      slots = refl;
      bounded = omega arith;
      busy = λ h. absurd (omega (arith, h));
      placed = λ i. omega arith;
      together = omega (arith, length-tasks_from 0 batches);
      runs = tt;
      waits = tt;
      settled = tt;
      total = refl;
      failures = refl;
    })
