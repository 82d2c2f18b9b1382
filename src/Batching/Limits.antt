-- ===== src/Batching/Limits.antt =====
-- The contents of the batches of `batchKeys`, packages/sdk/src/soroban-resurrect.ts, against its limits.
use automated_cross_contract.Prelude.{
  ℕ, suc, ◌+◌, ◌*◌, ◌-◌, ◌≤◌, ◌<◌, ◌≡◌, sym, ap, ◌∙◌, ◌⊎◌, inl, inr, true, false, some, List, [],
  ◌∷◌, ◌++◌, append-nil, append_assoc, arith, length, length-append, concat, concat-snoc,
  Bool-cases, lt→ltb, ltb, subst,
}
use native.Mathlib.Decide.{dec_lt}
use automated_cross_contract.Footprint.{ArchivedKey}
use automated_cross_contract.Batching.{
  Config, Simulation, Planner, text_length, max_xdr_size_bytes, header_overhead, max_batch_size,
  estimate_restore_fee, fee_budget_exceeded, starts_new_batch, plan_key, plan_keys, finish, start,
  batch_keys,
}

-- the bytes of a batch's keys
abbrev pub payload : List ArchivedKey → ℕ
payload [] = 0
payload (k ∷ ks) = text_length k.key_base64 + payload ks

payload-append : (xs ys : List ArchivedKey) → payload (xs ++ ys) ≡ payload xs + payload ys
payload-append [] ys = omega arith
payload-append (x ∷ xs) ys = omega (arith, payload-append xs ys)

-- all keys that the planner holds
abbrev held : Planner → List ArchivedKey
held p = concat p.batches ++ p.current_batch

held-finish :
    (bs : List (List ArchivedKey)) (cur : List ArchivedKey) (size seen : ℕ)
    → concat
        (finish (record { batches = bs; current_batch = cur; current_size = size; seen = seen }))
      ≡ concat bs ++ cur
unfolding finish
held-finish bs [] size seen = sym (append-nil _)
held-finish bs (k ∷ ks) size seen =
    rw (lt→ltb 0 (suc (length ks)) (omega arith)) (concat-snoc bs (k ∷ ks))

module _ (c : Config) (simulate : ℕ → Simulation) where
  held-plan_key :
      (p : Planner) (k : ArchivedKey) → held (plan_key c simulate p k) ≡ held p ++ k ∷ []
  unfolding plan_key
  held-plan_key p k = elim (Bool-cases (starts_new_batch c simulate p k)) [
    | inl new ↦ rw (new, plan_key) (simp concat-snoc)
    | inr same ↦
        rw (same, plan_key) (sym (append_assoc (concat p.batches) p.current_batch (k ∷ [])))
  ]

  held-plan_keys :
      (p : Planner) (ks : List ArchivedKey) → held (plan_keys c simulate p ks) ≡ held p ++ ks
  unfolding plan_keys
  held-plan_keys p [] = sym (append-nil _)
  held-plan_keys p (k ∷ ks) =
      held-plan_keys (plan_key c simulate p k) ks
      ∙ ap (λ h. h ++ ks) (held-plan_key p k)
      ∙ append_assoc (held p) (k ∷ []) ks

  -- Batching loses, repeats and reorders no key: the batches, one after the other, are the keys.
  pub concat-batch_keys : (keys : List ArchivedKey) → concat (batch_keys c simulate keys) ≡ keys
  unfolding batch_keys
  concat-batch_keys keys =
      let p = plan_keys c simulate start keys in
      held-finish p.batches p.current_batch p.current_size p.seen ∙ held-plan_keys start keys

  -- The estimates asked for the keys behind the first, of a batch with `n` keys before it.
  abbrev WithinBudget : ℕ → ℕ → Type 0
  WithinBudget n len =
      (budget i : ℕ)
      → c.max_restore_fee_stroops ≡ some budget
      → 0 < i
      → i < len
      → estimate_restore_fee c (simulate (n + i)) ≤ budget

  -- What each batch keeps, `n` keys standing before it: it is not empty and has at most the
  -- configured number of keys; if it has several, their text and headers fit the size limit; and
  -- each of them but the first was added at an estimated fee within the budget, if there is one.
  pub record Fits (n : ℕ) (b : List ArchivedKey) : Type 0 where
    pub nonempty : 0 < length b
    pub counted : length b ≤ max_batch_size c
    pub sized : (length b ≤ 1) ⊎ (payload b + header_overhead * (length b - 1) ≤ max_xdr_size_bytes)
    pub budgeted : WithinBudget n (length b)

  abbrev pub AllFit : ℕ → List (List ArchivedKey) → Type 0
  AllFit n [] = Unit
  AllFit n (b ∷ bs) = Fits n b × AllFit (n + length b) bs

  AllFit-snoc :
      (n : ℕ) (bs : List (List ArchivedKey)) (b : List ArchivedKey)
      → AllFit n bs
      → Fits (n + length (concat bs)) b
      → AllFit n (bs ++ b ∷ [])
  AllFit-snoc n [] b h f = (subst (λ m. Fits m b) (omega arith) f, tt)
  AllFit-snoc n (a ∷ bs) b (g, h) f = (
    g,
    AllFit-snoc (n + length a) bs b h
        (subst (λ m. Fits m b) (omega (arith, length-append a (concat bs))) f),
  )

  -- the invariant of the loop
  record Plans (p : Planner) : Type 0 where
    fit : AllFit 0 p.batches
    position : p.seen ≡ length (concat p.batches) + length p.current_batch
    counted : length p.current_batch ≤ max_batch_size c
    weighed :
        payload p.current_batch + header_overhead * (length p.current_batch - 1) ≤ p.current_size
    sized : (length p.current_batch ≤ 1) ⊎ (p.current_size ≤ max_xdr_size_bytes)
    budgeted : WithinBudget (length (concat p.batches)) (length p.current_batch)

  Plans-Fits :
      (p : Planner)
      → Plans p
      → 0 < length p.current_batch
      → Fits (length (concat p.batches)) p.current_batch
  Plans-Fits p h l = record {
    nonempty = l;
    counted = h.counted;
    sized = ground arith;
    budgeted = h.budgeted;
  }

  max_batch_size_pos : 0 < max_batch_size c
  unfolding max_batch_size
  max_batch_size_pos = ground arith

  new_nonempty :
      (p : Planner) (k : ArchivedKey)
      → starts_new_batch c simulate p k ≡ true
      → 0 < length p.current_batch
  unfolding starts_new_batch
  new_nonempty p k h = ground arith

  within_budget :
      (p : Planner) (budget : ℕ)
      → fee_budget_exceeded c simulate p ≡ false
      → c.max_restore_fee_stroops ≡ some budget
      → 0 < length p.current_batch
      → estimate_restore_fee c (simulate p.seen) ≤ budget
  unfolding fee_budget_exceeded
  within_budget p budget h e l = ground arith

  -- what a key that joins the batch has passed
  joins :
      (p : Planner) (k : ArchivedKey)
      → starts_new_batch c simulate p k ≡ false
      → 0 < length p.current_batch
      → (p.current_size + text_length k.key_base64 + header_overhead ≤ max_xdr_size_bytes)
        × (length p.current_batch < max_batch_size c)
        × (fee_budget_exceeded c simulate p ≡ false)
  unfolding starts_new_batch
  joins p k h l = ground arith

  one-Plans :
      (bs : List (List ArchivedKey)) (k : ArchivedKey) (seen : ℕ)
      → AllFit 0 bs
      → seen ≡ length (concat bs) + 1
      → (size : ℕ) → text_length k.key_base64 ≤ size
      → Plans (record { batches = bs; current_batch = k ∷ []; current_size = size; seen = seen })
  one-Plans bs k seen f e size w = record {
    fit = f;
    position = e;
    counted = omega (arith, max_batch_size_pos);
    weighed = omega arith;
    sized = omega arith;
    budgeted = λ budget i _ lo hi. absurd (omega arith);
  }

  joined_budgeted :
      (p : Planner) (k : ArchivedKey)
      → Plans p
      → starts_new_batch c simulate p k ≡ false
      → 0 < length p.current_batch
      → WithinBudget (length (concat p.batches)) (length p.current_batch + 1)
  joined_budgeted p k h same l budget i e lo hi = elim (dec_lt i (length p.current_batch)) [
    | yes old ↦ h.budgeted budget i e lo old
    | no last ↦
        subst (λ n. estimate_restore_fee c (simulate n) ≤ budget) (omega (arith, h.position))
          (within_budget p budget (joins p k same l).2 e l)
  ]

  join-Plans :
      (p : Planner) (k : ArchivedKey)
      → Plans p
      → starts_new_batch c simulate p k ≡ false
      → 0 < length p.current_batch
      → Plans (record {
        batches = p.batches;
        current_batch = p.current_batch ++ k ∷ [];
        current_size = p.current_size + text_length k.key_base64 + header_overhead;
        seen = p.seen + 1;
      })
  join-Plans p k h same l =
      let len = length-append p.current_batch (k ∷ []) in
      let bytes = payload-append p.current_batch (k ∷ []) in
      let facts = joins p k same l in
      record {
        fit = h.fit;
        position = omega arith;
        counted = omega arith;
        weighed = omega arith;
        sized = omega arith;
        budgeted =
            subst (WithinBudget (length (concat p.batches))) (sym len)
              (joined_budgeted p k h same l);
      }

  same-Plans :
      (bs : List (List ArchivedKey)) (cur : List ArchivedKey) (size seen : ℕ) (k : ArchivedKey)
      → (let p : Planner = record {
        batches = bs;
        current_batch = cur;
        current_size = size;
        seen = seen;
      } in
          Plans p
          → starts_new_batch c simulate p k ≡ false
          → Plans (record {
            batches = bs;
            current_batch = cur ++ k ∷ [];
            current_size = size + text_length k.key_base64 + header_overhead;
            seen = seen + 1;
          }))
  same-Plans bs [] size seen k h same =
      one-Plans bs k (seen + 1) h.fit (omega (arith, h.position))
        (size + text_length k.key_base64 + header_overhead) (omega arith)
  same-Plans bs (j ∷ js) size seen k h same = join-Plans _ k h same (omega arith)

  plan_key-Plans : (p : Planner) (k : ArchivedKey) → Plans p → Plans (plan_key c simulate p k)
  unfolding plan_key
  plan_key-Plans p k h = elim (Bool-cases (starts_new_batch c simulate p k)) [
    | inl new ↦
        rw (new, plan_key)
          (one-Plans (p.batches ++ p.current_batch ∷ []) k (p.seen + 1)
            (AllFit-snoc 0 p.batches p.current_batch h.fit (
              subst (λ n. Fits n p.current_batch) (omega arith)
                (Plans-Fits p h (new_nonempty p k new))))
            (omega (
              arith,
              h.position,
              ap length (concat-snoc p.batches p.current_batch),
              length-append (concat p.batches) p.current_batch,
            ))
            (text_length k.key_base64) (omega arith))
    | inr same ↦
        rw (same, plan_key) (same-Plans p.batches p.current_batch p.current_size p.seen k h same)
  ]

  plan_keys-Plans :
      (p : Planner) (ks : List ArchivedKey) → Plans p → Plans (plan_keys c simulate p ks)
  unfolding plan_keys
  plan_keys-Plans p [] h = h
  plan_keys-Plans p (k ∷ ks) h = plan_keys-Plans (plan_key c simulate p k) ks (plan_key-Plans p k h)

  finish-AllFit : (p : Planner) → Plans p → AllFit 0 (finish p)
  unfolding finish
  finish-AllFit p h = elim (Bool-cases (ltb 0 (length p.current_batch))) [
    | inl some_left ↦ rw some_left (
        AllFit-snoc 0 p.batches p.current_batch h.fit
          (subst (λ n. Fits n p.current_batch) (omega arith) (Plans-Fits p h (ground arith))))
    | inr nothing_left ↦ rw nothing_left h.fit
  ]

  -- Every planned batch has a key and at most the configured number of keys; one of several keys
  -- has its text and headers within the size limit of a transaction; and every key of it but the
  -- first was added at an estimated fee within the budget, if a budget is configured.
  pub batch_keys-AllFit : (keys : List ArchivedKey) → AllFit 0 (batch_keys c simulate keys)
  unfolding batch_keys
  batch_keys-AllFit keys = finish-AllFit (plan_keys c simulate start keys) (
      plan_keys-Plans start keys (record {
        fit = tt;
        position = omega arith;
        counted = omega arith;
        weighed = omega arith;
        sized = omega arith;
        budgeted = λ budget i _ lo hi. absurd (omega arith);
      }))
