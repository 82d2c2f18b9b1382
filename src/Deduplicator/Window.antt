-- ===== src/Deduplicator/Window.antt =====
-- `EventDeduplicator`, packages/sdk/src/event-deduplicator.ts, against a memory that forgets nothing: the time
-- at which each sequence was last emitted.
use automated_cross_contract.Prelude.{
  ℕ, ◌+◌, ◌≤◌, ◌<◌, ◌≡◌, refl, sym, ◌∙◌, ap, Bool, true, false, Option, none, some, List, [], ◌∷◌,
  if◌then◌else◌, or_else, ltb, ltb→lt, lt→ltb, filter_b, nat_Eq, nat_eq, arith, Bool-cases,
  Option-cases, inl, inr,
}
use automated_cross_contract.Prelude.Dict
use automated_cross_contract.Prelude.Dict.{Distinct, keys}
use automated_cross_contract.Deduplicator.{
  EventDeduplicator, is_recent, prune_old_entries, is_duplicate, clear, get_size, Call, check, size,
  reset, time, run, empty,
}

abbrev pub Memory : Type 0
Memory = ℕ → Option ℕ

abbrev pub remember : ℕ → ℕ → Memory → Memory
remember now sequence memory = λ k. if nat_eq k sequence then some now else memory k

module _ (window : ℕ) where
  -- a sequence emitted less than a window ago
  abbrev pub emitted_within : ℕ → Option ℕ → Bool
  emitted_within now none = false
  emitted_within now (some t) = ltb now (t + window)

  -- The answers that a run should give: a sequence is a duplicate if its last emission is less than a window
  -- ago, and else it is emitted.
  abbrev pub expected : List Call → Memory → List Bool
  expected [] memory = []
  expected (check now sequence ∷ calls) memory =
      let later = expected calls (remember now sequence memory) in
      let same = expected calls memory in
      if emitted_within now (memory sequence) then true ∷ same else false ∷ later
  expected (size now ∷ calls) memory = expected calls memory
  expected (reset now ∷ calls) memory = expected calls (λ k. none)

-- the clock does not go back
abbrev pub Ticks : ℕ → List Call → Type 0
Ticks now [] = Unit
Ticks now (call ∷ calls) = (now ≤ time call) × Ticks (time call) calls

-- `d` has every emission of the memory that is still within the window, and none of its own
record Tracks (now : ℕ) (d : EventDeduplicator) (memory : Memory) : Type 0 where
  distinct : Distinct (keys d.recent_sequences)
  sound : (k t : ℕ) → Dict.get k d.recent_sequences ≡ some t → memory k ≡ some t
  kept :
      (k t : ℕ) → memory k ≡ some t → now < t + d.window_ms → Dict.get k d.recent_sequences ≡ some t

prune-Tracks :
    (now now' : ℕ) (d : EventDeduplicator) (memory : Memory)
    → now ≤ now'
    → Tracks now d memory
    → Tracks now' (prune_old_entries now' d) memory
unfolding prune_old_entries
prune-Tracks now now' d memory le h = record {
  distinct = Dict.Distinct-filter (is_recent d.window_ms now') d.recent_sequences h.distinct;
  sound = λ k t found. h.sound k t (passed k t found);
  kept = λ k t known alive.
      let here = h.kept k t known (omega arith) in
      filtered k ∙ rw (here, lt→ltb now' (t + d.window_ms) alive) refl;
}
  where
    filtered :
        (k : ℕ)
        → Dict.get k (filter_b (is_recent d.window_ms now') d.recent_sequences)
          ≡ Dict.passing (λ t. ltb now' (t + d.window_ms)) (Dict.get k d.recent_sequences)
    filtered k = Dict.get-filter (is_recent d.window_ms now') k d.recent_sequences h.distinct

    passed :
        (k t : ℕ)
        → Dict.get k (filter_b (is_recent d.window_ms now') d.recent_sequences) ≡ some t
        → Dict.get k d.recent_sequences ≡ some t
    passed k t found = elim (Option-cases (Dict.get k d.recent_sequences)) [
      | inl nothing ↦ absurd (cc (rw (nothing) at (sym (filtered k) ∙ found)))
      | inr (t', there) ↦ elim (Bool-cases (ltb now' (t' + d.window_ms))) [
        | inl alive ↦ there ∙ (rw (there, alive) at (sym (filtered k) ∙ found))
        | inr old ↦ absurd (cc (rw (there, old) at (sym (filtered k) ∙ found)))
      ]
    ]

remember-Tracks :
    (now sequence : ℕ) (d : EventDeduplicator) (memory : Memory)
    → Tracks now d memory
    → Tracks now
        (record d { recent_sequences = Dict.put sequence now d.recent_sequences })
        (remember now sequence memory)
remember-Tracks now sequence d memory h = record {
  distinct = Dict.Distinct-put sequence now d.recent_sequences h.distinct;
  sound = λ k t found.
      ground (arith, Dict.get-put sequence k now d.recent_sequences, h.sound k t, found);
  kept = λ k t known alive.
      ground (arith, Dict.get-put sequence k now d.recent_sequences, h.kept k t, known, alive);
}

forget-Tracks :
    (now now' : ℕ) (d : EventDeduplicator) (memory : Memory) → Tracks now' (clear d) (λ k. none)
forget-Tracks now now' d memory = record {
  distinct = tt;
  sound = λ k t found. absurd cc;
  kept = λ k t known alive. absurd cc;
}

-- the entry that a pruned map has for a sequence is that of the memory, if it is within the window
answer-Tracks :
    (now sequence : ℕ) (d : EventDeduplicator) (memory : Memory)
    → Tracks now (prune_old_entries now d) memory
    → ((is_duplicate now sequence d).0 ≡ emitted_within d.window_ms now (memory sequence))
      × ((is_duplicate now sequence d).1.window_ms ≡ d.window_ms)
      × Tracks now (is_duplicate now sequence d).1 (
          if emitted_within d.window_ms now (memory sequence)
          then memory
          else remember now sequence memory)
unfolding is_duplicate prune_old_entries
answer-Tracks now sequence d memory h =
    let pruned = prune_old_entries now d in
    elim (Option-cases (Dict.get sequence pruned.recent_sequences)) [
      | inl nothing ↦
          let silent : emitted_within d.window_ms now (memory sequence) ≡ false =
            elim (Option-cases (memory sequence)) [
              | inl never ↦ rw never refl
              | inr (t, known) ↦ elim (Bool-cases (ltb now (t + d.window_ms))) [
                | inr old ↦ rw (known, old) refl
                | inl alive ↦
                    absurd
                      (cc (h.kept sequence t known (ltb→lt now (t + d.window_ms) alive), nothing))
              ]
            ] in
          rw (nothing, is_duplicate, silent)
            (refl, refl, remember-Tracks now sequence pruned memory h)
      | inr (t, there) ↦
          let known : memory sequence ≡ some t = h.sound sequence t there in
          elim (Bool-cases (ltb now (t + d.window_ms))) [
            | inl alive ↦ rw (there, is_duplicate, known, alive) (refl, refl, h)
            | inr old ↦
                rw (there, is_duplicate, known, old)
                  (refl, refl, remember-Tracks now sequence pruned memory h)
          ]
    ]

size_Tracks :
    (now : ℕ) (d : EventDeduplicator) (memory : Memory)
    → Tracks now (prune_old_entries now d) memory
    → ((get_size now d).1.window_ms ≡ d.window_ms) × Tracks now (get_size now d).1 memory
unfolding get_size prune_old_entries
size_Tracks now d memory h = (refl, h)

run-expected :
    (calls : List Call) (now : ℕ) (d : EventDeduplicator) (memory : Memory)
    → Ticks now calls
    → Tracks now d memory
    → run calls d ≡ expected d.window_ms calls memory
unfolding run
run-expected [] now d memory ticks h = refl
run-expected (check now' sequence ∷ calls) now d memory (le, ticks) h =
    let (answer, window, next) =
      answer-Tracks now' sequence d memory (prune-Tracks now now' d memory le h) in
    let d' = (is_duplicate now' sequence d).1 in
    elim (Bool-cases (emitted_within d.window_ms now' (memory sequence))) [
      | inl within ↦
          let ih = run-expected calls now' d' memory ticks (rw within at next) in
          rw (answer, within) (ap (◌∷◌ true) (ih ∙ ap (λ w. expected w calls memory) window))
      | inr out ↦
          let later = remember now' sequence memory in
          let ih = run-expected calls now' d' later ticks (rw out at next) in
          rw (answer, out) (ap (◌∷◌ false) (ih ∙ ap (λ w. expected w calls later) window))
    ]
run-expected (size now' ∷ calls) now d memory (le, ticks) h =
    let (window, next) = size_Tracks now' d memory (prune-Tracks now now' d memory le h) in
    run-expected calls now' (get_size now' d).1 memory ticks next
    ∙ ap (λ w. expected w calls memory) window
run-expected (reset now' ∷ calls) now d memory (le, ticks) h =
    run-expected calls now' (clear d) (λ k. none) ticks (forget-Tracks now now' d memory)

-- For a clock that does not go back, any run of calls on a fresh deduplicator answers like the memory that never
-- forgets: an event is a duplicate exactly if its sequence was last emitted less than a window ago, whatever
-- has been pruned meanwhile; `clear` forgets all emissions.
pub run_refines :
    (window : Option ℕ) (calls : List Call)
    → Ticks 0 calls
    → run calls (empty window) ≡ expected (or_else window 2000) calls (λ k. none)
run_refines window calls ticks =
    run-expected calls 0 (empty window) (λ k. none) ticks
      (forget-Tracks 0 0 (empty window) (λ k. none))
