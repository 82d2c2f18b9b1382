-- ===== src/Deduplicator.antt =====
-- packages/sdk/src/event-deduplicator.ts: `EventDeduplicator`. The map of the recent sequences is a list of
-- entries (sequence, time of emission); the clock (`Date.now()`) is an argument. A test `now - t < window`
-- is written `now < t + window`, since a difference of natural numbers stops at 0.
mod Window
mod Tests
use automated_cross_contract.Prelude.{
  ℕ, ◌+◌, Bool, true, false, Option, none, some, List, [], ◌∷◌, if◌then◌else◌, ltb, filter_b,
  length, nat_Eq, or_else,
}
use automated_cross_contract.Prelude.Dict

pub record EventDeduplicator : Type 0 where
  pub recent_sequences : List (ℕ × ℕ)
  pub window_ms : ℕ

-- the constructor, from `config.windowMs`
abbrev pub empty : Option ℕ → EventDeduplicator
empty window = record { recent_sequences = []; window_ms = or_else window 2000 }

-- what `pruneOldEntries` keeps
abbrev pub is_recent : ℕ → ℕ → ℕ × ℕ → Bool
is_recent window now (sequence, emitted_at) = ltb now (emitted_at + window)

unfoldable pub prune_old_entries : ℕ → EventDeduplicator → EventDeduplicator
prune_old_entries now d = record d {
  recent_sequences = filter_b (is_recent d.window_ms now) d.recent_sequences;
}

unfoldable pub is_duplicate : ℕ → ℕ → EventDeduplicator → Bool × EventDeduplicator
unfolding prune_old_entries
is_duplicate now sequence d =
    let pruned = prune_old_entries now d in
    let emitted = record pruned {
      recent_sequences = Dict.put sequence now pruned.recent_sequences;
    } in
    elim (Dict.get sequence pruned.recent_sequences) [
      | none ↦ (false, emitted)
      | some emitted_at ↦
          if ltb now (emitted_at + pruned.window_ms) then (true, pruned) else (false, emitted)
    ]

abbrev pub clear : EventDeduplicator → EventDeduplicator
clear d = record d { recent_sequences = [] }

unfoldable pub get_size : ℕ → EventDeduplicator → ℕ × EventDeduplicator
unfolding prune_old_entries
get_size now d = let pruned = prune_old_entries now d in (length pruned.recent_sequences, pruned)

-- the calls that may come, each with the time of the clock
pub data Call : Type 0 where
  check : ℕ → ℕ → Call
  size : ℕ → Call
  reset : ℕ → Call

abbrev pub time : Call → ℕ
time (check now sequence) = now
time (size now) = now
time (reset now) = now

-- the answers of `isDuplicate` in a run of calls
pub run : List Call → EventDeduplicator → List Bool
unfolding is_duplicate get_size
run [] d = []
run (check now sequence ∷ calls) d =
    let (answer, next) = is_duplicate now sequence d in answer ∷ run calls next
run (size now ∷ calls) d = run calls (get_size now d).1
run (reset now ∷ calls) d = run calls (clear d)
