-- ===== src/Simulations/Tests.antt =====
-- Runs of the simulation cache, and the theorems at concrete caches.
use mathlib.Core.Bool.{false≢true}
use automated_cross_contract.Prelude.{
  sym, ◌∙◌, ℕ, ◌≡◌, ◌≢◌, refl, false, List, [], ◌∷◌, String, arith, map, string_Eq, ◌==◌,
}
use automated_cross_contract.Simulations.{
  CacheEntry, SimulationCache, new_cache, get, evict_lru, fresh_entry, set, get_statistics, has,
}
use automated_cross_contract.Simulations.Recency.{
  Operation, get_op, set_op, run, IsValid, run-IsValid,
}

program : Unit {0}
unfolding get evict_lru set get_statistics has
program = tt

abbrev empty : SimulationCache ℕ
empty = new_cache 2 100

abbrev operations : List (ℕ × Operation ℕ)
operations =
    (1, set_op "a" 7)
    ∷ (2, set_op "b" 8)
    ∷ (3, get_op "a")
    ∷ (4, set_op "c" 9)
    ∷ (5, get_op "b")
    ∷ []

abbrev newer : List (String × CacheEntry ℕ)
newer = ("c", fresh_entry 4 9 100) ∷ []

abbrev entries : List (String × CacheEntry ℕ)
entries = ("b", fresh_entry 2 8 100) ∷ newer

abbrev full : SimulationCache ℕ
full = record empty { cache = entries }

-- `b` was used least recently
evicts_b : map (λ e. e.0) (run operations empty).cache ≡ "a" ∷ "c" ∷ []
unfolding program
evicts_b = refl

counts : (get_statistics 103 (run operations empty)).0.size ≡ 1
unfolding program
counts = refl

empty-IsValid : IsValid 0 empty
empty-IsValid = record {
  positive = omega arith;
  bounded = omega arith;
  distinct = tt;
  ordered = tt;
  past = tt;
}

differ : (a b : String) → (a == b) ≡ false → a ≢ b
differ a b h same = absurd (false≢true (sym h ∙ (string_Eq.beq_iff a b).1 same))

full-IsValid : IsValid 5 full
full-IsValid = record {
  positive = omega arith;
  bounded = omega arith;
  distinct = ((differ "b" "c" refl, tt), (tt, tt));
  ordered = ((omega arith, tt), (tt, tt));
  past = (omega arith, (omega arith, tt));
}

run-IsValid_example : IsValid 5 (run operations empty)
run-IsValid_example =
    run-IsValid 0 operations empty empty-IsValid
      (omega arith, (omega arith, (omega arith, (omega arith, (omega arith, tt)))))
