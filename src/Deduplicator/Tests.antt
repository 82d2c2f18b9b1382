-- ===== src/Deduplicator/Tests.antt =====
-- Runs of the deduplicator.
use automated_cross_contract.Prelude.{◌≡◌, refl, true, false, none, some, List, [], ◌∷◌}
use native.Mathlib.Omega.{arith}
use automated_cross_contract.Deduplicator.{empty, Call, check, size, reset, run}
use automated_cross_contract.Deduplicator.Window.{expected, run_refines}

abbrev calls : List Call
calls =
    check 100 7 ∷ check 150 7 ∷ check 160 8 ∷ size 180 ∷ check 200 7 ∷ reset 210 ∷ check 220 8 ∷ []

answers : run calls (empty (some 100)) ≡ false ∷ true ∷ false ∷ false ∷ false ∷ []
unfolding run
answers = refl

run_refines_example : run calls (empty (some 100)) ≡ expected 100 calls (λ k. none)
run_refines_example = run_refines (some 100) calls (
  omega arith,
  (omega arith, (omega arith, (omega arith, (omega arith, (omega arith, (omega arith, tt)))))),
)
