-- ===== src/Reads/Tests.antt =====
-- Reads that overlap.
use automated_cross_contract.Prelude.{
  ℕ, ◌≡◌, refl, Option, some, List, [], ◌∷◌, String, if◌then◌else◌, nat_eq, string_Eq,
}
use mathlib.Core.List.{Perm}
use automated_cross_contract.Prelude.Dict.{Distinct}
use automated_cross_contract.Prelude.Members.{is_in}
use automated_cross_contract.Reads.{idle, Read, start, settle, results}
use automated_cross_contract.Reads.Joined.{Joins, start-Joins}
use automated_cross_contract.Reads.Results.{Ledger, found, results-start}

program : Unit {0}
unfolding start results settle
program = tt

-- the first read is in flight, and the second one shares a key with it
abbrev first : Read
first = start ("a" ∷ "b" ∷ "a" ∷ []) idle

abbrev second : Read
second = start ("b" ∷ "c" ∷ []) first.coalescer

shares : second.waits ≡ ("b", 0) ∷ ("c", 1) ∷ []
unfolding program
shares = refl

abbrev ledger : Ledger
ledger id = some "entry"

abbrev answers : ℕ → Option (List (String × String))
answers n =
    if nat_eq n 0 then some (("a", "entry") ∷ ("b", "entry") ∷ []) else some (("c", "entry") ∷ [])

start-Joins_example :
    Joins ("b" ∷ "c" ∷ []) first.coalescer (start ("b" ∷ "c" ∷ []) first.coalescer)
start-Joins_example = start-Joins ("b" ∷ "c" ∷ []) first.coalescer

results-start_example :
    (unique : List String) × (r : List (String × String)) × Distinct unique
    × ((id : String) → is_in id unique ≡ is_in id ("b" ∷ "c" ∷ []))
    × (results answers (start ("b" ∷ "c" ∷ []) first.coalescer).waits ≡ some r)
    × Perm r (found ledger unique)
unfolding program
results-start_example =
    results-start ledger answers ("b" ∷ "c" ∷ []) first.coalescer
      ((_, refl, refl), ((_, refl, refl), tt))
