-- ===== src/Prelude/Text.antt =====
-- Strings as template literals make them.
use Prim.Native.String
use Prim.Native.String.{String}
use Prim.Native.Nat.{ℕ, zero, suc, ◌/◌, ◌%◌}
use mathlib.Core.Path.{◌≡◌, refl}
use mathlib.Core.List.{[], ◌∷◌}
use automated_cross_contract.Prelude.Tests.{ltb, if◌then◌else◌, or_else}
use automated_cross_contract.Prelude.Lists.{get_elem?}

infixr 65 ◌+s◌
abbrev pub ◌+s◌ : String → String → String
a +s b = String.◌++◌ a b

digit : ℕ → String
digit n = or_else (get_elem? ("0" ∷ "1" ∷ "2" ∷ "3" ∷ "4" ∷ "5" ∷ "6" ∷ "7" ∷ "8" ∷ "9" ∷ []) n) ""

-- The digits of a number, in front of a text. A number has at most as many digits as its successor says.
digits : ℕ → ℕ → String → String
unfolding digit
digits zero n out = out
digits (suc fuel) n out =
    let more = digits fuel (n / 10) (digit (n % 10) +s out) in
    if ltb n 10 then digit n +s out else more

-- a number in a template literal
unfoldable pub decimal : ℕ → String
unfolding digits
decimal n = digits (suc n) n ""

decimal_1250 : decimal 1250 ≡ "1250"
unfolding decimal
decimal_1250 = refl
