-- ===== src/Prelude/Members.antt =====
-- Membership of texts in lists, as a `Set` of strings tests it.
use Prim.Native.String.{String}
use mathlib.Core.Path.{◌≡◌, refl, ap}
use mathlib.Core.Logic.{◌≢◌, inl, inr}
use mathlib.Core.Bool.{Bool, true, false, ◌&&◌, ◌||◌}
use mathlib.Core.List.{List, [], ◌∷◌, ◌++◌}
use native.Mathlib.Omega.{arith}
use automated_cross_contract.Prelude.Tests.{if◌then◌else◌, Bool-cases}
use automated_cross_contract.Prelude.Lists.{All, All-snoc, filter_b}
use automated_cross_contract.Prelude.Equality.{string_Eq, ◌==◌}
use automated_cross_contract.Prelude.Dict.{Distinct}

abbrev pub is_in : String → List String → Bool
is_in key [] = false
is_in key (other ∷ keys) = if key == other then true else is_in key keys

pub is_in-append :
    (key : String) (xs ys : List String) → is_in key (xs ++ ys) ≡ (is_in key xs || is_in key ys)
is_in-append key [] ys = refl
is_in-append key (x ∷ xs) ys = ground (arith, is_in-append key xs ys)

pub is_in-filter :
    (key : String) (p : String → Bool) (xs : List String)
    → is_in key (filter_b p xs) ≡ (is_in key xs && p key)
is_in-filter key p [] = refl
is_in-filter key p (x ∷ xs) = elim (Bool-cases (key == x)) [
  | inl same ↦
      let equal : p key ≡ p x = ap p ((string_Eq.beq_iff key x).0 same) in
      ground (arith, is_in-filter key p xs, equal, same)
  | inr other ↦ ground (arith, is_in-filter key p xs, other)
]

absent : (key : String) (keys : List String) → is_in key keys ≡ false → All (λ x. x ≢ key) keys
absent key [] h = tt
absent key (x ∷ xs) h = ground (arith, string_Eq.beq_iff key x, absent key xs)

Distinct-snoc_ne :
    (keys : List String) (key : String)
    → Distinct keys
    → All (λ x. x ≢ key) keys
    → Distinct (keys ++ key ∷ [])
Distinct-snoc_ne [] key d h = (tt, tt)
Distinct-snoc_ne (x ∷ xs) key (p, d) (q, h) =
    (All-snoc (λ y. x ≢ y) xs key p q, Distinct-snoc_ne xs key d h)

-- a key that is not in a list may be added at its end
pub Distinct-snoc :
    (keys : List String) (key : String)
    → Distinct keys
    → is_in key keys ≡ false
    → Distinct (keys ++ key ∷ [])
Distinct-snoc keys key d new = Distinct-snoc_ne keys key d (absent key keys new)
