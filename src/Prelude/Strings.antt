-- ===== src/Prelude/Strings.antt =====
-- `String.prototype.trim`, and the reading of a decimal integer (`BigInt` of a text that matches `/^-?\d+$/`).
use Prim.Native.Char.{Char, code}
use Prim.Native.String.{String}
use Prim.Native.Nat.{ℕ, zero, suc, ◌+◌, ◌-◌, ◌*◌}
use mathlib.Core.Bool.{Bool, ◌&&◌, ◌||◌}
use mathlib.Core.Option.{Option, none, some}
use automated_cross_contract.Prelude.Tests.{leb, nat_eq, if◌then◌else◌}

-- the white space and line ends of ECMAScript
abbrev pub is_space : Char → Bool
is_space c =
    let n = code c in
    (leb 9 n && leb n 13)
    || nat_eq n 32
    || nat_eq n 160
    || nat_eq n 5760
    || (leb 8192 n && leb n 8202)
    || nat_eq n 8232
    || nat_eq n 8233
    || nat_eq n 8239
    || nat_eq n 8287
    || nat_eq n 12288
    || nat_eq n 65279

pub trim_start : String → String
trim_start String.[] = String.[]
trim_start (String.◌∷◌ c s) = let rest = trim_start s in if is_space c then rest else String.◌∷◌ c s

-- `c` in front of a trimmed text
abbrev pub before_trimmed : Char → String → String
before_trimmed c String.[] = if is_space c then String.[] else String.◌∷◌ c String.[]
before_trimmed c (String.◌∷◌ d s) = String.◌∷◌ c (String.◌∷◌ d s)

pub trim_end : String → String
trim_end String.[] = String.[]
trim_end (String.◌∷◌ c s) = before_trimmed c (trim_end s)

unfoldable pub trim : String → String
unfolding trim_start trim_end
trim s = trim_end (trim_start s)

-- an integer: the number, or that many below -1
pub data Bigint : Type 0 where
  nonneg : ℕ → Bigint
  below_minus_one : ℕ → Bigint

abbrev pub is_digit : Char → Bool
is_digit c = leb b'0' (code c) && leb (code c) b'9'

-- the digits of a text, behind the number `n` read so far
pub read_digits : ℕ → String → Option ℕ
read_digits n String.[] = some n
read_digits n (String.◌∷◌ c s) =
    let rest = read_digits (n * 10 + (code c - b'0')) s in if is_digit c then rest else none

-- at least one digit
unfoldable pub read_natural : String → Option ℕ
unfolding read_digits
read_natural String.[] = none
read_natural (String.◌∷◌ c s) = read_digits 0 (String.◌∷◌ c s)

abbrev pub negated : ℕ → Bigint
negated zero = nonneg 0
negated (suc n) = below_minus_one n

unfoldable pub read_integer : String → Option Bigint
read_integer String.[] = none
read_integer (String.◌∷◌ c s) =
    if nat_eq (code c) b'-'
    then elim (read_natural s) [ none ↦ none | some n ↦ some (negated n) ]
    else elim (read_natural (String.◌∷◌ c s)) [ none ↦ none | some n ↦ some (nonneg n) ]
