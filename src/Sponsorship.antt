-- ===== src/Sponsorship.antt =====
-- packages/core/src/fee-sponsorship.ts: `validateFeeSponsorship` and `assertValidFeeSponsorship`. A member that
-- is null or undefined is `none`. Times are whole seconds; the clock is an argument.
mod Declared
mod Tests
use Prim.Native.Char.{Char, code}
use Prim.Native.String
use automated_cross_contract.Prelude.{
  ℕ, zero, suc, ◌+◌, Bool, true, false, not, ◌&&◌, ◌||◌, Option, none, some, List, [], ◌∷◌, ◌++◌,
  String, if◌then◌else◌, leb, nat_eq, ◌==◌, string_Eq, ◌+s◌, decimal, or_else,
}
use automated_cross_contract.Prelude.Strings.{trim, Bigint, nonneg, below_minus_one, read_integer}
use automated_cross_contract.Submission.{Answer, resolved, rejected, Failure, foreign}

-- `number | string | bigint`; a number that is no integer is `fraction`
pub data Amount : Type 0 where
  integer : Bigint → Amount
  fraction : Amount
  text : String → Amount
  bigint : Bigint → Amount

-- a number of seconds
pub data Seconds : Type 0 where
  infinite : Seconds
  finite : ℕ → Seconds

pub record FeeSponsorshipMetadata : Type 0 where
  pub sponsor : Option String
  pub network : Option String
  pub asset : Option String
  pub max_fee : Option Amount
  pub expires_at : Option Seconds

pub record FeeSponsorshipContext : Type 0 where
  pub network : String
  pub asset : String
  pub max_fee : Option Amount
  pub now : Option ℕ

pub data FeeSponsorshipValidationCode : Type 0 where
  missing_metadata missing_sponsor invalid_sponsor : FeeSponsorshipValidationCode
  missing_network network_mismatch missing_asset asset_mismatch : FeeSponsorshipValidationCode
  missing_max_fee invalid_max_fee max_fee_exceeded expired : FeeSponsorshipValidationCode

pub record FeeSponsorshipValidationError : Type 0 where
  pub code : FeeSponsorshipValidationCode
  pub message : String

pub record FeeSponsorshipValidationResult : Type 0 where
  pub valid : Bool
  pub errors : List FeeSponsorshipValidationError

abbrev pub one_error : FeeSponsorshipValidationCode → String → List FeeSponsorshipValidationError
one_error code message = record { code = code; message = message } ∷ []

-- a character of `SPONSOR_PATTERN`
abbrev pub is_sponsor_char : Char → Bool
is_sponsor_char c =
    let n = code c in
    (leb b'A' n && leb n b'Z')
    || (leb b'a' n && leb n b'z')
    || (leb b'0' n && leb n b'9')
    || nat_eq n b':'
    || nat_eq n b'_'
    || nat_eq n b'-'

abbrev pub all_sponsor_chars : String → Bool
all_sponsor_chars String.[] = true
all_sponsor_chars (String.◌∷◌ c s) = is_sponsor_char c && all_sponsor_chars s

abbrev pub char_count : String → ℕ
char_count String.[] = 0
char_count (String.◌∷◌ c s) = char_count s + 1

-- `SPONSOR_PATTERN.test`, `/^[A-Za-z0-9:_-]{3,128}$/`
unfoldable pub matches_sponsor_pattern : String → Bool
matches_sponsor_pattern s = leb 3 (char_count s) && leb (char_count s) 128 && all_sponsor_chars s

unfoldable pub normalize : Option String → Option String
normalize none = none
normalize (some value) = let trimmed = trim value in if trimmed == "" then none else some trimmed

unfoldable pub to_big_int : Option Amount → Option Bigint
to_big_int none = none
to_big_int (some (bigint value)) = some value
to_big_int (some (integer value)) = some value
to_big_int (some fraction) = none
to_big_int (some (text value)) = read_integer (trim value)

abbrev pub big_text : Bigint → String
big_text (nonneg n) = decimal n
big_text (below_minus_one n) = "-" +s decimal (n + 1)

unfoldable pub sponsor_errors : Option String → List FeeSponsorshipValidationError
sponsor_errors none =
    one_error missing_sponsor "Fee-sponsorship metadata is missing a sponsor account."
sponsor_errors (some sponsor) =
    if matches_sponsor_pattern sponsor
    then []
    else one_error invalid_sponsor
        ("Fee-sponsorship sponsor \"" +s sponsor +s "\" is not a valid account identifier.")

unfoldable pub network_errors : String → Option String → List FeeSponsorshipValidationError
network_errors wanted none =
    one_error missing_network "Fee-sponsorship metadata is missing a network."
network_errors wanted (some network) =
    if network == wanted
    then []
    else one_error network_mismatch (
        "Fee-sponsorship network \"" +s network +s "\" does not match wallet network \"" +s wanted
        +s "\".")

unfoldable pub asset_errors : String → Option String → List FeeSponsorshipValidationError
asset_errors wanted none = one_error missing_asset "Fee-sponsorship metadata is missing an asset."
asset_errors wanted (some asset) =
    if asset == wanted
    then []
    else one_error asset_mismatch (
        "Fee-sponsorship asset \"" +s asset +s "\" does not match expected asset \"" +s wanted
        +s "\".")

-- `a > b`
abbrev pub exceeds : Bigint → Bigint → Bool
exceeds (nonneg a) (nonneg b) = not (leb a b)
exceeds (nonneg a) (below_minus_one b) = true
exceeds (below_minus_one a) (nonneg b) = false
exceeds (below_minus_one a) (below_minus_one b) = not (leb b a)

-- the ceiling of the context, for a fee above zero
unfoldable pub ceiling_errors : Option Amount → Bigint → List FeeSponsorshipValidationError
ceiling_errors none max_fee = []
ceiling_errors (some amount) max_fee = elim (to_big_int (some amount)) [
  | none ↦ one_error invalid_max_fee "Caller-provided maxFee ceiling is not a valid integer."
  | some ceiling ↦
      if exceeds max_fee ceiling
      then one_error max_fee_exceeded (
          "Fee-sponsorship maxFee "
          +s big_text max_fee
          +s " exceeds allowed ceiling "
          +s big_text ceiling
          +s ".")
      else []
]

unfoldable pub fee_errors : Option Amount → Option Amount → List FeeSponsorshipValidationError
fee_errors ceiling amount = elim (to_big_int amount) [
  | none ↦
      one_error (elim amount [ none ↦ missing_max_fee | some a ↦ invalid_max_fee ])
        "Fee-sponsorship metadata must declare a positive integer maxFee."
  | some max_fee ↦
      if exceeds max_fee (nonneg 0)
      then ceiling_errors ceiling max_fee
      else one_error invalid_max_fee "Fee-sponsorship maxFee must be greater than zero."
]

unfoldable pub expiry_errors : ℕ → Option Seconds → List FeeSponsorshipValidationError
expiry_errors now none = []
expiry_errors now (some infinite) = one_error expired "Fee-sponsorship metadata has expired."
expiry_errors now (some (finite t)) =
    if leb t now then one_error expired "Fee-sponsorship metadata has expired." else []

abbrev pub is_empty : List FeeSponsorshipValidationError → Bool
is_empty [] = true
is_empty (e ∷ es) = false

-- `clock` is `Math.floor(Date.now() / 1000)`
unfoldable pub validate_fee_sponsorship :
    ℕ → Option FeeSponsorshipMetadata → FeeSponsorshipContext → FeeSponsorshipValidationResult
validate_fee_sponsorship clock none context = record {
  valid = false;
  errors =
      one_error missing_metadata
        "Fee-sponsorship metadata is required before requesting wallet authorization.";
}
validate_fee_sponsorship clock (some metadata) context =
    let errors =
      sponsor_errors (normalize metadata.sponsor)
      ++ (network_errors context.network (normalize metadata.network)
          ++ (asset_errors context.asset (normalize metadata.asset)
              ++ (fee_errors context.max_fee metadata.max_fee
                  ++ expiry_errors (or_else context.now clock) metadata.expires_at))) in
    record { valid = is_empty errors; errors = errors }

-- `result.errors.map((e) => e.message).join(" ")`
abbrev pub join_messages : List FeeSponsorshipValidationError → String
join_messages [] = ""
join_messages (e ∷ []) = e.message
join_messages (e ∷ f ∷ es) = e.message +s " " +s join_messages (f ∷ es)

unfoldable pub assert_valid_fee_sponsorship :
    ℕ → Option FeeSponsorshipMetadata → FeeSponsorshipContext → Answer (Unit {0})
assert_valid_fee_sponsorship clock metadata context =
    let result = validate_fee_sponsorship clock metadata context in
    if result.valid
    then resolved tt
    else rejected (foreign ("Invalid fee-sponsorship metadata: " +s join_messages result.errors))
