-- ===== src/Sponsorship/Tests.antt =====
-- Checks of sponsorship metadata.
use automated_cross_contract.Prelude.{◌≡◌, refl, true, false, none, some, ◌↔◌}
use automated_cross_contract.Prelude.Strings.{nonneg, read_integer, read_natural, trim}
use automated_cross_contract.Sponsorship.{
  integer, text, finite, FeeSponsorshipMetadata, FeeSponsorshipContext, validate_fee_sponsorship,
  assert_valid_fee_sponsorship, sponsor_errors, network_errors, asset_errors, fee_errors,
  ceiling_errors, expiry_errors, normalize, to_big_int, matches_sponsor_pattern,
}
use automated_cross_contract.Sponsorship.Declared.{IsDeclared, validate_fee_sponsorship_iff}

program : Unit {0}
unfolding validate_fee_sponsorship assert_valid_fee_sponsorship normalize to_big_int
    matches_sponsor_pattern trim read_integer read_natural sponsor_errors network_errors
    asset_errors fee_errors ceiling_errors expiry_errors
program = tt

abbrev metadata : FeeSponsorshipMetadata
metadata = record {
  sponsor = some " GABC ";
  network = some "testnet";
  asset = some "native";
  max_fee = some (text " 500 ");
  expires_at = some (finite 90);
}

abbrev wallet : FeeSponsorshipContext
wallet = record {
  network = "testnet";
  asset = "native";
  max_fee = some (integer (nonneg 1000));
  now = none;
}

accepted : (validate_fee_sponsorship 80 (some metadata) wallet).valid ≡ true
unfolding program
accepted = refl

too_late : (validate_fee_sponsorship 90 (some metadata) wallet).valid ≡ false
unfolding program
too_late = refl

validate_fee_sponsorship_iff_example :
    ((validate_fee_sponsorship 80 (some metadata) wallet).valid ≡ true)
    ↔ IsDeclared 80 metadata wallet
validate_fee_sponsorship_iff_example = validate_fee_sponsorship_iff 80 metadata wallet
