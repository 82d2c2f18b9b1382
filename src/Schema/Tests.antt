-- ===== src/Schema/Tests.antt =====
-- Results of RPC methods.
use automated_cross_contract.Prelude.{◌≡◌, refl, none, ◌↔◌}
use automated_cross_contract.Receipts.{Json, object, field, done, text, number}
use automated_cross_contract.Schema.{schema_of, fields_at, validate_rpc_result_schema}
use automated_cross_contract.Schema.Checked.{IsChecked, validate_rpc_result_schema_iff}

program : Unit {0}
unfolding validate_rpc_result_schema schema_of fields_at
program = tt

abbrev health : Json
health = object (field "status" (text "healthy") (field "extra" (number 1) done))

passes : validate_rpc_result_schema "getHealth" 21 health ≡ none
unfolding program
passes = refl

-- a name of `Object.prototype` passes as a method without requirements
inherited : validate_rpc_result_schema "toString" 22 (object done) ≡ none
unfolding program
inherited = refl

validate_rpc_result_schema_iff_example :
    (validate_rpc_result_schema "getHealth" 21 health ≡ none) ↔ IsChecked "getHealth" 21 health
validate_rpc_result_schema_iff_example = validate_rpc_result_schema_iff "getHealth" 21 health
