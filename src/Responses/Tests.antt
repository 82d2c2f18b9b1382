-- ===== src/Responses/Tests.antt =====
-- Bodies of responses.
use automated_cross_contract.Prelude.{◌≡◌, refl, some, String, ◌==◌, string_Eq, if◌then◌else◌}
use automated_cross_contract.Prelude.Strings.{trim}
use automated_cross_contract.Receipts.{null, number, object, done, field}
use automated_cross_contract.Responses.{
  parsed, Read, value, syntax_error, is_json_media_type, parse_json_rpc_response,
  result_of_envelope, parse_json_rpc_result,
}
use automated_cross_contract.Responses.Accepted.{Explains, parse_json_rpc_result-Explains}

program : Unit {0}
unfolding parse_json_rpc_result parse_json_rpc_response result_of_envelope is_json_media_type trim
program = tt

abbrev parse : String → Read
parse body =
    if body == "ok"
    then value (object (field "error" null (field "result" (number 7) done)))
    else syntax_error "unexpected token"

takes_the_result :
    parse_json_rpc_result parse "ok" (some "Application/JSON; charset=utf-8") 200
    ≡ parsed (number 7)
unfolding program
takes_the_result = refl

parse_json_rpc_result-Explains_example :
    Explains parse "ok"
      (some "application/json")
      (parse_json_rpc_result parse "ok" (some "application/json") 200)
parse_json_rpc_result-Explains_example =
    parse_json_rpc_result-Explains parse "ok" (some "application/json") 200
