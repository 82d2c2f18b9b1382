-- ===== src/Responses.antt =====
-- packages/rpc/src/json-rpc-response.ts: `parseJsonRpcResponse` and `parseJsonRpcResult`. What `JSON.parse` makes of a body is a parameter.
mod Accepted
mod Tests
use Prim.Native.Char.{Char, code}
use Prim.Native.String
use automated_cross_contract.Prelude.{
  ℕ, zero, suc, ◌+◌, Bool, true, false, not, ◌&&◌, ◌||◌, Option, none, some, List, [], ◌∷◌, ◌++◌,
  String, if◌then◌else◌, leb, nat_eq, ◌==◌, string_Eq, ◌+s◌, decimal, or_else,
}
use automated_cross_contract.Prelude.Strings.{trim}
use automated_cross_contract.Receipts.{
  Json, null, boolean, number, other_number, text, array, object, Fields, member, number_text,
}

pub data RpcResponseErrorKind : Type 0 where
  invalid_content_type malformed_json json_rpc_error : RpcResponseErrorKind

pub record RpcResponseError : Type 0 where
  pub kind : RpcResponseErrorKind
  pub message : String
  pub status : ℕ
  pub content_type : Option String
  pub rpc_code : Option String

-- a result, or an error that is thrown
pub data Parsed {ℓ} (A : Type ℓ) : Type ℓ where
  parsed : A → Parsed A
  failed : RpcResponseError → Parsed A

-- `s.split(';')[0]`
abbrev pub before_semicolon : String → String
before_semicolon String.[] = String.[]
before_semicolon (String.◌∷◌ c s) =
    let rest = before_semicolon s in if nat_eq (code c) b';' then String.[] else String.◌∷◌ c rest

-- the code of a letter in lower case
abbrev pub lower_code : Char → ℕ
lower_code c = if leb b'A' (code c) && leb (code c) b'Z' then code c + 32 else code c

-- `s.toLowerCase() === t`, for a text `t` of small ASCII letters and signs
pub is_lower_case_of : String → String → Bool
is_lower_case_of String.[] String.[] = true
is_lower_case_of String.[] (String.◌∷◌ c s) = false
is_lower_case_of (String.◌∷◌ d t) String.[] = false
is_lower_case_of (String.◌∷◌ d t) (String.◌∷◌ c s) =
    let rest = is_lower_case_of t s in nat_eq (lower_code c) (code d) && rest

-- `s.toLowerCase().endsWith(t)`
pub ends_in_lower_case : String → String → Bool
unfolding is_lower_case_of
ends_in_lower_case t String.[] = is_lower_case_of t String.[]
ends_in_lower_case t (String.◌∷◌ c s) =
    let later = ends_in_lower_case t s in is_lower_case_of t (String.◌∷◌ c s) || later

unfoldable pub is_json_media_type : String → Bool
unfolding is_lower_case_of ends_in_lower_case
is_json_media_type content_type =
    let media_type = trim (before_semicolon content_type) in
    is_lower_case_of "application/json" media_type
    || is_lower_case_of "application/json-rpc" media_type
    || ends_in_lower_case "+json" media_type

-- `JSON.parse` gives a value or throws an error with a message
pub data Read : Type 0 where
  value : Json → Read
  syntax_error : String → Read

module _ (parse : String → Read) where
  abbrev pub response_error : RpcResponseErrorKind → String → ℕ → Option String → RpcResponseError
  response_error kind message status content_type = record {
    kind = kind;
    message = message;
    status = status;
    content_type = content_type;
    rpc_code = none;
  }

  abbrev pub is_json_content : Option String → Bool
  is_json_content none = false
  is_json_content (some content_type) = is_json_media_type content_type

  unfoldable pub parse_json_rpc_response : String → Option String → ℕ → Parsed Json
  parse_json_rpc_response body content_type status =
      if is_json_content content_type
      then elim (parse body) [
        | value v ↦ parsed v
        | syntax_error reason ↦ failed (
            response_error malformed_json
              ("Malformed JSON in RPC response (status " +s decimal status +s "): " +s reason)
              status content_type)
      ]
      else failed (
          response_error invalid_content_type
            ("Expected a JSON-RPC response but received content type "
              +s or_else content_type "none"
              +s " (status "
              +s decimal status
              +s ")")
            status content_type)

  -- the members `code` and `message` of an error; only an object has them
  abbrev pub error_code : Json → Option String
  error_code (object fields) = number_text (member "code" fields)
  error_code _ = none

  abbrev pub error_message : Json → String
  error_message (object fields) = elim (member "message" fields) [
    | some (text s) ↦ s
    | _ ↦ "no message"
  ]
  error_message _ = "no message"

  -- an `error` member that is neither undefined nor null
  abbrev pub error_member : Fields → Option Json
  error_member fields = elim (member "error" fields) [
    | none ↦ none
    | some null ↦ none
    | some e ↦ some e
  ]

  unfoldable pub result_of_envelope : Fields → Option String → ℕ → Parsed Json
  result_of_envelope fields content_type status = elim (error_member fields) [
    | some e ↦
        failed
          (record (response_error json_rpc_error
            ("JSON-RPC error "
              +s or_else (error_code e) "unknown"
              +s " (status "
              +s decimal status
              +s "): "
              +s error_message e)
            status content_type) { rpc_code = error_code e })
    | none ↦ elim (member "result" fields) [
      | some result ↦ parsed result
      | none ↦ failed (
          response_error malformed_json
            ("RPC response has neither result nor error (status " +s decimal status +s ")") status
            content_type)
    ]
  ]

  unfoldable pub parse_json_rpc_result : String → Option String → ℕ → Parsed Json
  parse_json_rpc_result body content_type status =
      let not_an_object : Parsed Json = failed (
        response_error malformed_json
          ("RPC response is not a JSON-RPC object (status " +s decimal status +s ")") status
          content_type) in
      elim (parse_json_rpc_response body content_type status) [
        | failed e ↦ failed e
        | parsed (object fields) ↦ result_of_envelope fields content_type status
        | parsed _ ↦ not_an_object
      ]
